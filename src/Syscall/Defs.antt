-- ===== src/Syscall/Defs.antt =====
-- The calls as the kernel runs them for a process. `resolve_path` is called for the working directory,
-- and what it leaves is an argument, as in Filesys. Addresses of locals are arguments.
use dunkos.Common.{ℕ, ◌+◌, ◌*◌, ◌/◌, ◌%◌, Bool, true, false, Option, none, some, List}
use dunkos.Common.{if◌then◌else◌}
use dunkos.Bitmap.{Bitmap}
use dunkos.Block.{Ide}
use dunkos.LinkedList.{null}
use dunkos.Hashtable.{hashtable_destroy}
use dunkos.Fdtable.{FdState, fd_of, file, fdtable_open, fdtable_lookupfd, fd_get, fd_eof, fd_chmod}
use dunkos.Fdtable.{sema_in_table}
use dunkos.Filesys.{Fs, Sectors, Frame, Resolved, ◌>>=◌, create_file, remove_file, open_file}
use dunkos.Filesys.{file_set_mode, file_close}
use dunkos.Threads.{Sys, semaphore_inc, semaphore_dec}
use dunkos.Timer.{Timer, sleep_timespec}

unfoldable pub create : Ide → Sectors → Frame → Resolved → ℕ → Fs → Option (Bool × Fs)
unfolding create_file
create ide tables f r m s = create_file ide tables f r m s

unfoldable pub remove : Ide → Sectors → Frame → Resolved → Bool → Fs → Option (Bool × Fs)
unfolding remove_file
remove ide tables f r result s = remove_file ide tables f r result s

unfoldable pub chmod : Ide → Sectors → Frame → Resolved → ℕ → Fs → Option (Bool × Fs)
unfolding open_file file_set_mode file_close
chmod ide tables f r m s₀ = do
  (tmpstream, s₁) ← open_file ide tables f r s₀
  elim tmpstream [
    | none ↦ do s₂ ← file_close ide tables none s₁; some (false, s₂)
    | some stream ↦ do
      s₂ ← file_set_mode stream m s₁
      s₃ ← file_close ide tables (some stream) s₂
      some (true, s₃)
  ]

-- `fd` is the new descriptor, `stream` what open_file returns.
unfoldable pub open_call : ℕ → ℕ → FdState → ℕ × FdState
unfolding fdtable_open fd_get
open_call fd stream s = let s' = fdtable_open fd stream s in (fd_get fd s', s')

-- fd_free, for what file_close does to a state; freeing the block changes nothing that is modelled.
unfoldable pub fd_free {ℓ} : {S : Type ℓ} → (ℕ → S → S) → ℕ → FdState → S → S
fd_free close_file fd s t = elim (s.kind fd) [ file ↦ close_file (s.io_object fd) t | _ ↦ t ]

-- `free` is what kfree does to a state.
unfoldable pub fdtable_destroy {ℓ} : {S : Type ℓ} → (ℕ → S → S) → (ℕ → S → S) → FdState → S → S
unfolding hashtable_destroy fd_free
fdtable_destroy close_file free s =
    hashtable_destroy (λ t. s.links) free s.fdmap (λ e aux. fd_free close_file (fd_of e) s) null

unfoldable pub fdtable_free {ℓ} : {S : Type ℓ} → (ℕ → S → S) → ℕ → ℕ → FdState → S → S
unfolding fdtable_lookupfd fd_free
fdtable_free close_file key fd s t = fd_free close_file (fdtable_lookupfd key fd s) s t

unfoldable pub close {ℓ} : {S : Type ℓ} → (ℕ → S → S) → ℕ → ℕ → FdState → S → S
unfolding fdtable_free
close close_file key fd s t = fdtable_free close_file key fd s t

unfoldable pub eof : (ℕ → Bool) → ℕ → ℕ → FdState → Bool
unfolding fd_eof fdtable_lookupfd
eof file_eof key fd s = fd_eof file_eof (fdtable_lookupfd key fd s) s

-- Whether the mode may be set, and the stream whose mode is set.
unfoldable pub chmodfd : ℕ → ℕ → FdState → Bool × Option ℕ
unfolding fd_chmod fdtable_lookupfd
chmodfd key fd s = fd_chmod (fdtable_lookupfd key fd s) s

-- The transfer of a descriptor: its `writefunc` or `readfunc` on its object.
unfoldable pub fd_transfer {ℓ} :
    {S : Type ℓ} → (ℕ → ℕ → ℕ → S → ℕ × S) → ℕ → ℕ → ℕ → FdState → S → ℕ × S
fd_transfer func fd p bytes s t = func (s.io_object fd) p bytes t

unfoldable pub write_call {ℓ} :
    {S : Type ℓ} → (ℕ → ℕ → ℕ → S → ℕ × S) → ℕ → ℕ → ℕ → ℕ → FdState → S → ℕ × S
unfolding fd_transfer fdtable_lookupfd
write_call writefunc key fd src bytes s t =
    fd_transfer writefunc (fdtable_lookupfd key fd s) src bytes s t

unfoldable pub read_call {ℓ} :
    {S : Type ℓ} → (ℕ → ℕ → ℕ → S → ℕ × S) → ℕ → ℕ → ℕ → ℕ → FdState → S → ℕ × S
unfolding fd_transfer fdtable_lookupfd
read_call readfunc key fd dest bytes s t =
    fd_transfer readfunc (fdtable_lookupfd key fd s) dest bytes s t

-- The seconds and nanoseconds of `ms`, which is not negative; the product is of 64 bits, and one that
-- does not fit 63 of them is not modelled.
unfoldable pub sleep_parts : ℕ → ℕ × ℕ
sleep_parts ms = (ms / 1000, ms * 1000000000 / 1000 % 1000000000)

unfoldable pub sleep : ℕ → (ℕ → ℕ) → ℕ → List (Sys → Sys) → List (Sys → Sys) → Timer → Option Timer
unfolding sleep_parts sleep_timespec
sleep sleep_queue_lock sleep_sema ms others others' s =
    let (seconds, nano) = sleep_parts ms in
    sleep_timespec sleep_queue_lock sleep_sema seconds nano others others' s

-- `semtable + sema`
abbrev pub sema_at : ℕ → ℕ → ℕ
sema_at semtable sema = semtable + 48 * sema

unfoldable pub sinc : Bitmap → ℕ → ℕ → Sys → Sys
unfolding sema_in_table semaphore_inc
sinc semtable_map semtable sema s =
    if sema_in_table sema semtable_map then semaphore_inc (sema_at semtable sema) s else s

unfoldable pub sdec : Bitmap → ℕ → ℕ → List (Sys → Sys) → Sys → Option Sys
unfolding sema_in_table semaphore_dec
sdec semtable_map semtable sema others s =
    if sema_in_table sema semtable_map
    then semaphore_dec (sema_at semtable sema) others s
    else some s
