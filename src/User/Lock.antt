-- ===== src/User/Lock.antt =====
-- The locks of a program, over the calls on semaphores as the kernel answers them. A holder and a
-- semaphore are 32-bit patterns; `semtable_map` and `semtable` are those of the process.
use dunkos.Common.{ℕ, ◌-◌, ◌^◌, Option, none, some, List}
use dunkos.Bitmap.{Bitmap}
use dunkos.Fdtable.{sget}
use dunkos.Threads.{Sys}
use dunkos.Syscall.{sinc, sdec}

pub record Lock : Type 0 where
  pub sema : ℕ
  pub holder : ℕ

-- The `-1` of a lock that nobody holds.
abbrev pub nobody : ℕ
nobody = 2 ^ 32 - 1

-- The value 1 that the library passes to sget is not read there.
unfoldable pub lock_init : Bitmap → Lock × Bitmap
unfolding sget
lock_init semtable_map =
    let (sema, map) = sget semtable_map in (record { sema = sema; holder = nobody }, map)

-- `pid` is what getpid returns.
unfoldable pub lock_acquire : Bitmap → ℕ → ℕ → List (Sys → Sys) → Lock → Sys → Option (Lock × Sys)
unfolding sdec
lock_acquire semtable_map semtable pid others l s =
    elim (sdec semtable_map semtable l.sema others s) [
      | none ↦ none
      | some s' ↦ some (record l { holder = pid }, s')
    ]

unfoldable pub lock_release : Bitmap → ℕ → Lock → Sys → Lock × Sys
unfolding sinc
lock_release semtable_map semtable l s =
    (record l { holder = nobody }, sinc semtable_map semtable l.sema s)
