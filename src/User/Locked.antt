-- ===== src/User/Locked.antt =====
-- What the locks of a program guard in a process that fork has just made.
use dunkos.Common.{ℕ, ◌^◌, ◌<◌, ◌≤◌, ◌≡◌, refl, ap, false, some, List}
use dunkos.Common.{arith}
use dunkos.Bitmap.{Bitmap, bitmap_test, bitmap_create}
use dunkos.Bitmap.Update.{test-create}
use dunkos.Process.{Blocks, Processes, new_child, process_init, semtable_size}
use dunkos.Fdtable.{sema_in_table}
use dunkos.Fdtable.Numbers.{sget-fails}
use dunkos.Threads.{Sys}
use dunkos.Syscall.{sinc, sdec}
use dunkos.User.Lock.{Lock, nobody, lock_init, lock_acquire, lock_release}

-- A lock with the semaphore -1.
abbrev pub held_by : ℕ → Lock
held_by holder = record { sema = nobody; holder = holder }

init_clear :
    (map : Bitmap)
    → map.bitcount ≤ 2 ^ 31
    → ((i : ℕ) → i < map.bitcount → bitmap_test map i ≡ false)
    → lock_init map ≡ (held_by nobody, map)
unfolding lock_init
init_clear map small clear =
    ap (λ r. (record { sema = r.0; holder = nobody }, r.1)) (sget-fails map small clear)

new_map :
    (b : Blocks) (cur : ℕ) (t : Processes)
    → (new_child b cur t).semtable_map b.process ≡ bitmap_create semtable_size
unfolding new_child process_init
new_map b cur t = ground arith

few : (bitmap_create semtable_size).bitcount ≤ 2 ^ 31
unfolding bitmap_create
few = omega arith

acquire_outside :
    (map : Bitmap) (semtable pid holder : ℕ) (others : List (Sys → Sys)) (s : Sys)
    → lock_acquire map semtable pid others (held_by holder) s ≡ some (held_by pid, s)
unfolding lock_acquire sdec sema_in_table
acquire_outside map semtable pid holder others s = refl

-- A lock that lock_init makes in a new process, of which fork has put nothing into the map of the
-- semaphores, has the semaphore -1 and leaves the map. Whoever asks for such a lock has it at once,
-- while another holds it too, without waiting: no state of the scheduler changes, and releasing it
-- wakes nobody.
pub lock_init-unguarded :
    (b : Blocks) (cur : ℕ) (t : Processes) (semtable pid pid' : ℕ)
    (others others' : List (Sys → Sys)) (s : Sys)
    → let map = (new_child b cur t).semtable_map b.process in
      (lock_init map ≡ (held_by nobody, map))
      × (lock_acquire map semtable pid others (lock_init map).0 s ≡ some (held_by pid, s))
      × (lock_acquire map semtable pid' others' (held_by pid) s ≡ some (held_by pid', s))
      × (lock_release map semtable (held_by pid) s ≡ (held_by nobody, s))
unfolding lock_release sinc sema_in_table
lock_init-unguarded b cur t semtable pid pid' others others' s =
    let map = (new_child b cur t).semtable_map b.process in
    let made : lock_init map ≡ (held_by nobody, map) =
      rw (new_map b cur t)
        (init_clear (bitmap_create semtable_size) few (λ i h. test-create semtable_size i)) in
    (
      made,
      rw made (acquire_outside map semtable pid nobody others s),
      acquire_outside map semtable pid' pid others' s,
      refl,
    )
