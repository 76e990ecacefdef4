-- ===== src/User/Tests.antt =====
-- Calls of a program, and a lock in a new process.
use dunkos.Common.{◌≡◌, ◌<◌, true, some, none, [], false}
use dunkos.Threads.{Sys, running, enabled}
use dunkos.Process.{new_child}
use dunkos.Syscall.Tests.{blocks, family}
use dunkos.User.Calls.{trap, dispatch, init_syscalls, number, sys_count, write_call, open_call}
use dunkos.User.Lock.{nobody, lock_init, lock_acquire, lock_release}
use dunkos.User.Dispatch.{dispatch-trap}
use dunkos.User.Locked.{held_by, lock_init-unguarded}

dispatch-trap_example :
    let t = trap write_call 1 4096 5 in
    (dispatch (init_syscalls (λ n. none)) t ≡ some open_call) × (t.rax < number sys_count)
dispatch-trap_example = dispatch-trap write_call 1 4096 5

abbrev system : Sys
system = record {
  ready_threads = [];
  running_thread = 1;
  idle_thread = 9;
  initial_thread = 1;
  next_tid = 5;
  threads_init = true;
  id = λ t. t;
  priority = λ _. 31;
  donors = λ _. [];
  status = λ _. running;
  freed = λ _. false;
  intr_level = enabled;
  sema_value = λ _. 0;
  waiters = λ _. [];
  holder = λ _. none;
  cond_waiters = λ _. [];
}

-- The process at 50000 that the parent at 1000 makes.
lock_init-unguarded_example :
    let map = (new_child (blocks 50000) 1000 (family 1000 0)).semtable_map 50000 in
    (lock_init map ≡ (held_by nobody, map))
    × (lock_acquire map 8000 3 [] (lock_init map).0 system ≡ some (held_by 3, system))
    × (lock_acquire map 8000 4 [] (held_by 3) system ≡ some (held_by 4, system))
    × (lock_release map 8000 (held_by 3) system ≡ (held_by nobody, system))
lock_init-unguarded_example =
    lock_init-unguarded (blocks 50000) 1000 (family 1000 0) 8000 3 4 [] [] system
