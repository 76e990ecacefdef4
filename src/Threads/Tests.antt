-- ===== src/Threads/Tests.antt =====
-- The thread theorems on a system with thread 1 running and threads 2 and 3 ready.
use dunkos.Common.{◌+◌, ◌≡◌, refl, true, false, none, [], ◌∷◌}
use dunkos.Common.{◌==◌, if◌then◌else◌}
use dunkos.Threads.Defs.{Sys, blocked, ready, enabled, init_threads, yield_current}
use dunkos.Threads.Sound.{IsSound}
use dunkos.Threads.Steps.{gives_way, raises, stays, goes_on, boot-IsSound}
use dunkos.Threads.Sync.{semaphore_inc}
use dunkos.Threads.Schedule.{queue, yields, yields-rotate}

-- Semaphore 50 has the value 1, semaphore 60 the value 0 and thread 4 waiting.
abbrev system : Sys
system = record {
  ready_threads = 2 ∷ 3 ∷ [];
  running_thread = 1;
  idle_thread = 9;
  initial_thread = 1;
  next_tid = 5;
  threads_init = true;
  id = λ t. t;
  priority = λ _. 31;
  donors = λ _. [];
  status = λ t. if t == 4 then blocked else ready;
  freed = λ _. false;
  intr_level = enabled;
  sema_value = λ p. if p == 50 then 1 else 0;
  waiters = λ p. if p == 60 then 4 ∷ [] else [];
  holder = λ _. none;
  cond_waiters = λ _. [];
}

yields-rotate_example :
    (queue (yields 2 system) ≡ 3 ∷ 1 ∷ 2 ∷ []) × ((yields 2 system).status ≡ system.status)
yields-rotate_example = yields-rotate (1 ∷ 2 ∷ []) [] 3 system refl (refl, (refl, (refl, tt)))

-- After the start the initial thread yields, and a semaphore is raised.
boot-IsSound_example :
    let s = init_threads (λ t. t + 16) 1 9 (record system { waiters = λ k. [] }) in
    IsSound (semaphore_inc 50 (yield_current s))
boot-IsSound_example =
    boot-IsSound (λ t. t + 16) 1 9 (record system { waiters = λ k. [] }) (λ k. refl)
      (goes_on (gives_way _) (goes_on (raises 50 _) (stays _)))
