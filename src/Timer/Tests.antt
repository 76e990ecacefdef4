-- ===== src/Timer/Tests.antt =====
-- The timer theorems with two sleepers, one of which is due.
use dunkos.Common.{◌+◌, ◌-◌, ◌≡◌, refl, arith, true, false, none, some, [], ◌∷◌}
use dunkos.Common.{◌==◌, if◌then◌else◌}
use dunkos.Threads.{blocked, enabled}
use dunkos.Timer.Defs.{Timer, timer_interrupt}
use dunkos.Timer.Interrupt.{left_by, interrupt-wakes}
use mathlib.Core.Option

abbrev sleepers : Timer
sleepers = record {
  ticks = 9;
  thread_ticks = 3;
  sleep_queue = 20 ∷ 30 ∷ [];
  sleep_end = λ t. t - 10;
  sys = record {
    ready_threads = [];
    running_thread = 1;
    idle_thread = 2;
    initial_thread = 1;
    next_tid = 5;
    threads_init = true;
    id = λ t. t;
    priority = λ _. 31;
    donors = λ _. [];
    status = λ _. blocked;
    freed = λ _. false;
    intr_level = enabled;
    sema_value = λ _. 0;
    waiters = λ p. if p == 120 then 20 ∷ [] else [];
    holder = λ _. none;
    cond_waiters = λ _. [];
  };
}

interrupt-wakes_example :
    Option.map (left_by (λ t. t + 100) 20) (timer_interrupt (λ t. t + 100) sleepers)
    ≡ some (10, 20 ∷ 30 ∷ [], 1)
interrupt-wakes_example =
    interrupt-wakes (λ t. t + 100) 20 sleepers (λ t ne. ground arith) (refl, (refl, tt))
