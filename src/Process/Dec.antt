-- ===== src/Process/Dec.antt =====
-- The wait on a semaphore while the others may change any process.
use dunkos.Common.{ℕ, ◌+◌, ◌-◌, ◌%◌, ◌<◌, word_limit, ◌≡◌, refl, arith, false, none, some}
use dunkos.Common.{List, [], ◌∷◌, ◌==◌, update, Bool-cases, inl, inr}
use dunkos.Threads.{Sys, InterruptLevel, semaphore_inc, semaphore_dec, dec_loop}
use dunkos.Threads.{disable_interrupts, wait_round, wake_first, thread_unblock, disabled}
use dunkos.Threads.Semaphore.{dec_positive}
use dunkos.Process.Life.{Processes}
use dunkos.Process.Leave.{process_dec, process_dec_loop, lift_option}

-- The state after a semaphore's value has gone down by one.
abbrev pub taken : ℕ → Sys → Sys
taken sema y = record y { sema_value = update y.sema_value sema (y.sema_value sema - 1) }

-- A wait on a semaphore of positive value takes one off it at once.
pub process_dec_positive :
    (sema : ℕ) (others : List (Processes → Processes)) (s : Processes)
    → 0 < s.sys.sema_value sema
    → process_dec sema others s ≡ some (record s { sys = taken sema s.sys })
unfolding process_dec process_dec_loop semaphore_dec
process_dec_positive sema others s h = go others
  where
    positive : (s.sys.sema_value sema == 0) ≡ false
    positive = ground arith

    plain :
        lift_option (semaphore_dec sema [] s.sys) (record s { sys = (disable_interrupts s.sys).1 })
        ≡ some (record s { sys = taken sema s.sys })
    plain = rw (dec_positive sema [] s.sys h) refl

    go :
        (os : List (Processes → Processes))
        → process_dec sema os s ≡ some (record s { sys = taken sema s.sys })
    go [] = plain
    go (o ∷ os) = rw (positive, process_dec_loop) plain

process_dec_stuck :
    (sema : ℕ) (level : InterruptLevel) (others : List (Processes → Processes)) (s : Processes)
    → process_dec_loop sema 0 level others s ≡ none
unfolding process_dec_loop dec_loop
process_dec_stuck sema level [] s = refl
process_dec_stuck sema level (env ∷ others) s =
    process_dec_stuck sema level others (env (record s { sys = wait_round sema s.sys }))

-- A wait that finds the value 0 never ends, whatever the others do.
pub process_dec_zero :
    (sema : ℕ) (others : List (Processes → Processes)) (s : Processes)
    → s.sys.sema_value sema ≡ 0
    → process_dec sema others s ≡ none
unfolding process_dec
process_dec_zero sema others s e = rw e (
    process_dec_stuck sema s.sys.intr_level others
      (record s { sys = (disable_interrupts s.sys).1 }))

-- Waking a thread leaves the numbers of the threads, the running thread and the values.
wake_first_keeps :
    (sema : ℕ) (y : Sys)
    → let y' = wake_first sema y in
      (y'.id ≡ y.id) × (y'.running_thread ≡ y.running_thread) × (y'.sema_value ≡ y.sema_value)
unfolding wake_first thread_unblock
wake_first_keeps sema y = go (y.waiters sema) refl
  where
    go :
        (ws : List ℕ)
        → y.waiters sema ≡ ws
        → let y' = wake_first sema y in
          (y'.id ≡ y.id) × (y'.running_thread ≡ y.running_thread) × (y'.sema_value ≡ y.sema_value)
    go [] e = rw (e, wake_first) (refl, refl, refl)
    go (t ∷ rest) e = elim (Bool-cases (t == y.idle_thread)) [
      | inl i ↦ rw (e, i, wake_first, thread_unblock) (refl, refl, refl)
      | inr i ↦ rw (e, i, wake_first, thread_unblock) (refl, refl, refl)
    ]

-- semaphore_inc adds one to its value, and leaves the other values, the numbers of the threads and
-- the running thread.
pub semaphore_inc_keeps :
    (sema : ℕ) (y : Sys)
    → let y' = semaphore_inc sema y in
      (y'.id ≡ y.id)
      × (y'.running_thread ≡ y.running_thread)
      × (y'.sema_value ≡ update y.sema_value sema ((y.sema_value sema + 1) % word_limit))
unfolding semaphore_inc
semaphore_inc_keeps sema y = wake_first_keeps sema (record y {
  intr_level = disabled;
  sema_value = update y.sema_value sema ((y.sema_value sema + 1) % word_limit);
})
