-- ===== src/Threads/Sync.antt =====
-- Semaphores, locks and condition variables of thread.c. An operation that waits is cut where the
-- current thread is switched away from: what follows runs when the thread is scheduled again.
use dunkos.Common.{ℕ, zero, suc, ◌+◌, ◌-◌, ◌%◌, true, false, Option, none, some}
use dunkos.Common.{List, [], ◌∷◌, ◌++◌, ◌==◌, update, word_limit}
use dunkos.Threads.Defs.{Sys, InterruptLevel, set_interrupt_level, disable_interrupts}
use dunkos.Threads.Defs.{thread_unblock, block_current, semaphore_init}

-- The waiter in front, if any, is taken off the semaphore's queue and unblocked.
unfoldable pub wake_first : ℕ → Sys → Sys
wake_first sema s = elim (s.waiters sema) [
  | [] ↦ s
  | t ∷ rest ↦ thread_unblock t (record s { waiters = update s.waiters sema rest })
]

unfoldable pub semaphore_inc : ℕ → Sys → Sys
unfolding wake_first set_interrupt_level disable_interrupts
semaphore_inc sema s =
    let (old_level, s₁) = disable_interrupts s in
    let s₂ = record s₁ {
      sema_value = update s₁.sema_value sema ((s₁.sema_value sema + 1) % word_limit);
    } in
    (set_interrupt_level old_level (wake_first sema s₂)).1

-- The body of the `while` loop: the thread queues up and blocks.
unfoldable pub wait_round : ℕ → Sys → Sys
unfolding block_current
wait_round sema s =
    block_current
      (record s { waiters = update s.waiters sema (s.waiters sema ++ (s.running_thread ∷ [])) })

-- The loop and what follows it, for the local `value` and `old_level`. Each element of `others` is
-- what the other threads do between the switch away from this thread and its return. The result is
-- `none` while the thread still waits.
unfoldable pub dec_loop : ℕ → ℕ → InterruptLevel → List (Sys → Sys) → Sys → Option Sys
unfolding wait_round set_interrupt_level
dec_loop sema value old_level [] s = elim (value == 0) [
  | true ↦ none
  | false ↦
      some
        (set_interrupt_level old_level
          (record s { sema_value = update s.sema_value sema (value - 1) })).1
]
dec_loop sema value old_level (env ∷ others) s = elim (value == 0) [
  | true ↦ dec_loop sema value old_level others (env (wait_round sema s))
  | false ↦
      some
        (set_interrupt_level old_level
          (record s { sema_value = update s.sema_value sema (value - 1) })).1
]

unfoldable pub semaphore_dec : ℕ → List (Sys → Sys) → Sys → Option Sys
unfolding dec_loop disable_interrupts
semaphore_dec sema others s =
    let (old_level, s') = disable_interrupts s in
    dec_loop sema (s'.sema_value sema) old_level others s'

-- A lock is named by its semaphore `binary`.
unfoldable pub lock_init : ℕ → Sys → Sys
unfolding semaphore_init
lock_init l s = record (semaphore_init l 1 s) { holder = update s.holder l none }

unfoldable pub lock_acquire : ℕ → List (Sys → Sys) → Sys → Option Sys
lock_acquire l others s = elim (semaphore_dec l others s) [
  | none ↦ none
  | some s' ↦ some (record s' { holder = update s'.holder l (some s'.running_thread) })
]

unfoldable pub lock_release : ℕ → Sys → Sys
unfolding semaphore_inc
lock_release l s = semaphore_inc l (record s { holder = update s.holder l none })

unfoldable pub condvar_init : ℕ → Sys → Sys
condvar_init c s = record s { cond_waiters = update s.cond_waiters c [] }

-- `condvar_wait` up to the switch; the lock is acquired again when the thread returns.
unfoldable pub condvar_wait : ℕ → ℕ → Sys → Sys
unfolding lock_release block_current
condvar_wait c l s =
    let s' = lock_release l s in
    block_current (record s' {
      cond_waiters = update s'.cond_waiters c (s'.cond_waiters c ++ (s'.running_thread ∷ []));
    })

-- `list_push_back(&ready_threads, list_pop_front(&c->waiters))`; with no waiter that is `NULL`, 0.
unfoldable pub move_waiter : ℕ → Sys → Sys
move_waiter c s = elim (s.cond_waiters c) [
  | [] ↦ record s { ready_threads = s.ready_threads ++ (0 ∷ []) }
  | t ∷ rest ↦ record s {
    cond_waiters = update s.cond_waiters c rest;
    ready_threads = s.ready_threads ++ (t ∷ []);
  }
]

unfoldable pub condvar_signal_one : ℕ → ℕ → List (Sys → Sys) → Sys → Option Sys
unfolding lock_release lock_acquire move_waiter
condvar_signal_one c l others s = lock_acquire l others (move_waiter c (lock_release l s))

-- `while (!list_empty(&c->waiters)) condvar_signal_one(c, l);` on fuel
unfoldable pub condvar_signal_all : ℕ → ℕ → ℕ → Sys → Option Sys
unfolding condvar_signal_one
condvar_signal_all zero c l s = none
condvar_signal_all (suc fuel) c l s = elim (s.cond_waiters c) [
  | [] ↦ some s
  | t ∷ rest ↦ elim (condvar_signal_one c l [] s) [
    | none ↦ none
    | some s' ↦ condvar_signal_all fuel c l s'
  ]
]
