-- ===== src/Threads/Semaphore.antt =====
-- What the semaphores, locks and condition variables of thread.c do.
use dunkos.Common.{ℕ, ◌+◌, ◌-◌, ◌%◌, ◌<◌, ◌≡◌, refl, ◌≢◌, ◌∙◌, arith, ==-refl}
use dunkos.Common.{false, none, some, List, [], ◌∷◌, ◌++◌, ◌==◌}
use dunkos.Common.{update, word_limit}
use dunkos.Threads.Defs.{Sys, ready, InterruptLevel, thread_unblock}
use dunkos.Threads.Sync.{semaphore_inc, semaphore_dec, dec_loop, wait_round, lock_acquire}
use dunkos.Threads.Sync.{lock_release}

-- With a positive value semaphore_dec takes one off it at once, waits for nothing, and puts the
-- interrupt level back.
pub dec_positive :
    (sema : ℕ) (others : List (Sys → Sys)) (s : Sys)
    → 0 < s.sema_value sema
    → semaphore_dec sema others s
      ≡ some (record s { sema_value = update s.sema_value sema (s.sema_value sema - 1) })
unfolding semaphore_dec
dec_positive sema others s h = go others
  where
    positive : (s.sema_value sema == 0) ≡ false
    positive = ground arith

    go :
        (os : List (Sys → Sys))
        → semaphore_dec sema os s
          ≡ some (record s { sema_value = update s.sema_value sema (s.sema_value sema - 1) })
    go [] = rw (positive, dec_loop)
    go (o ∷ os) = rw (positive, dec_loop)

dec_loop_stuck :
    (sema : ℕ) (level : InterruptLevel) (others : List (Sys → Sys)) (s : Sys)
    → dec_loop sema 0 level others s ≡ none
unfolding dec_loop
dec_loop_stuck sema level [] s = refl
dec_loop_stuck sema level (env ∷ others) s =
    dec_loop_stuck sema level others (env (wait_round sema s))

-- A thread that calls semaphore_dec while the value is 0 never gets past it, whatever the other
-- threads do while it waits and however often it is scheduled again: the loop tests the value that
-- was read before it.
pub dec_zero :
    (sema : ℕ) (others : List (Sys → Sys)) (s : Sys)
    → s.sema_value sema ≡ 0
    → semaphore_dec sema others s ≡ none
unfolding semaphore_dec
dec_zero sema others s e = rw e (dec_loop_stuck sema s.intr_level others _)

-- If threads wait and the first is not the idle thread, semaphore_inc adds one to the value; the
-- first leaves the waiters and becomes ready at the end of the ready queue. The interrupt level is
-- put back.
pub inc_lem :
    (sema t : ℕ) (rest : List ℕ) (s : Sys)
    → s.waiters sema ≡ t ∷ rest
    → t ≢ s.idle_thread
    → let s' = semaphore_inc sema s in
      (s'.sema_value sema ≡ (s.sema_value sema + 1) % word_limit)
      × (s'.waiters sema ≡ rest)
      × (s'.ready_threads ≡ s.ready_threads ++ (t ∷ []))
      × (s'.status t ≡ ready)
      × (s'.intr_level ≡ s.intr_level)
unfolding semaphore_inc thread_unblock
inc_lem sema t rest s e ne =
    let other : (t == s.idle_thread) ≡ false = ground arith in
    rw (e, other, ==-refl sema, ==-refl t) (refl, refl, refl, refl, refl)

-- The state after a lock with a positive value has been acquired.
abbrev held : ℕ → Sys → Sys
held l s = record s {
  sema_value = update s.sema_value l (s.sema_value l - 1);
  holder = update s.holder l (some s.running_thread);
}

acquire_free :
    (l : ℕ) (others : List (Sys → Sys)) (s : Sys)
    → 0 < s.sema_value l
    → lock_acquire l others s ≡ some (held l s)
unfolding lock_acquire
acquire_free l others s h = rw (dec_positive l others s h, lock_acquire)

acquire_held :
    (l : ℕ) (others : List (Sys → Sys)) (s : Sys)
    → s.sema_value l ≡ 0
    → lock_acquire l others s ≡ none
unfolding lock_acquire
acquire_held l others s h = rw (dec_zero l others s h, lock_acquire)

release_alone :
    (l : ℕ) (s : Sys)
    → s.waiters l ≡ []
    → let s' = lock_release l s in
      (s'.holder l ≡ none) × (s'.sema_value l ≡ (s.sema_value l + 1) % word_limit)
unfolding lock_release
release_alone l s e = rw (e, ==-refl l) (refl, refl)

-- A lock of value 1 is acquired at once and then held by the running thread; nobody who asks for it
-- meanwhile ever gets it, whatever the others do; and released with no waiters it is free again.
pub lock_cycle :
    (l : ℕ) (others : List (Sys → Sys)) (s : Sys)
    → s.sema_value l ≡ 1
    → s.waiters l ≡ []
    → (s' : Sys) × (lock_acquire l others s ≡ some s')
      × (s'.holder l ≡ some s.running_thread)
      × (lock_acquire l others s' ≡ none)
      × ((lock_release l s').holder l ≡ none)
      × ((lock_release l s').sema_value l ≡ 1)
lock_cycle l others s one alone =
    let taken : (held l s).sema_value l ≡ 0 = rw (==-refl l) (omega (arith, one)) in
    let (free, value) = release_alone l (held l s) alone in
    (
      held l s,
      acquire_free l others s (omega (arith, one)),
      rw (==-refl l),
      acquire_held l others (held l s) taken,
      free,
      value ∙ omega (arith, taken),
    )
