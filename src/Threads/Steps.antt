-- ===== src/Threads/Steps.antt =====
-- The steps of the scheduler as a relation, and that no thread is queued twice in what it reaches.
use dunkos.Common.{ℕ, ◌≡◌, refl, arith, ==-refl, Bool-cases, inl, inr}
use dunkos.Common.{false, List, [], ◌∷◌, ◌==◌, update}
use dunkos.Common.{◌∉◌}
use dunkos.Threads.Defs.{Sys, yield_current}
use dunkos.Threads.Defs.{disable_interrupts, set_interrupt_level}
use dunkos.Threads.Defs.{
  create_thread, calloc_thread, thread_init, assign_id, semaphore_init, init_threads,
}
use dunkos.Threads.Defs.{thread_unblock, exit_thread}
use dunkos.Threads.Sync.{semaphore_inc, wait_round}
use dunkos.Threads.Schedule.{queue}
use dunkos.Threads.Sound.{
  IsWaiting, IsSound, yield_current-IsSound, exit_thread-IsSound, wait_round-IsSound,
}
use dunkos.Threads.Wake.{semaphore_inc-IsSound, create_thread-IsSound}

-- What a thread can do to the scheduler: yield, raise a semaphore, wait at one, unless it is the idle
-- thread, make a thread, and end.
pub data Step : Sys → Sys → Type 0 where
  gives_way : (s : Sys) → Step s (yield_current s)
  raises : (k : ℕ) (s : Sys) → Step s (semaphore_inc k s)
  waits : (k : ℕ) (s : Sys) → (s.idle_thread == s.running_thread) ≡ false → Step s (wait_round k s)
  makes :
      (sleep_sema : ℕ → ℕ) (t : ℕ) (s : Sys)
      → t ∉ queue s
      → ((k : ℕ) → t ∉ s.waiters k)
      → (t == s.idle_thread) ≡ false
      → Step s (create_thread sleep_sema (λ p u. u) t s)
  ends : (s : Sys) → Step s (exit_thread s)

pub data Reaches : Sys → Sys → Type 0 where
  stays : (s : Sys) → Reaches s s
  goes_on : {s t u : Sys} → Step s t → Reaches t u → Reaches s u

Step-IsSound : {s t : Sys} → Step s t → IsSound s → IsSound t
Step-IsSound (gives_way s) i = yield_current-IsSound s i
Step-IsSound (raises k s) i = semaphore_inc-IsSound k s i
Step-IsSound (waits k s ne) i = wait_round-IsSound k s ne i
Step-IsSound (makes sleep_sema t s out none ne) i =
    create_thread-IsSound sleep_sema t s out none ne i
Step-IsSound (ends s) i = exit_thread-IsSound s i

Reaches-IsSound : {s u : Sys} → Reaches s u → IsSound s → IsSound u
Reaches-IsSound (stays s) i = i
Reaches-IsSound (goes_on one more) i = Reaches-IsSound more (Step-IsSound one i)

update_none :
    (waiters : ℕ → List ℕ) (a : ℕ)
    → ((k : ℕ) → waiters k ≡ [])
    → (k : ℕ) → update waiters a [] k ≡ []
update_none waiters a none k = elim (Bool-cases (k == a)) [
  | inl e ↦ rw e refl
  | inr e ↦ rw e (none k)
]

IsWaiting-none :
    (waiters : ℕ → List ℕ) (idle : ℕ) (xs : List ℕ)
    → ((k : ℕ) → waiters k ≡ [])
    → IsWaiting waiters idle xs
IsWaiting-none waiters idle xs none = record {
  once = λ k. rw (none k) tt;
  outside = λ k t h. absurd (ground (arith, rw (none k) at h));
  not_idle = λ k. rw (none k) refl;
  apart = λ j k t ne h. rw (none k) refl;
}

init_threads-IsSound :
    (sleep_sema : ℕ → ℕ) (initial idle : ℕ) (s : Sys)
    → ((k : ℕ) → s.waiters k ≡ [])
    → IsSound (init_threads sleep_sema initial idle s)
unfolding init_threads create_thread thread_unblock calloc_thread thread_init assign_id
    semaphore_init disable_interrupts set_interrupt_level
init_threads-IsSound sleep_sema initial idle s none =
    let none' : (k : ℕ)
        → update (update s.waiters (sleep_sema initial) []) (sleep_sema idle) [] k ≡ [] =
      update_none (update s.waiters (sleep_sema initial) []) (sleep_sema idle)
        (update_none s.waiters (sleep_sema initial) none) in
    rw (==-refl idle)
      (record { distinct = (refl, tt); waiting = IsWaiting-none _ idle (initial ∷ []) none' })

-- In every state that is reached from the one that init_threads leaves, by yields, raised
-- semaphores, waits, new threads and ends of threads, each thread runs, is ready or waits at one
-- semaphore, in one place at most, and the idle thread does not wait. (No thread waits before
-- init_threads, the idle thread never waits, and a new thread is none of those that are queued.)
pub boot-IsSound :
    (sleep_sema : ℕ → ℕ) (initial idle : ℕ) (s : Sys) {u : Sys}
    → ((k : ℕ) → s.waiters k ≡ [])
    → Reaches (init_threads sleep_sema initial idle s) u
    → IsSound u
boot-IsSound sleep_sema initial idle s none steps =
    Reaches-IsSound steps (init_threads-IsSound sleep_sema initial idle s none)
