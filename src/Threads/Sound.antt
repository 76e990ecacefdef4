-- ===== src/Threads/Sound.antt =====
-- That no thread is queued twice: what it means, and that the operations by which a thread gives way
-- keep it.
use mathlib.Core.List.{append-nil}
use mathlib.Core.Path.{subst}
use dunkos.Common.{ℕ, ◌≡◌, refl, sym, ap, ◌∙◌, arith, ==-refl, Bool-cases, inl, inr}
use dunkos.Common.{false, List, [], ◌∷◌, ◌++◌, ◌==◌, ◌||◌, ◌&&◌, update}
use dunkos.Common.{◌∈◌, ◌∉◌, has, Distinct, Distinct-insert, has-append, ne-of-mem}
use dunkos.Threads.Defs.{Sys, is_blocked, blocked, next_thread, schedule_next, yield_current}
use dunkos.Threads.Defs.{disable_interrupts, set_interrupt_level, disabled, dead}
use dunkos.Threads.Defs.{block_current, exit_thread}
use dunkos.Threads.Sync.{wait_round}
use dunkos.Threads.Schedule.{queue}

-- The threads that wait stand once among the waiters, and are none of `xs` and not the idle thread.
pub record IsWaiting (waiters : ℕ → List ℕ) (idle : ℕ) (xs : List ℕ) : Type 0 where
  pub once : (k : ℕ) → Distinct (waiters k)
  pub outside : (k t : ℕ) → t ∈ waiters k → t ∉ xs
  pub not_idle : (k : ℕ) → idle ∉ waiters k
  pub apart : (j k t : ℕ) → (j == k) ≡ false → t ∈ waiters j → t ∉ waiters k

-- Every thread runs, is ready or waits in one place at most.
pub record IsSound (s : Sys) : Type 0 where
  pub distinct : Distinct (queue s)
  pub waiting : IsWaiting s.waiters s.idle_thread (queue s)

-- The state in which the scheduler takes the next thread.
record IsPrepared (s : Sys) : Type 0 where
  distinct : Distinct s.ready_threads
  waiting : IsWaiting s.waiters s.idle_thread s.ready_threads

not_there : (t : ℕ) (xs : List ℕ) (a : ℕ) → a ∉ xs → t ∈ xs → t ∉ (a ∷ [])
not_there t xs a out h = ground (arith, ne-of-mem a t xs out h)

schedule_next-IsSound : (s : Sys) → IsPrepared s → IsSound (schedule_next s)
unfolding schedule_next next_thread
schedule_next-IsSound s p = go s.ready_threads refl
  where
    go : (ready : List ℕ) → s.ready_threads ≡ ready → IsSound (schedule_next s)
    go [] e = rw e (record {
      distinct = ground arith;
      waiting = record {
        once = p.waiting.once;
        outside = λ k t h. not_there t (s.waiters k) s.idle_thread (p.waiting.not_idle k) h;
        not_idle = p.waiting.not_idle;
        apart = p.waiting.apart;
      };
    })
    go (t ∷ rest) e = rw e (record {
      distinct = subst Distinct e p.distinct;
      waiting = subst (IsWaiting s.waiters s.idle_thread) e p.waiting;
    })

-- A list of waiters without its first, and with one more at its end.
pub IsWaiting-widen :
    (waiters : ℕ → List ℕ) (idle t : ℕ) (xs : List ℕ)
    → IsWaiting waiters idle xs
    → ((k : ℕ) → t ∉ waiters k)
    → IsWaiting waiters idle (xs ++ (t ∷ []))
IsWaiting-widen waiters idle t xs w out = record {
  once = w.once;
  outside = λ k q h.
      ground
        (arith, has-append q xs (t ∷ []), w.outside k q h, not_there q (waiters k) t (out k) h);
  not_idle = w.not_idle;
  apart = w.apart;
}

IsWaiting-narrow :
    (waiters : ℕ → List ℕ) (idle t : ℕ) (xs : List ℕ)
    → IsWaiting waiters idle (t ∷ xs)
    → IsWaiting waiters idle xs
IsWaiting-narrow waiters idle t xs w = record {
  once = w.once;
  outside = λ k q h. ground (arith, w.outside k q h);
  not_idle = w.not_idle;
  apart = w.apart;
}

pub snoc-Distinct : (t : ℕ) (xs : List ℕ) → Distinct xs → t ∉ xs → Distinct (xs ++ (t ∷ []))
snoc-Distinct t xs d out =
    Distinct-insert t xs [] (subst Distinct (sym (append-nil xs)) d)
      (subst (λ ys. t ∉ ys) (sym (append-nil xs)) out)

running_out : (s : Sys) → IsSound s → (k : ℕ) → s.running_thread ∉ s.waiters k
running_out s i k = elim (Bool-cases (has s.running_thread (s.waiters k))) [
  | inl e ↦
      absurd (ground (arith, i.waiting.outside k s.running_thread e, ==-refl s.running_thread))
  | inr e ↦ e
]

-- Yielding, whatever the running thread's status is.
pub yield_current-IsSound : (s : Sys) → IsSound s → IsSound (yield_current s)
unfolding yield_current
yield_current-IsSound s i = elim (Bool-cases (is_blocked (s.status s.running_thread))) [
  | inl e ↦
      rw (e, yield_current)
        (schedule_next-IsSound s (record {
          distinct = i.distinct.1;
          waiting =
              IsWaiting-narrow s.waiters s.idle_thread s.running_thread s.ready_threads i.waiting;
        }))
  | inr e ↦
      let s' : Sys = record s { ready_threads = s.ready_threads ++ (s.running_thread ∷ []) } in
      rw (e, yield_current)
        (schedule_next-IsSound s' (record {
          distinct = snoc-Distinct s.running_thread s.ready_threads i.distinct.1 i.distinct.0;
          waiting =
              IsWaiting-widen s.waiters s.idle_thread s.running_thread s.ready_threads
                (IsWaiting-narrow s.waiters s.idle_thread s.running_thread s.ready_threads
                  i.waiting)
                (running_out s i);
        }))
]

pub exit_thread-IsSound : (s : Sys) → IsSound s → IsSound (exit_thread s)
unfolding exit_thread disable_interrupts set_interrupt_level
exit_thread-IsSound s i =
    schedule_next-IsSound
      (record s { intr_level = disabled; status = update s.status s.running_thread dead })
      (record {
        distinct = i.distinct.1;
        waiting =
            IsWaiting-narrow s.waiters s.idle_thread s.running_thread s.ready_threads i.waiting;
      })

-- Fewer waiters.
pub IsWaiting-sub :
    (waiters fewer : ℕ → List ℕ) (idle : ℕ) (xs : List ℕ)
    → ((k t : ℕ) → t ∈ fewer k → t ∈ waiters k)
    → ((k : ℕ) → Distinct (fewer k))
    → IsWaiting waiters idle xs
    → IsWaiting fewer idle xs
IsWaiting-sub waiters fewer idle xs sub once w = record {
  once = once;
  outside = λ k t h. w.outside k t (sub k t h);
  not_idle = λ k. absent k idle (w.not_idle k);
  apart = λ j k t ne h. absent k t (w.apart j k t ne (sub j t h));
}
  where
    absent : (k t : ℕ) → t ∉ waiters k → t ∉ fewer k
    absent k t out = elim (Bool-cases (has t (fewer k))) [
      | inl e ↦ absurd (ground (arith, sub k t e))
      | inr e ↦ e
    ]

-- A waiter more, at the end of one list.
module _ (waiters : ℕ → List ℕ) (idle r k : ℕ) (xs : List ℕ) (w : IsWaiting waiters idle xs)
    (not_idle : (idle == r) ≡ false) (none : (j : ℕ) → r ∉ waiters j) (out : r ∉ xs) where
  more : ℕ → List ℕ
  more = update waiters k (waiters k ++ (r ∷ []))

  has-more : (j t : ℕ) → has t (more j) ≡ (has t (waiters j) || ((j == k) && (t == r)))
  unfolding more
  has-more j t = elim (Bool-cases (j == k)) [
    | inl e ↦
        let e' : j ≡ k = ground arith in
        rw e (ground (arith, has-append t (waiters k) (r ∷ []), ap (λ n. has t (waiters n)) e'))
    | inr e ↦ rw e (ground arith)
  ]

  more-once : (j : ℕ) → Distinct (more j)
  unfolding more
  more-once j = elim (Bool-cases (j == k)) [
    | inl e ↦ rw e (snoc-Distinct r (waiters k) (w.once k) (none k))
    | inr e ↦ rw e (w.once j)
  ]

  more-apart : (i j t : ℕ) → (i == j) ≡ false → t ∈ more i → t ∉ more j
  more-apart i j t ne h = elim (Bool-cases (t == r)) [
    | inl e ↦
        let e' : t ≡ r = ground arith in
        let nowhere : (n : ℕ) → t ∉ waiters n = λ n. ap (λ q. has q (waiters n)) e' ∙ none n in
        ground (arith, has-more i t, has-more j t, nowhere i, nowhere j)
    | inr e ↦ ground (arith, has-more i t, has-more j t, w.apart i j t ne)
  ]

  IsWaiting-more : IsWaiting more idle xs
  IsWaiting-more = record {
    once = more-once;
    outside = λ j t h. elim (Bool-cases (t == r)) [
      | inl e ↦ let e' : t ≡ r = ground arith in ap (λ q. has q xs) e' ∙ out
      | inr e ↦ w.outside j t (ground (arith, has-more j t))
    ];
    not_idle = λ j. ground (arith, has-more j idle, w.not_idle j);
    apart = more-apart;
  }

-- The running thread queues up at a semaphore and is blocked.
pub wait_round-IsSound :
    (k : ℕ) (s : Sys)
    → (s.idle_thread == s.running_thread) ≡ false
    → IsSound s
    → IsSound (wait_round k s)
unfolding wait_round block_current yield_current disable_interrupts set_interrupt_level more
wait_round-IsSound k s ne i =
    let r = s.running_thread in
    let waiters' = update s.waiters k (s.waiters k ++ (r ∷ [])) in
    let s' : Sys = record s {
      intr_level = disabled;
      status = update s.status r blocked;
      waiters = waiters';
    } in
    rw (==-refl r, yield_current)
      (schedule_next-IsSound s' (record {
        distinct = i.distinct.1;
        waiting =
            IsWaiting-more s.waiters s.idle_thread r k s.ready_threads
              (IsWaiting-narrow s.waiters s.idle_thread r s.ready_threads i.waiting) ne
              (running_out s i) i.distinct.0;
      }))
