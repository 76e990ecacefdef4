-- ===== src/Threads/Wake.antt =====
-- That making threads ready keeps every thread in one place.
use mathlib.Core.Path.{subst}
use dunkos.Common.{ℕ, ◌+◌, ◌%◌, ◌≡◌, refl, ap, ◌∙◌, arith, ==-refl, Bool-cases, inl, inr}
use dunkos.Common.{false, List, [], ◌∷◌, ◌==◌, update, word_limit}
use dunkos.Common.{◌∈◌, ◌∉◌, has, Distinct}
use dunkos.Threads.Defs.{Sys}
use dunkos.Threads.Defs.{disable_interrupts, set_interrupt_level, disabled}
use dunkos.Threads.Defs.{create_thread, calloc_thread, thread_init, assign_id, semaphore_init}
use dunkos.Threads.Defs.{thread_unblock}
use dunkos.Threads.Sync.{semaphore_inc, wake_first}
use dunkos.Threads.Schedule.{queue}
use dunkos.Threads.Sound.{IsSound, IsWaiting-widen, snoc-Distinct, IsWaiting-sub}

-- A thread that is nowhere is made ready.
thread_unblock-IsSound :
    (t : ℕ) (s : Sys)
    → t ∉ queue s
    → ((k : ℕ) → t ∉ s.waiters k)
    → (t == s.idle_thread) ≡ false
    → IsSound s
    → IsSound (thread_unblock t s)
unfolding thread_unblock disable_interrupts set_interrupt_level
thread_unblock-IsSound t s out none ne i =
    rw (ne, thread_unblock)
      (record {
        distinct = snoc-Distinct t (queue s) i.distinct out;
        waiting = IsWaiting-widen s.waiters s.idle_thread t (queue s) i.waiting none;
      })

-- What is left of the waiters when the first one of a semaphore is taken off.
module _ (s : Sys) (i : IsSound s) (k t : ℕ) (rest : List ℕ) (e : s.waiters k ≡ t ∷ rest) where
  fewer : ℕ → List ℕ
  fewer = update s.waiters k rest

  first_waits : t ∈ s.waiters k
  first_waits = rw e (ground (arith, ==-refl t))

  fewer-sub : (j q : ℕ) → q ∈ fewer j → q ∈ s.waiters j
  unfolding fewer
  fewer-sub j q h = elim (Bool-cases (j == k)) [
    | inl same ↦
        let at : j ≡ k = ground arith in
        let rests : q ∈ rest = rw same at h in
        ap (λ n. has q (s.waiters n)) at ∙ ap (has q) e ∙ ground (arith, rests)
    | inr other ↦ rw other at h
  ]

  fewer-once : (j : ℕ) → Distinct (fewer j)
  unfolding fewer
  fewer-once j = elim (Bool-cases (j == k)) [
    | inl same ↦ rw same (subst Distinct e (i.waiting.once k)).1
    | inr other ↦ rw other (i.waiting.once j)
  ]

  fewer-none : (j : ℕ) → t ∉ fewer j
  unfolding fewer
  fewer-none j = elim (Bool-cases (j == k)) [
    | inl same ↦ rw same (subst Distinct e (i.waiting.once k)).0
    | inr other ↦ rw other (i.waiting.apart k j t (ground arith) first_waits)
  ]

  woken-not_idle : (t == s.idle_thread) ≡ false
  woken-not_idle =
      let out : s.idle_thread ∉ (t ∷ rest) =
        subst (λ ws. s.idle_thread ∉ ws) e (i.waiting.not_idle k) in
      ground (arith, out)

  woken-IsSound : IsSound (wake_first k s)
  unfolding wake_first fewer
  woken-IsSound =
      let s' : Sys = record s { waiters = fewer } in
      rw (e, wake_first)
        (thread_unblock-IsSound t s' (i.waiting.outside k t first_waits) fewer-none woken-not_idle
          (record {
            distinct = i.distinct;
            waiting =
                IsWaiting-sub s.waiters fewer s.idle_thread (queue s) fewer-sub fewer-once
                  i.waiting;
          }))

wake_first-IsSound : (k : ℕ) (s : Sys) → IsSound s → IsSound (wake_first k s)
unfolding wake_first
wake_first-IsSound k s i = go (s.waiters k) refl
  where
    go : (ws : List ℕ) → s.waiters k ≡ ws → IsSound (wake_first k s)
    go [] e = rw (e, wake_first) i
    go (t ∷ rest) e = woken-IsSound s i k t rest e

pub semaphore_inc-IsSound : (k : ℕ) (s : Sys) → IsSound s → IsSound (semaphore_inc k s)
unfolding semaphore_inc disable_interrupts set_interrupt_level
semaphore_inc-IsSound k s i =
    let s' : Sys = record s {
      intr_level = disabled;
      sema_value = update s.sema_value k ((s.sema_value k + 1) % word_limit);
    } in
    let woken = wake_first-IsSound k s' (record { distinct = i.distinct; waiting = i.waiting }) in
    record { distinct = woken.distinct; waiting = woken.waiting }

-- A new thread, whose address is stored nowhere else.
pub create_thread-IsSound :
    (sleep_sema : ℕ → ℕ) (t : ℕ) (s : Sys)
    → t ∉ queue s
    → ((k : ℕ) → t ∉ s.waiters k)
    → (t == s.idle_thread) ≡ false
    → IsSound s
    → IsSound (create_thread sleep_sema (λ p u. u) t s)
unfolding create_thread thread_unblock calloc_thread thread_init assign_id semaphore_init
    disable_interrupts set_interrupt_level
create_thread-IsSound sleep_sema t s out none ne i =
    let emptied = update s.waiters (sleep_sema t) [] in
    let sub : (k q : ℕ) → q ∈ emptied k → q ∈ s.waiters k = λ k q h.
      elim (Bool-cases (k == sleep_sema t)) [
        | inl e ↦ absurd (ground (arith, rw e at h))
        | inr e ↦ rw e at h
      ] in
    let once : (k : ℕ) → Distinct (emptied k) = λ k. elim (Bool-cases (k == sleep_sema t)) [
      | inl e ↦ rw e tt
      | inr e ↦ rw e (i.waiting.once k)
    ] in
    let nowhere : (k : ℕ) → t ∉ emptied k =
      λ k. elim (Bool-cases (k == sleep_sema t)) [ inl e ↦ rw e refl | inr e ↦ rw e (none k) ] in
    thread_unblock-IsSound t (thread_init sleep_sema t (calloc_thread t s)) out nowhere ne (record {
      distinct = i.distinct;
      waiting = IsWaiting-sub s.waiters emptied s.idle_thread (queue s) sub once i.waiting;
    })
