-- ===== src/Timer/Interrupt.antt =====
-- The timer interrupt and the sleepers; how long a thread is to sleep.
use mathlib.Core.Path.{subst}
use dunkos.Common.{ℕ, ◌+◌, ◌*◌, ◌%◌, ◌≡◌, refl, ◌⊎◌, inl, inr, arith, ap}
use dunkos.Common.{true, false, ◌&&◌, ◌==◌, leb, ltb, if◌then◌else◌, Bool-cases, none, some}
use dunkos.Common.{List, [], ◌∷◌, has, Distinct, word_limit, update}
use dunkos.Threads.{Sys, thread_unblock, wake_first, semaphore_inc, disable_interrupts}
use mathlib.Core.Option
use dunkos.Timer.Defs.{
  InterruptDefer, time_slice, Timer, wake_loop, timer_interrupt, timespec_ticks, safemul, safeadd,
  quanta,
}

unblock-sema_value : (t : ℕ) (s : Sys) → (thread_unblock t s).sema_value ≡ s.sema_value
unfolding thread_unblock
unblock-sema_value t s = elim (Bool-cases (t == s.idle_thread)) [
  | inl e ↦ rw e refl
  | inr e ↦ rw e refl
]

wake_first-sema_value : (sema : ℕ) (s : Sys) → (wake_first sema s).sema_value ≡ s.sema_value
unfolding wake_first
wake_first-sema_value sema s = go (s.waiters sema) refl
  where
    go : (ws : List ℕ) → s.waiters sema ≡ ws → (wake_first sema s).sema_value ≡ s.sema_value
    go [] e = rw (e, wake_first) refl
    go (t ∷ rest) e = rw (e, wake_first) (unblock-sema_value t _)

inc-sema_value :
    (sema p : ℕ) (s : Sys)
    → (semaphore_inc sema s).sema_value p
      ≡ (if p == sema then (s.sema_value sema + 1) % word_limit else s.sema_value p)
unfolding semaphore_inc disable_interrupts
inc-sema_value sema p s =
    let off = (disable_interrupts s).1 in
    let counted = record off {
      sema_value = update s.sema_value sema ((s.sema_value sema + 1) % word_limit);
    } in
    ap (λ f. f p) {x = (wake_first sema counted).sema_value} {y = counted.sema_value}
      (wake_first-sema_value sema counted)

-- The semaphore of thread `u` after the loop over a queue in which no thread stands twice.
module _ (sleep_sema sleep_end : ℕ → ℕ) (ticks u : ℕ)
    (own : (t : ℕ) → (t == u) ≡ false → (sleep_sema t == sleep_sema u) ≡ false) where
  wake_loop-sema_value :
      (queue : List ℕ) (s : Sys)
      → Distinct queue
      → (wake_loop sleep_sema sleep_end ticks queue s).sema_value (sleep_sema u) ≡ (
          if has u queue && leb (sleep_end u) ticks
          then (s.sema_value (sleep_sema u) + 1) % word_limit
          else s.sema_value (sleep_sema u))
  unfolding wake_loop
  wake_loop-sema_value [] s d = refl
  wake_loop-sema_value (t ∷ queue) s (out, d) = elim (Bool-cases (t == u)) [
    | inl e ↦
        let e' : t ≡ u = ground arith in
        let gone : has u queue ≡ false = subst (λ x. has x queue ≡ false) e' out in
        let self : (u == t) ≡ true = ground arith in
        elim (Bool-cases (leb (sleep_end t) ticks)) [
          | inl due ↦
              let due' : leb (sleep_end u) ticks ≡ true =
                subst (λ x. leb (sleep_end x) ticks ≡ true) e' due in
              rw (due, wake_loop)
                (ground (
                  arith,
                  wake_loop-sema_value queue (semaphore_inc (sleep_sema t) s) d,
                  inc-sema_value (sleep_sema t) (sleep_sema u) s,
                  ap sleep_sema e',
                ))
          | inr early ↦
              let early' : leb (sleep_end u) ticks ≡ false =
                subst (λ x. leb (sleep_end x) ticks ≡ false) e' early in
              rw (early, wake_loop) (ground (arith, wake_loop-sema_value queue s d))
        ]
    | inr ne ↦
        let other : (u == t) ≡ false = ground arith in
        let apart = own t ne in
        elim (Bool-cases (leb (sleep_end t) ticks)) [
          | inl due ↦
              rw (due, wake_loop)
                (ground (
                  arith,
                  wake_loop-sema_value queue (semaphore_inc (sleep_sema t) s) d,
                  inc-sema_value (sleep_sema t) (sleep_sema u) s,
                ))
          | inr early ↦ rw (early, wake_loop) (ground (arith, wake_loop-sema_value queue s d))
        ]
  ]

-- What the handler leaves: the ticks, the sleep queue and the semaphore of `u`.
abbrev pub left_by : (ℕ → ℕ) → ℕ → InterruptDefer × Timer → ℕ × List ℕ × ℕ
left_by sleep_sema u (action, s) = (s.ticks, s.sleep_queue, s.sys.sema_value (sleep_sema u))

-- Within a time slice, a timer interrupt counts the tick, takes no thread out of the sleep queue, and
-- increments the semaphore of `u` once if `u` is in the queue and its time has come, and else leaves
-- it; at the end of the slice the processor stops instead, and nothing comes after it. (No thread
-- stands twice in the queue, and no other thread has the semaphore of `u`.)
pub interrupt-wakes :
    (sleep_sema : ℕ → ℕ) (u : ℕ) (s : Timer)
    → ((t : ℕ) → (t == u) ≡ false → (sleep_sema t == sleep_sema u) ≡ false)
    → Distinct s.sleep_queue
    → let ticks = (s.ticks + 1) % word_limit in
      let value = s.sys.sema_value (sleep_sema u) in
      Option.map (left_by sleep_sema u) (timer_interrupt sleep_sema s) ≡ (
        if ltb time_slice ((s.thread_ticks + 1) % word_limit)
        then none
        else some (
          ticks,
          s.sleep_queue,
          if has u s.sleep_queue && leb (s.sleep_end u) ticks
              then (value + 1) % word_limit
              else value,
        ))
unfolding timer_interrupt disable_interrupts
interrupt-wakes sleep_sema u s own d =
    let ticks = (s.ticks + 1) % word_limit in
    let woken =
      wake_loop-sema_value sleep_sema s.sleep_end ticks u own s.sleep_queue
        (disable_interrupts s.sys).1 d in
    elim (Bool-cases (ltb time_slice ((s.thread_ticks + 1) % word_limit))) [
      | inl over ↦ rw over refl
      | inr within ↦ rw within (ap (λ v. some (ticks, s.sleep_queue, v)) woken)
    ]

-- To sleep for a whole number of seconds is to sleep for no tick at all, or not to be queued: the
-- nanoseconds of the time, which are 0, are multiplied by the seconds and not added to them.
pub whole_seconds :
    (seconds : ℕ) → (timespec_ticks seconds 0 ≡ none) ⊎ (timespec_ticks seconds 0 ≡ some 0)
unfolding timespec_ticks safeadd quanta
whole_seconds seconds =
    let (fits, nanos) = safemul seconds 1000000000 in
    let nothing : (nanos * 0) % word_limit ≡ 0 = omega arith in
    elim (Bool-cases fits) [
      | inl holds ↦ inr (rw (holds, nothing) refl)
      | inr fails ↦ inl (rw fails refl)
    ]
