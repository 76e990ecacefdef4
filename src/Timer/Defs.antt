-- ===== src/Timer/Defs.antt =====
-- The functions of timer.c on the threads of thread.c. Ticks and times are 64-bit words. The sleep
-- queue is the list of the sleeping threads, and `sleep_sema` names a thread's semaphore.
use Prim.Native.Nat.{bit_and}
use dunkos.Common.{ℕ, ◌+◌, ◌-◌, ◌*◌, ◌/◌, ◌%◌, ◌^◌, Bool, Option, none, some}
use dunkos.Common.{List, [], ◌∷◌, ◌++◌, ◌==◌, ltb, leb, if◌then◌else◌, update, word_limit}
use dunkos.Threads.{Sys, disable_interrupts, semaphore_inc, semaphore_dec, lock_init, lock_acquire}
use dunkos.Threads.{lock_release}

abbrev pub quantum : ℕ
quantum = 100000

abbrev pub time_slice : ℕ
time_slice = 100

abbrev pub nano_per_sec : ℕ
nano_per_sec = 1000000000

pub data InterruptDefer : Type 0 where
  intrdefr_none intrdefr_yield : InterruptDefer

-- The variables of the file, `sleep_end` of every thread, and the system of threads.
pub record Timer : Type 0 where
  pub ticks : ℕ
  pub thread_ticks : ℕ
  pub sleep_queue : List ℕ
  pub sleep_end : ℕ → ℕ
  pub sys : Sys

-- `sleep_queue_lock` is the lock's name. Setting up the APIC changes no state that is modelled.
unfoldable pub init_timer : ℕ → Timer → Timer
unfolding lock_init
init_timer sleep_queue_lock s = record s {
  ticks = 0;
  sleep_queue = [];
  sys = lock_init sleep_queue_lock s.sys;
}

-- The current thread's call; `others` is what other threads do while it waits, first for the lock and
-- then for its semaphore.
unfoldable pub sleep_ticks :
    ℕ → (ℕ → ℕ) → ℕ → List (Sys → Sys) → List (Sys → Sys) → Timer → Option Timer
sleep_ticks sleep_queue_lock sleep_sema t others others' s =
    let cur = s.sys.running_thread in
    elim (lock_acquire sleep_queue_lock others s.sys) [
      | none ↦ none
      | some locked ↦
          elim (semaphore_dec (sleep_sema cur) others' (lock_release sleep_queue_lock locked)) [
            | none ↦ none
            | some woken ↦ some (record s {
              sleep_end = update s.sleep_end cur ((s.ticks + t) % word_limit);
              sleep_queue = s.sleep_queue ++ (cur ∷ []);
              sys = woken;
            })
          ]
    ]

-- `safemul(a, b, res)` on 64-bit words: whether it says that the product fits, and the product. Of
-- the two tests on the right of its `==`, the comparison binds tighter than `&`: it compares 128
-- with a truth value, so the right is 0, and the macro says whether bit 7 of the product is clear.
unfoldable pub safemul : ℕ → ℕ → Bool × ℕ
safemul a b = let prod = (a * b) % word_limit in (bit_and prod 128 == 0, prod)

-- `safeadd` has the same text.
unfoldable pub safeadd : ℕ → ℕ → Bool × ℕ
safeadd a b = let sum = (a * b) % word_limit in (bit_and sum 128 == 0, sum)

-- `div_rnd_up(nanos, QUANTUM)` on the `int64_t` that the word stands for; the division truncates.
unfoldable pub quanta : ℕ → ℕ
quanta nanos =
    if ltb nanos (2 ^ 63)
    then (nanos + quantum - 1) / quantum
    else (let minus = word_limit - nanos in
        (word_limit - (minus - (quantum - 1)) / quantum) % word_limit)

-- The number of ticks for which `sleep_timespec` sleeps, if it sleeps.
unfoldable pub timespec_ticks : ℕ → ℕ → Option ℕ
unfolding safemul safeadd quanta
timespec_ticks seconds nanoseconds =
    let (fits, nanos) = safemul seconds nano_per_sec in
    if fits
    then (let (fits', nanos') = safeadd nanos nanoseconds in
        if fits' then some (quanta nanos') else none)
    else none

unfoldable pub sleep_timespec :
    ℕ → (ℕ → ℕ) → ℕ → ℕ → List (Sys → Sys) → List (Sys → Sys) → Timer → Option Timer
unfolding timespec_ticks sleep_ticks
sleep_timespec sleep_queue_lock sleep_sema seconds nanoseconds others others' s =
    elim (timespec_ticks seconds nanoseconds) [
      | none ↦ some s
      | some t ↦ sleep_ticks sleep_queue_lock sleep_sema t others others' s
    ]

-- The loop over the sleepers.
unfoldable pub wake_loop : (ℕ → ℕ) → (ℕ → ℕ) → ℕ → List ℕ → Sys → Sys
wake_loop sleep_sema sleep_end ticks [] s = s
wake_loop sleep_sema sleep_end ticks (sleeper ∷ queue) s =
    wake_loop sleep_sema sleep_end ticks queue
      (if leb (sleep_end sleeper) ticks then semaphore_inc (sleep_sema sleeper) s else s)

-- `none` is the `hlt` at the end of a time slice: the interrupts are off there, so the processor
-- stops for good. The message before it is left out.
unfoldable pub timer_interrupt : (ℕ → ℕ) → Timer → Option (InterruptDefer × Timer)
unfolding wake_loop disable_interrupts
timer_interrupt sleep_sema s =
    let ticks = (s.ticks + 1) % word_limit in
    let thread_ticks = (s.thread_ticks + 1) % word_limit in
    let sys = wake_loop sleep_sema s.sleep_end ticks s.sleep_queue (disable_interrupts s.sys).1 in
    if ltb time_slice thread_ticks
    then none
    else some (intrdefr_none, record s { ticks = ticks; thread_ticks = thread_ticks; sys = sys })
