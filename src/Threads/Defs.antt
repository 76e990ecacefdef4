-- ===== src/Threads/Defs.antt =====
-- The state and the scheduling functions of thread.c. A thread is its address. A queue of threads is
-- the list of its elements: on a well-formed list, where an element stands once, the list operations
-- act so.
use dunkos.Common.{ℕ, zero, suc, ◌+◌, ◌%◌, ◌^◌, Bool, true, false, not, Option, none, some}
use dunkos.Common.{List, [], ◌∷◌, ◌++◌, ◌==◌, if◌then◌else◌, update}

pub data ThreadStatus : Type 0 where
  blocked ready running dead : ThreadStatus

pub data InterruptLevel : Type 0 where
  disabled enabled context : InterruptLevel

-- A semaphore is its address, with its value and its waiters.
pub record Sys : Type 0 where
  pub ready_threads : List ℕ
  pub running_thread : ℕ
  pub idle_thread : ℕ
  pub initial_thread : ℕ
  pub next_tid : ℕ
  pub threads_init : Bool
  pub id : ℕ → ℕ
  pub priority : ℕ → ℕ
  pub donors : ℕ → List ℕ
  pub status : ℕ → ThreadStatus
  pub freed : ℕ → Bool
  pub intr_level : InterruptLevel
  pub sema_value : ℕ → ℕ
  pub waiters : ℕ → List ℕ
  pub holder : ℕ → Option ℕ
  pub cond_waiters : ℕ → List ℕ

-- `set_interrupt_level` returns the old level.
unfoldable pub set_interrupt_level : InterruptLevel → Sys → InterruptLevel × Sys
set_interrupt_level level s = (s.intr_level, record s { intr_level = level })

unfoldable pub disable_interrupts : Sys → InterruptLevel × Sys
unfolding set_interrupt_level
disable_interrupts s = set_interrupt_level disabled s

unfoldable pub in_interrupt : Sys → Bool
in_interrupt s = elim (s.intr_level) [ context ↦ true | _ ↦ false ]

unfoldable pub assign_id : Sys → ℕ × Sys
assign_id s = (s.next_tid, record s { next_tid = (s.next_tid + 1) % 2 ^ 32 })

abbrev pub pri_default : ℕ
pri_default = 0x1F

-- The part of `semaphore_init` that `thread_init` needs; `sleep_sema` of a thread is named by it.
unfoldable pub semaphore_init : ℕ → ℕ → Sys → Sys
semaphore_init sema value s = record s {
  sema_value = update s.sema_value sema value;
  waiters = update s.waiters sema [];
}

-- The status is not set: a zeroed block has `THRSTAT_BLOCKED`.
unfoldable pub thread_init : (ℕ → ℕ) → ℕ → Sys → Sys
unfolding assign_id semaphore_init
thread_init sleep_sema thr s =
    let (tid, s') = assign_id s in
    semaphore_init (sleep_sema thr) 0 (record s' {
      donors = update s'.donors thr [];
      priority = update s'.priority thr pri_default;
      id = update s'.id thr tid;
    })

-- `kcalloc` of a thread: a zeroed block.
unfoldable pub calloc_thread : ℕ → Sys → Sys
calloc_thread thr s = record s {
  status = update s.status thr blocked;
  freed = update s.freed thr false;
}

unfoldable pub thread_unblock : ℕ → Sys → Sys
unfolding set_interrupt_level disable_interrupts
thread_unblock thr s =
    let (old_level, s₁) = disable_interrupts s in
    let s₂ =
      if not (thr == s₁.idle_thread)
      then record s₁ { ready_threads = s₁.ready_threads ++ (thr ∷ []) }
      else s₁ in
    (set_interrupt_level old_level (record s₂ { status = update s₂.status thr ready })).1

-- `*dest = newthr` comes before the unblocking; `store` is that assignment.
unfoldable pub create_thread : (ℕ → ℕ) → (ℕ → Sys → Sys) → ℕ → Sys → Sys
unfolding calloc_thread thread_init thread_unblock
create_thread sleep_sema store newthr s =
    thread_unblock newthr (thread_init sleep_sema newthr (store newthr (calloc_thread newthr s)))

-- `initial` and `idle` are the two blocks that `kcalloc` returns.
unfoldable pub init_threads : (ℕ → ℕ) → ℕ → ℕ → Sys → Sys
unfolding calloc_thread thread_init create_thread
init_threads sleep_sema initial idle s =
    let s₁ = record s { ready_threads = []; next_tid = 0; initial_thread = initial } in
    let s₂ = thread_init sleep_sema initial (calloc_thread initial s₁) in
    let s₃ = create_thread sleep_sema (λ t u. record u { idle_thread = t }) idle s₂ in
    record s₃ { threads_init = true; running_thread = initial }

unfoldable pub get_current_status : Sys → ThreadStatus
get_current_status s = s.status s.running_thread

-- The next thread, taken off the queue.
unfoldable pub next_thread : Sys → ℕ × Sys
next_thread s = elim (s.ready_threads) [
  | [] ↦ (s.idle_thread, s)
  | t ∷ rest ↦ (t, record s { ready_threads = rest })
]

-- What happens up to the switch to the next thread, and then in `prev` when it runs again: a dead
-- thread's block is freed.
unfoldable pub schedule_next : Sys → Sys
unfolding next_thread
schedule_next s = let (next, s') = next_thread s in record s' { running_thread = next }

unfoldable pub after_switch : ℕ → Sys → Sys
after_switch prev s = elim (s.status prev) [
  | dead ↦ record s { freed = update s.freed prev true }
  | _ ↦ s
]

abbrev pub is_blocked : ThreadStatus → Bool
is_blocked blocked = true
is_blocked _ = false

unfoldable pub yield_current : Sys → Sys
unfolding schedule_next
yield_current s =
    let current = s.running_thread in
    schedule_next (
      if not (is_blocked (s.status current))
      then record s { ready_threads = s.ready_threads ++ (current ∷ []) }
      else s)

unfoldable pub block_current : Sys → Sys
unfolding disable_interrupts yield_current
block_current s =
    let s' = (disable_interrupts s).1 in
    yield_current (record s' { status = update s'.status s'.running_thread blocked })

-- `list_remove` of an element of the queue
abbrev pub take_out : ℕ → List ℕ → List ℕ
take_out t [] = []
take_out t (x ∷ xs) = if x == t then xs else x ∷ take_out t xs

unfoldable pub thread_block : ℕ → Sys → Sys
unfolding block_current
thread_block thr s = if thr == s.running_thread then block_current s else record s {
  status = update s.status thr blocked;
  ready_threads = take_out thr s.ready_threads;
}

unfoldable pub exit_thread : Sys → Sys
unfolding disable_interrupts schedule_next
exit_thread s =
    let s' = (disable_interrupts s).1 in
    schedule_next (record s' { status = update s'.status s'.running_thread dead })

-- `entry` is what the thread's function does to the state, with its argument.
unfoldable pub start_thread : (Sys → Sys) → Sys → Sys
unfolding set_interrupt_level exit_thread
start_thread entry s = exit_thread (entry (set_interrupt_level enabled s).1)

-- On fuel for the chain of donors; `none` is a run through all of it.
unfoldable pub thread_get_priority : ℕ → ℕ → Sys → Option ℕ
thread_get_priority zero thr s = none
thread_get_priority (suc fuel) thr s = elim (s.donors thr) [
  | [] ↦ some (s.priority thr)
  | d ∷ ds ↦ thread_get_priority fuel d s
]

unfoldable pub set_current_priority : ℕ → Sys → Sys
set_current_priority new_priority s = record s {
  priority = update s.priority s.running_thread new_priority;
}
