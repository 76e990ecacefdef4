-- ===== src/Process/Leave.antt =====
-- exit_process and the waiting on semaphores in it and in wait. A wait is cut where the process is
-- switched away from; `others` is what the others do until it runs again, round by round.
use dunkos.Common.{ℕ, true, false, Option, none, some, List, [], ◌∷◌, ◌==◌, if◌then◌else◌, update}
use dunkos.LinkedList.{list_foreach}
use dunkos.Threads.{Sys, InterruptLevel, disable_interrupts, dec_loop, wait_round}
use dunkos.Threads.{semaphore_inc, exit_thread}
use dunkos.Process.Life.{Processes, is_process, current_process, thread_of, page_table_destroy}
use dunkos.Process.Life.{wait_sema_of, reap_sema_of, children_of}

abbrev pub lift_option : Option Sys → Processes → Option Processes
lift_option none s = none
lift_option (some y) s = some (record s { sys = y })

-- The loop of semaphore_dec while the others may change more than the scheduler's state.
unfoldable pub process_dec_loop :
    ℕ → ℕ → InterruptLevel → List (Processes → Processes) → Processes → Option Processes
unfolding dec_loop wait_round
process_dec_loop sema value level [] s = lift_option (dec_loop sema value level [] s.sys) s
process_dec_loop sema value level (env ∷ others) s = elim (value == 0) [
  | true ↦ process_dec_loop sema value level others (env (record s { sys = wait_round sema s.sys }))
  | false ↦ lift_option (dec_loop sema value level [] s.sys) s
]

unfoldable pub process_dec : ℕ → List (Processes → Processes) → Processes → Option Processes
unfolding process_dec_loop disable_interrupts
process_dec sema others s =
    let (old_level, y) = disable_interrupts s.sys in
    process_dec_loop sema (y.sema_value sema) old_level others (record s { sys = y })

-- A child that is a process need not wait for its parent any more.
unfoldable pub release_child : Processes → ℕ → Sys → Sys
unfolding is_process semaphore_inc
release_child s e y =
    let chld = thread_of e in if is_process chld s then semaphore_inc (reap_sema_of chld) y else y

unfoldable pub release_children : ℕ → Processes → Processes
unfolding list_foreach release_child
release_children cur s = record s {
  sys = list_foreach (release_child s) (children_of cur) s.links s.sys;
}

-- exit_process up to the wait for the parent
unfoldable pub exit_begin : ℕ → Processes → Processes
unfolding current_process release_children page_table_destroy semaphore_inc
exit_begin status s =
    let cur = current_process s in
    let s₁ = release_children cur (record s { exit_code = update s.exit_code cur status }) in
    let s₂ = page_table_destroy cur s₁ in
    record s₂ { sys = semaphore_inc (wait_sema_of cur) s₂.sys }

-- The state that the next thread finds; `none` while the process waits for its parent.
unfoldable pub exit_process : ℕ → List (Processes → Processes) → Processes → Option Processes
unfolding current_process exit_begin process_dec exit_thread
exit_process status others s =
    elim (process_dec (reap_sema_of (current_process s)) others (exit_begin status s)) [
      | none ↦ none
      | some s' ↦ some (record s' { sys = exit_thread s'.sys })
    ]
