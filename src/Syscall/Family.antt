-- ===== src/Syscall/Family.antt =====
-- The calls that make processes, wait for them and end them. `waits` of wait is what the others do
-- while each child with the number is waited for.
use dunkos.Common.{ℕ, true, false, ◌&&◌, Option, none, some, List}
use dunkos.Common.{◌==◌, update}
use dunkos.LinkedList.{Mem, list_visit, list_remove}
use dunkos.Block.{Ide}
use dunkos.Filesys.{Fs, File, Sectors, Frame, Resolved, ◌>>=◌}
use dunkos.Threads.{thread_unblock, semaphore_inc}
use dunkos.Process.{Processes, Blocks, is_process, current_process, fork_process, exit_process}
use dunkos.Process.{
  Deferred, exec_process, process_dec, thread_of, minus_one, wait_sema_of, reap_sema_of,
  children_of,
}

-- `fork_return` is the address of the label; the second process is the one of the return statement.
unfoldable pub fork : ℕ → Blocks → Blocks → Processes → ℕ × Processes
unfolding fork_process thread_unblock
fork fork_return b b' s =
    let (frk, s₁) = fork_process b s in
    let s₂ = record s₁ {
      thread_context =
          update s₁.thread_context frk (record (s₁.thread_context frk) { ip = fork_return });
      sys = thread_unblock frk s₁.sys;
    } in
    let (other, s₃) = fork_process b' s₂ in (s₃.sys.id other, s₃)

unfoldable pub getpid : Processes → ℕ
unfolding current_process
getpid s = s.sys.id (current_process s)

-- When exec_process returns, exec returns -1: the program that was loaded is not entered.
unfoldable pub exec :
    Ide → Sectors → Frame → Resolved → (ℕ → ℕ) → ℕ → ℕ → Fs → Option (ℕ × File × List Deferred × Fs)
unfolding exec_process
exec ide tables f r stale header pht s₀ = do
  (executable, calls, s) ← exec_process ide tables f r stale header pht s₀
  some (minus_one, executable, calls, s)

unfoldable pub exit : ℕ → List (Processes → Processes) → Processes → Option Processes
unfolding exit_process
exit status others s = exit_process status others s

-- The local `status`, and the state, `none` once a wait has not ended.
pub record Waiting : Type 0 where
  pub status : ℕ
  pub now : Option Processes
  pub links : Mem

-- The pointers that the loop of wait goes on with.
abbrev pub waited : ℕ → Processes → Waiting
waited status s = record { status = status; now = some s; links = s.links }

-- The body of the loop for the element `e` of the list of `cur`.
unfoldable pub wait_child : ℕ → ℕ → List (Processes → Processes) → ℕ → Waiting → Waiting
unfolding is_process process_dec list_remove semaphore_inc
wait_child cur p others e w = elim (w.now) [
  | none ↦ w
  | some s ↦
      let t = thread_of e in
      elim (is_process t s && s.sys.id t == p) [
        | false ↦ w
        | true ↦ elim (process_dec (wait_sema_of t) others s) [
          | none ↦ record w { now = none }
          | some s₁ ↦ waited (s₁.exit_code t) (record s₁ {
            links = list_remove (children_of cur) e s₁.links;
            sys = semaphore_inc (reap_sema_of t) s₁.sys;
          })
        ]
      ]
]

-- The status and the state when wait returns; `none` when it does not.
unfoldable pub wait : ℕ → List (Processes → Processes) → Processes → ℕ × Option Processes
unfolding current_process list_visit wait_child
wait p others s =
    let cur = current_process s in
    let w =
      list_visit (λ v. v.links) (wait_child cur p others) (children_of cur) (waited minus_one s) in
    (w.status, w.now)
