-- ===== src/Syscall/Fork.antt =====
-- Which of the two processes that fork makes is started, and whose number it returns.
use mathlib.Core.Path.{subst}
use dunkos.Common.{ℕ, ◌+◌, ◌%◌, ◌^◌, ◌≡◌, ◌≢◌, refl, ap, sym, ◌∙◌, arith, false, ==-refl}
use dunkos.Common.{[], ◌∷◌, ◌++◌, ◌==◌, update}
use dunkos.Hashtable.Visit.{hashtable_visit_keeps}
use dunkos.Threads.{Sys, blocked, ready, calloc_thread, thread_unblock, thread_init, lock_init}
use dunkos.Process.{Processes, Blocks, calloc_process, process_init, page_table_copy}
use dunkos.Process.{
  fork_process, new_child, init_sys, calloc_semas, page_copy, set_spt, spt_of, current_process,
  process_size,
}
use dunkos.Syscall.Family.{fork}

-- What a fork does to the scheduler's state, and what it leaves there.
record IsForked (p : ℕ) (y y' : Sys) : Type 0 where
  pub ids : y'.id ≡ update y.id p y.next_tid
  pub next_tid : y'.next_tid ≡ (y.next_tid + 1) % 2 ^ 32
  pub status : y'.status ≡ update y.status p blocked
  pub ready_threads : y'.ready_threads ≡ y.ready_threads
  pub idle_thread : y'.idle_thread ≡ y.idle_thread

page_table_copy-sys :
    (b : Blocks) (dest src : ℕ) (s : Processes) → (page_table_copy b dest src s).sys ≡ s.sys
unfolding page_table_copy
page_table_copy-sys b dest src s =
    hashtable_visit_keeps (λ t. t.links)
      (λ e aux t.
        set_spt aux (page_copy b.frame_table b.user_base (b.page e) (b.table e) e (spt_of aux t)) t)
      (λ t. t.sys) (λ e aux t. refl) (s.con src) dest s

-- The scheduler's state after a new process has been made.
abbrev forked : Blocks → Sys → Sys
forked b y =
    init_sys b.process b.semtable (calloc_thread b.process (calloc_semas b.process process_size y))

forked-IsForked : (b : Blocks) (y : Sys) → IsForked b.process y (forked b y)
unfolding init_sys calloc_semas calloc_thread thread_init lock_init
forked-IsForked b y = record {
  ids = refl;
  next_tid = refl;
  status = refl;
  ready_threads = refl;
  idle_thread = refl;
}

fork_process-sys : (b : Blocks) (s : Processes) → (fork_process b s).1.sys ≡ forked b s.sys
unfolding fork_process new_child process_init calloc_process
fork_process-sys b s =
    page_table_copy-sys b b.process (current_process s) (new_child b (current_process s) s)

fork_process-IsForked :
    (b : Blocks) (s : Processes) → IsForked b.process s.sys (fork_process b s).1.sys
fork_process-IsForked b s =
    subst (λ y. IsForked b.process s.sys y) (sym (fork_process-sys b s)) (forked-IsForked b s.sys)

-- The state between the two forks: the first process is ready and goes on at the label.
abbrev started : ℕ → Blocks → Processes → Processes
started fork_return b s =
    let s₁ = (fork_process b s).1 in
    record s₁ {
      thread_context =
          update s₁.thread_context b.process
            (record (s₁.thread_context b.process) { ip = fork_return });
      sys = thread_unblock b.process s₁.sys;
    }

-- Unblocking a thread other than the idle one queues it as ready.
unblocked :
    (t : ℕ) (y : Sys)
    → (t == y.idle_thread) ≡ false
    → let y' = thread_unblock t y in
      (y'.ready_threads ≡ y.ready_threads ++ (t ∷ []))
      × (y'.status ≡ update y.status t ready)
      × (y'.id ≡ y.id)
      × (y'.next_tid ≡ y.next_tid)
unfolding thread_unblock
unblocked t y ne = rw (ne, thread_unblock) (refl, refl, refl, refl)

-- fork makes two processes and returns the number of the second one. The first is ready, at the end
-- of the queue; the second stays blocked, and nothing else is queued.
pub fork_lem :
    (fork_return : ℕ) (b b' : Blocks) (s : Processes)
    → b.process ≢ b'.process
    → b.process ≢ s.sys.idle_thread
    → let (pid, s') = fork fork_return b b' s in
      (pid ≡ (s.sys.next_tid + 1) % 2 ^ 32)
      × (s'.sys.id b'.process ≡ pid)
      × (s'.sys.id b.process ≡ s.sys.next_tid)
      × (s'.sys.ready_threads ≡ s.sys.ready_threads ++ (b.process ∷ []))
      × (s'.sys.status b.process ≡ ready)
      × (s'.sys.status b'.process ≡ blocked)
unfolding fork fork_process
fork_lem fork_return b b' s ne not_idle =
    let one = fork_process-IsForked b s in
    let two = fork_process-IsForked b' (started fork_return b s) in
    let y₁ = (fork_process b s).1.sys in
    let (queue, status, ids, next) = unblocked b.process y₁ (ground (arith, one.idle_thread)) in
    let p = b.process in
    let q = b'.process in
    let y' : Sys = (fork_process b' (started fork_return b s)).1.sys in
    let apart : (p == q) ≡ false = ground arith in
    let pid : y'.id q ≡ (s.sys.next_tid + 1) % 2 ^ 32 =
      ap (λ f. f q) two.ids ∙ rw (==-refl q) (next ∙ one.next_tid) in
    let first : y'.id p ≡ s.sys.next_tid =
      ap (λ f. f p) two.ids
      ∙ rw apart (ap (λ f. f p) ids ∙ ap (λ f. f p) one.ids ∙ rw (==-refl p) refl) in
    let started_p : y'.status p ≡ ready =
      ap (λ f. f p) two.status ∙ rw apart (ap (λ f. f p) status ∙ rw (==-refl p) refl) in
    (
      pid,
      refl,
      first,
      two.ready_threads ∙ queue ∙ ap (λ r. r ++ (p ∷ [])) one.ready_threads,
      started_p,
      ap (λ f. f q) two.status ∙ rw (==-refl q) refl,
    )
