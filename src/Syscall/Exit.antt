-- ===== src/Syscall/Exit.antt =====
-- exit and wait together.
use dunkos.Common.{ℕ, ◌+◌, ◌%◌, ◌<◌, ◌≡◌, refl, ap, sym, ◌∙◌, arith, false, none, some}
use dunkos.Common.{List, ◌∷◌, ◌++◌, ◌==◌, ◌∈◌, word_limit}
use dunkos.LinkedList.Chain.{IsList}
use mathlib.Core.Path.{subst}
use dunkos.Process.{Processes, current_process, is_process, thread_of, process_magik, children_of}
use dunkos.Process.{wait_sema_of, reap_sema_of, exit_begin, exit_process, process_dec}
use dunkos.Process.Kept.{IsApart, exit_begin-IsExited}
use dunkos.Process.Dec.{process_dec_zero}
use dunkos.Syscall.Family.{wait, exit}
use dunkos.Syscall.Wait.{wait_exited, reaped}

-- The scheduler has switched to the thread `q`.
abbrev pub switched_to : ℕ → Processes → Processes
switched_to q s = record s { sys = record (s.sys) { running_thread = q } }

-- A process that is switched to is the current one.
current_process_switched :
    (q : ℕ) (s : Processes) → s.magic q ≡ process_magik → current_process (switched_to q s) ≡ q
unfolding current_process is_process
current_process_switched q s h = rw h refl

-- exit does not come back from its wait for the parent when that semaphore is 0.
pub exit_stuck :
    (status : ℕ) (others : List (Processes → Processes)) (xs : List ℕ) (s : Processes)
    → IsList s.links (children_of (current_process s)) xs
    → IsApart (current_process s) xs
    → s.sys.sema_value (reap_sema_of (current_process s)) ≡ 0
    → exit status others s ≡ none
unfolding exit exit_process
exit_stuck status others xs s l apart zero_value =
    let done = exit_begin-IsExited status xs s l apart in
    let waits : process_dec (reap_sema_of (current_process s)) others (exit_begin status s) ≡ none =
      process_dec_zero (reap_sema_of (current_process s)) others (exit_begin status s)
        (done.reap ∙ zero_value) in
    rw (waits, exit_process) refl

module _ (status : ℕ) (others : List (Processes → Processes)) (s : Processes) (zs : List ℕ)
    (own : IsList s.links (children_of (current_process s)) zs)
    (apart : IsApart (current_process s) zs)
    (room : s.sys.sema_value (wait_sema_of (current_process s)) + 1 < word_limit)
    (child : s.magic (current_process s) ≡ process_magik) where
  -- After a child has called exit, its parent's wait for it returns the status.
  pub wait-exit :
      (q : ℕ) (xs : List ℕ) (e : ℕ) (ys : List ℕ)
      → s.magic q ≡ process_magik
      → IsList s.links (children_of q) (xs ++ (e ∷ ys))
      → thread_of e ≡ current_process s
      → ((x : ℕ) → x ∈ (xs ++ ys) → (s.sys.id (thread_of x) == s.sys.id (thread_of e)) ≡ false)
      → let s' = switched_to q (exit_begin status s) in
        (wait (s.sys.id (current_process s)) others s' ≡ (status, some (reaped q e s')))
        × IsList (reaped q e s').links (children_of q) (xs ++ ys)
  wait-exit q xs e ys parent l is_child differ =
      let c = current_process s in
      let done = exit_begin-IsExited status zs s own apart in
      let s' : Processes = switched_to q (exit_begin status s) in
      let cur : current_process s' ≡ q =
        current_process_switched q (exit_begin status s) (ap (λ f. f q) done.magic ∙ parent) in
      let pid : s'.sys.id (thread_of e) ≡ s.sys.id c =
        ap (λ f. f (thread_of e)) done.ids ∙ ap s.sys.id is_child in
      let code : s'.exit_code (thread_of e) ≡ status = ap s'.exit_code is_child ∙ done.code in
      let value : s'.sys.sema_value (wait_sema_of (thread_of e))
          ≡ (s.sys.sema_value (wait_sema_of c) + 1) % word_limit =
        ap (λ t. s'.sys.sema_value (wait_sema_of t)) is_child ∙ done.value in
      let (waited, rest) =
        wait_exited s' others xs e ys
          (subst (λ r. IsList s'.links (children_of r) (xs ++ (e ∷ ys))) (sym cur)
            (subst (λ m. IsList m (children_of q) (xs ++ (e ∷ ys))) (sym done.links) l))
          (ap (λ f. f (thread_of e)) done.magic ∙ ap s.magic is_child ∙ child)
          (λ x h. ap (λ f. f (thread_of x) == f (thread_of e)) done.ids ∙ differ x h)
          (omega (arith, value, room)) in
      (
        ap (λ p. wait p others s') (sym pid)
            ∙ waited
            ∙ ap (λ v. (v, some (reaped (current_process s') e s'))) code
            ∙ ap (λ r. (status, some (reaped r e s'))) cur,
        subst (λ r. IsList (reaped r e s').links (children_of r) (xs ++ ys)) cur rest,
      )
