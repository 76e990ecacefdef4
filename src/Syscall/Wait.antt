-- ===== src/Syscall/Wait.antt =====
-- What wait returns for a child that has called exit, for one that has not, and for no child.
use dunkos.Common.{ℕ, ◌<◌, ◌≡◌, refl, ap, ◌∙◌, arith, ==-refl}
use dunkos.Common.{Bool, true, false, ◌&&◌, none, some, List, ◌∷◌, ◌++◌, ◌==◌}
use dunkos.Common.{◌∈◌}
use dunkos.Common.{has-append}
use dunkos.LinkedList.{Mem, list_remove}
use dunkos.LinkedList.Chain.{IsList}
use dunkos.LinkedList.Remove.{remove-IsList}
use dunkos.LinkedList.Visit.{visit_skip, visit_mark, visit_remove}
use dunkos.Threads.{semaphore_inc}
use dunkos.Process.{Processes, is_process, current_process, thread_of}
use dunkos.Process.{process_magik, minus_one, wait_sema_of, reap_sema_of, children_of}
use dunkos.Process.Dec.{taken, process_dec_positive, process_dec_zero, semaphore_inc_keeps}
use dunkos.Syscall.Family.{Waiting, waited, wait_child, wait}

abbrev pub is_waited : ℕ → ℕ → Processes → Bool
is_waited p e s = is_process (thread_of e) s && s.sys.id (thread_of e) == p

-- The loop passes over a child with another number.
wait_child_other :
    (cur p : ℕ) (others : List (Processes → Processes)) (e status : ℕ) (s : Processes)
    → is_waited p e s ≡ false
    → wait_child cur p others e (waited status s) ≡ waited status s
unfolding wait_child
wait_child_other cur p others e status s h = rw (h, wait_child) refl

-- The record that a wait without an end leaves.
abbrev stuck : ℕ → Mem → Waiting
stuck status links = record { status = status; now = none; links = links }

wait_child_ended :
    (cur p : ℕ) (others : List (Processes → Processes)) (e status : ℕ) (links : Mem)
    → wait_child cur p others e (stuck status links) ≡ stuck status links
unfolding wait_child
wait_child_ended cur p others e status links = refl

-- The state after the child with the element `e` has been waited for, having exited.
abbrev pub reaped : ℕ → ℕ → Processes → Processes
reaped cur e s = record s {
  links = list_remove (children_of cur) e s.links;
  sys = semaphore_inc (reap_sema_of (thread_of e)) (taken (wait_sema_of (thread_of e)) s.sys);
}

wait_child_found :
    (cur e : ℕ) (others : List (Processes → Processes)) (status : ℕ) (s : Processes)
    → s.magic (thread_of e) ≡ process_magik
    → 0 < s.sys.sema_value (wait_sema_of (thread_of e))
    → wait_child cur (s.sys.id (thread_of e)) others e (waited status s)
      ≡ waited (s.exit_code (thread_of e)) (reaped cur e s)
unfolding wait_child is_process
wait_child_found cur e others status s magic exited =
    let found : is_waited (s.sys.id (thread_of e)) e s ≡ true =
      rw (magic, ==-refl (s.sys.id (thread_of e))) refl in
    rw (found, process_dec_positive (wait_sema_of (thread_of e)) others s exited, wait_child) refl

wait_child-stuck :
    (cur e : ℕ) (others : List (Processes → Processes)) (status : ℕ) (s : Processes)
    → s.magic (thread_of e) ≡ process_magik
    → s.sys.sema_value (wait_sema_of (thread_of e)) ≡ 0
    → wait_child cur (s.sys.id (thread_of e)) others e (waited status s) ≡ stuck status s.links
unfolding wait_child is_process
wait_child-stuck cur e others status s magic running =
    let found : is_waited (s.sys.id (thread_of e)) e s ≡ true =
      rw (magic, ==-refl (s.sys.id (thread_of e))) refl in
    rw (found, process_dec_zero (wait_sema_of (thread_of e)) others s running, wait_child) refl

and_false : (a : Bool) {b : Bool} → b ≡ false → (a && b) ≡ false
and_false true h = h
and_false false h = refl

module _ (s : Processes) (others : List (Processes → Processes)) where
  -- Without a child process of the number, wait returns -1 at once and changes nothing.
  pub wait_unknown :
      (p : ℕ) (xs : List ℕ)
      → IsList s.links (children_of (current_process s)) xs
      → ((x : ℕ) → x ∈ xs → is_waited p x s ≡ false)
      → wait p others s ≡ (minus_one, some s)
  unfolding wait
  wait_unknown p xs l unknown =
      let cur = current_process s in
      ap (λ w. (w.status, w.now))
        (visit_skip (λ v. v.links) (wait_child cur p others) (children_of cur) xs
          (waited minus_one s) l (λ x h. wait_child_other cur p others x minus_one s (unknown x h)))

  module _ (xs : List ℕ) (e : ℕ) (ys : List ℕ)
      (l : IsList s.links (children_of (current_process s)) (xs ++ (e ∷ ys)))
      (child : s.magic (thread_of e) ≡ process_magik)
      (others_differ : (x : ℕ)
        → x ∈ (xs ++ ys)
        → (s.sys.id (thread_of x) == s.sys.id (thread_of e)) ≡ false) where
    -- For a child that has exited, wait returns its exit code without waiting; the child is no longer
    -- among the children, and its semaphore for the reaping goes up.
    pub wait_exited :
        0 < s.sys.sema_value (wait_sema_of (thread_of e))
        → (wait (s.sys.id (thread_of e)) others s
            ≡ (s.exit_code (thread_of e), some (reaped (current_process s) e s)))
          × IsList
              (reaped (current_process s) e s).links
              (children_of (current_process s))
              (xs ++ ys)
    unfolding wait
    wait_exited exited =
        let cur = current_process s in
        let p = s.sys.id (thread_of e) in
        let s' : Processes = reaped cur e s in
        let same : s'.sys.id ≡ s.sys.id =
          (semaphore_inc_keeps (reap_sema_of (thread_of e))
            (taken (wait_sema_of (thread_of e)) s.sys)).0 in
        (
          ap (λ w. (w.status, w.now))
              (visit_remove (λ v. v.links) (wait_child cur p others) (children_of cur) xs e ys
                (waited minus_one s) (waited (s.exit_code (thread_of e)) s') l
                (wait_child_found cur e others minus_one s child exited) refl
                (λ x h. wait_child_other cur p others x minus_one s (
                  and_false (is_process (thread_of x) s)
                    (others_differ x (ground (arith, has-append x xs ys, h)))))
                (λ y h. wait_child_other cur p others y (s.exit_code (thread_of e)) s' (
                  and_false (is_process (thread_of y) s') (
                    ap (λ f. f (thread_of y) == p) same
                    ∙ others_differ y (ground (arith, has-append y xs ys, h)))))),
          (remove-IsList xs e ys l).0,
        )

    -- For a child that has not exited, wait never returns.
    pub wait_running :
        s.sys.sema_value (wait_sema_of (thread_of e)) ≡ 0
        → (wait (s.sys.id (thread_of e)) others s).1 ≡ none
    unfolding wait
    wait_running running =
        let cur = current_process s in
        let p = s.sys.id (thread_of e) in
        ap (λ w. w.now)
          (visit_mark (λ v. v.links) (wait_child cur p others) (children_of cur) xs e ys
            (waited minus_one s) (stuck minus_one s.links) l
            (wait_child-stuck cur e others minus_one s child running) refl
            (λ x h. wait_child_other cur p others x minus_one s (
              and_false (is_process (thread_of x) s)
                (others_differ x (ground (arith, has-append x xs ys, h)))))
            (λ y h. wait_child_ended cur p others y minus_one s.links))
