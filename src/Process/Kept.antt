-- ===== src/Process/Kept.antt =====
-- What exit_process leaves as it was.
use mathlib.Core.List.{foldl}
use dunkos.Common.{ℕ, ◌+◌, ◌%◌, ◌≡◌, refl, ap, ◌∙◌, arith, false, ==-refl, Bool-cases, inl, inr}
use dunkos.Common.{List, [], ◌∷◌, ◌==◌, update, ◌∈◌, word_limit}
use dunkos.LinkedList.Chain.{IsList}
use dunkos.LinkedList.Walk.{foreach-foldl}
use dunkos.Hashtable.Visit.{hashtable_visit_keeps}
use dunkos.Hashtable.{hashtable_destroy}
use dunkos.Threads.{Sys}
use dunkos.Process.Life.{Processes, is_process, current_process, page_table_destroy, thread_of}
use dunkos.Process.Life.{wait_sema_of, reap_sema_of, children_of, free_block, set_spt, spt_of}
use dunkos.Process.Leave.{release_child, release_children, exit_begin}
use dunkos.Process.Pages.{page_destroy, page_of}
use dunkos.Process.Dec.{semaphore_inc_keeps}

-- The fields that destroying a page table does not touch.
record SameProcesses (s s' : Processes) : Type 0 where
  pub sys : s'.sys ≡ s.sys
  pub links : s'.links ≡ s.links
  pub magic : s'.magic ≡ s.magic
  pub parent : s'.parent ≡ s.parent
  pub exit_code : s'.exit_code ≡ s.exit_code

destroy_keeps {ℓ} :
    {A : Type ℓ} (view : Processes → A)
    → ((e : ℕ) (t : Processes)
        → view (
            free_block
              (page_of e)
              (set_spt (current_process t) (page_destroy e (spt_of (current_process t) t)) t))
          ≡ view t)
    → ((a : ℕ) (t : Processes) → view (free_block a t) ≡ view t)
    → (p : ℕ) (s : Processes) → view (page_table_destroy p s) ≡ view s
unfolding page_table_destroy hashtable_destroy
destroy_keeps view body free p s =
    free (s.con p).bucket_con _
    ∙ hashtable_visit_keeps (λ t. t.links) _ view (λ e aux t. body e t) (s.con p) 0 s

page_table_destroy-SameProcesses :
    (p : ℕ) (s : Processes) → SameProcesses s (page_table_destroy p s)
unfolding page_destroy
page_table_destroy-SameProcesses p s = record {
  sys = destroy_keeps (λ t. t.sys) (λ e t. refl) (λ a t. refl) p s;
  links = destroy_keeps (λ t. t.links) (λ e t. refl) (λ a t. refl) p s;
  magic = destroy_keeps (λ t. t.magic) (λ e t. refl) (λ a t. refl) p s;
  parent = destroy_keeps (λ t. t.parent) (λ e t. refl) (λ a t. refl) p s;
  exit_code = destroy_keeps (λ t. t.exit_code) (λ e t. refl) (λ a t. refl) p s;
}

release_child_keeps :
    (s : Processes) (k x : ℕ) (y : Sys)
    → (k == reap_sema_of (thread_of x)) ≡ false
    → let y' = release_child s x y in
      (y'.id ≡ y.id) × (y'.running_thread ≡ y.running_thread) × (y'.sema_value k ≡ y.sema_value k)
unfolding release_child
release_child_keeps s k x y apart = elim (Bool-cases (is_process (thread_of x) s)) [
  | inl e ↦
      let (ids, running, values) = semaphore_inc_keeps (reap_sema_of (thread_of x)) y in
      rw (e, release_child) (ids, running, ap (λ f. f k) values ∙ rw apart refl)
  | inr e ↦ rw (e, release_child) (refl, refl, refl)
]

-- Releasing children raises no other value than those of their semaphores for the reaping.
release_fold :
    (s : Processes) (k : ℕ) (xs : List ℕ) (y : Sys)
    → ((x : ℕ) → x ∈ xs → (k == reap_sema_of (thread_of x)) ≡ false)
    → let y' = foldl (λ t x. release_child s x t) y xs in
      (y'.id ≡ y.id) × (y'.running_thread ≡ y.running_thread) × (y'.sema_value k ≡ y.sema_value k)
release_fold s k [] y apart = (refl, refl, refl)
release_fold s k (x ∷ xs) y apart =
    let (ids, running, value) =
      release_fold s k xs (release_child s x y) (λ q h. apart q (ground (arith, h))) in
    let (ids', running', value') =
      release_child_keeps s k x y (apart x (ground (arith, ==-refl x))) in
    (ids ∙ ids', running ∙ running', value ∙ value')

-- The process that has run exit_process up to the wait for its parent.
pub record IsExited (c status : ℕ) (s s' : Processes) : Type 0 where
  pub ids : s'.sys.id ≡ s.sys.id
  pub magic : s'.magic ≡ s.magic
  pub parent : s'.parent ≡ s.parent
  pub links : s'.links ≡ s.links
  pub running : s'.sys.running_thread ≡ s.sys.running_thread
  pub code : s'.exit_code c ≡ status
  pub value :
      s'.sys.sema_value (wait_sema_of c) ≡ (s.sys.sema_value (wait_sema_of c) + 1) % word_limit
  pub reap : s'.sys.sema_value (reap_sema_of c) ≡ s.sys.sema_value (reap_sema_of c)

-- The semaphores of `c` are not those that its children wait on for the reaping.
pub record IsApart (c : ℕ) (xs : List ℕ) : Type 0 where
  pub wait : (x : ℕ) → x ∈ xs → (wait_sema_of c == reap_sema_of (thread_of x)) ≡ false
  pub reap : (x : ℕ) → x ∈ xs → (reap_sema_of c == reap_sema_of (thread_of x)) ≡ false

-- exit_process sets the code, adds one to the semaphore that the parent waits on, and leaves the
-- numbers of the threads, which are processes, and all lists.
pub exit_begin-IsExited :
    (status : ℕ) (xs : List ℕ) (s : Processes)
    → IsList s.links (children_of (current_process s)) xs
    → IsApart (current_process s) xs
    → IsExited (current_process s) status s (exit_begin status s)
unfolding exit_begin release_children
exit_begin-IsExited status xs s l apart =
    let cur = current_process s in
    let s₀ : Processes = record s { exit_code = update s.exit_code cur status } in
    let s₁ : Processes = release_children cur s₀ in
    let y : Sys = (page_table_destroy cur s₁).sys in
    let kept = page_table_destroy-SameProcesses cur s₁ in
    let fold : s₁.sys ≡ foldl (λ t x. release_child s₀ x t) s.sys xs =
      foreach-foldl (release_child s₀) xs s.sys l in
    let (ids, running, value) = release_fold s₀ (wait_sema_of cur) xs s.sys apart.wait in
    let (_, _, reap) = release_fold s₀ (reap_sema_of cur) xs s.sys apart.reap in
    let other : (reap_sema_of cur == wait_sema_of cur) ≡ false = ground arith in
    let (ids', running', values') = semaphore_inc_keeps (wait_sema_of cur) y in
    let ys : y ≡ foldl (λ t x. release_child s₀ x t) s.sys xs = kept.sys ∙ fold in
    record {
      ids = ids' ∙ ap (λ t. t.id) ys ∙ ids;
      magic = kept.magic;
      parent = kept.parent;
      links = kept.links;
      running = running' ∙ ap (λ t. t.running_thread) ys ∙ running;
      code = ap (λ f. f cur) kept.exit_code ∙ rw (==-refl cur) refl;
      value =
          ap (λ f. f (wait_sema_of cur)) values'
          ∙ rw (==-refl (wait_sema_of cur)) (
              ap (λ t. (t.sema_value (wait_sema_of cur) + 1) % word_limit) ys
              ∙ ap (λ v. (v + 1) % word_limit) value);
      reap =
          ap (λ f. f (reap_sema_of cur)) values'
          ∙ rw other (ap (λ t. t.sema_value (reap_sema_of cur)) ys ∙ reap);
    }
