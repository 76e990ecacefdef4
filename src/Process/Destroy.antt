-- ===== src/Process/Destroy.antt =====
-- Destroying a page table frees all that belongs to it.
use mathlib.Core.List.{foldl}
use dunkos.Common.{ℕ, ◌≡◌, refl, ap, ◌∙◌, arith, true, ==-refl, Bool-cases}
use dunkos.Common.{List, [], ◌∷◌, ◌==◌, ◌∈◌, inl, inr}
use dunkos.Hashtable.Refine.{IsTable}
use dunkos.Hashtable.Visit.{entries_from, destroy_lem}
use dunkos.Process.Pages.{page_of, page_destroy}
use dunkos.Process.Life.{
  Processes, current_process, free_block, set_spt, spt_of, page_table_destroy,
}

-- What page_destroy does to the state, with the release of the page.
destroyed : ℕ → Processes → Processes
destroyed e t =
    let cur = current_process t in
    free_block (page_of e) (set_spt cur (page_destroy e (spt_of cur t)) t)

freed-fold :
    (q : ℕ) (xs : List ℕ) (t : Processes)
    → t.freed q ≡ true
    → (foldl (λ u e. destroyed e u) t xs).freed q ≡ true
unfolding destroyed page_destroy
freed-fold q [] t h = h
freed-fold q (x ∷ xs) t h = freed-fold q xs (destroyed x t) (ground (arith, h))

fold-frees :
    (x : ℕ) (xs : List ℕ) (t : Processes)
    → x ∈ xs
    → (foldl (λ u e. destroyed e u) t xs).freed (page_of x) ≡ true
unfolding destroyed page_destroy
fold-frees x [] t h = absurd (ground arith)
fold-frees x (y ∷ ys) t h = elim (Bool-cases (x == y)) [
  | inl e ↦
      let e' : x ≡ y = ground arith in
      freed-fold (page_of x) ys (destroyed y t)
        (ap (λ z. (destroyed y t).freed (page_of z)) e' ∙ rw (==-refl (page_of y)) refl)
  | inr ne ↦ fold-frees x ys (destroyed y t) (ground (arith, h))
]

-- Destroying the page table of a process frees every page that is in the table, and the array of its
-- buckets, whatever the current process is.
pub page_table_destroy-frees :
    (p : ℕ) (s : Processes) (f : ℕ → List ℕ) (x : ℕ)
    → IsTable s.links (s.con p) f
    → x ∈ entries_from f (s.con p).buckets 0
    → let s' = page_table_destroy p s in
      (s'.freed (page_of x) ≡ true) × (s'.freed (s.con p).bucket_con ≡ true)
unfolding page_table_destroy destroyed page_destroy
page_table_destroy-frees p s f x t h =
    let con = (s.con p).bucket_con in
    let xs = entries_from f (s.con p).buckets 0 in
    let whole : page_table_destroy p s ≡ free_block con (foldl (λ u e. destroyed e u) s xs) =
      destroy_lem (λ u. u.links) destroyed (λ e u. refl) free_block (s.con p) f 0 s t in
    let page : (foldl (λ u e. destroyed e u) s xs).freed (page_of x) ≡ true = fold-frees x xs s h in
    (
      ap (λ u. u.freed (page_of x)) whole ∙ ground (arith, page),
      ap (λ u. u.freed con) whole ∙ rw (==-refl con) refl,
    )
