-- ===== src/Hashtable/Visit.antt =====
-- The loop over the entries of a table whose body may change the pointers: what it keeps, and which
-- entries it visits.
use mathlib.Core.List.{foldl, foldl-append}
use mathlib.Core.Path.{subst}
use dunkos.Common.{
  ℕ, zero, suc, ◌+◌, ◌<◌, ◌≡◌, refl, sym, ap, ◌∙◌, arith, Bool, if◌then◌else◌, ◌==◌,
}
use dunkos.Common.{List, [], ◌∷◌, ◌++◌}
use dunkos.LinkedList.{Mem, null, list_visit}
use dunkos.LinkedList.Chain.{IsList}
use dunkos.LinkedList.Walk.{foreach-foldl}
use dunkos.LinkedList.Visit.{visit_keeps, visit-foreach}
use dunkos.Hashtable.Defs.{Hashtable, bucket_at, visit_loop, hashtable_visit, hashtable_destroy}
use dunkos.Hashtable.Refine.{IsTable}

module _ {ℓ} {S : Type ℓ} (links : S → Mem) (action : ℕ → ℕ → S → S) where
  module _ {ℓ'} {A : Type ℓ'} (view : S → A)
      (keeps : (e aux : ℕ) (s : S) → view (action e aux s) ≡ view s) where
    loop_keeps :
        (con : ℕ) (no_aux : Bool) (left b aux : ℕ) (s : S)
        → view (visit_loop links action con no_aux left b aux s) ≡ view s
    unfolding visit_loop
    loop_keeps con no_aux zero b aux s = refl
    loop_keeps con no_aux (suc left) b aux s =
        let aux' = if no_aux then bucket_at con b else aux in
        loop_keeps con no_aux left (b + 1) aux'
          (list_visit links (λ e. action e aux') (bucket_at con b) s)
        ∙ visit_keeps links (λ e. action e aux') view (λ e t. keeps e aux' t) (bucket_at con b) s

    -- What the body keeps, the loop keeps.
    pub hashtable_visit_keeps :
        (h : Hashtable) (aux : ℕ) (s : S) → view (hashtable_visit links h action aux s) ≡ view s
    unfolding hashtable_visit
    hashtable_visit_keeps h aux s = loop_keeps h.bucket_con (aux == null) h.buckets 0 aux s

-- The contents of `left` buckets from `b` on, one after the other.
unfoldable pub entries_from : (ℕ → List ℕ) → ℕ → ℕ → List ℕ
entries_from f zero b = []
entries_from f (suc left) b = f b ++ entries_from f left (b + 1)

module _ {ℓ} {S : Type ℓ} (links : S → Mem) (body : ℕ → S → S)
    (keeps : (e : ℕ) (s : S) → links (body e s) ≡ links s) where
  foldl_keeps : (xs : List ℕ) (s : S) → links (foldl (λ t e. body e t) s xs) ≡ links s
  foldl_keeps [] s = refl
  foldl_keeps (x ∷ xs) s = foldl_keeps xs (body x s) ∙ keeps x s

  loop_visits :
      (con : ℕ) (no_aux : Bool) (f : ℕ → List ℕ) (left b aux : ℕ) (s : S)
      → ((i : ℕ) → i < b + left → IsList (links s) (bucket_at con i) (f i))
      → visit_loop links (λ e a. body e) con no_aux left b aux s
        ≡ foldl (λ t e. body e t) s (entries_from f left b)
  unfolding visit_loop entries_from
  loop_visits con no_aux f zero b aux s lists = refl
  loop_visits con no_aux f (suc left) b aux s lists =
      let here : list_visit links body (bucket_at con b) s ≡ foldl (λ t e. body e t) s (f b) =
        visit-foreach links body keeps (bucket_at con b) s
        ∙ foreach-foldl body (f b) s (lists b (omega arith)) in
      let aux' = if no_aux then bucket_at con b else aux in
      ap (λ t. visit_loop links (λ e a. body e) con no_aux left (b + 1) aux' t) here
      ∙ loop_visits con no_aux f left (b + 1) aux' (foldl (λ t e. body e t) s (f b)) (λ i h.
        subst (λ m. IsList m (bucket_at con i) (f i)) (sym (foldl_keeps (f b) s))
          (lists i (omega (arith, h))))
      ∙ sym (foldl-append (λ t e. body e t) s (f b) (entries_from f left (b + 1)))

  -- hashtable_destroy calls a destructor that changes no pointer once for each entry, bucket by
  -- bucket from the first one and from the front of each, and then frees the array of the buckets.
  pub destroy_lem :
      (free : ℕ → S → S) (h : Hashtable) (f : ℕ → List ℕ) (aux : ℕ) (s : S)
      → IsTable (links s) h f
      → hashtable_destroy links free h (λ e a. body e) aux s
        ≡ free h.bucket_con (foldl (λ t e. body e t) s (entries_from f h.buckets 0))
  unfolding hashtable_destroy hashtable_visit
  destroy_lem free h f aux s t = ap (free h.bucket_con) (
      loop_visits h.bucket_con (aux == null) f h.buckets 0 aux s
        (λ i lt. t.bucket i (omega (arith, lt))))
