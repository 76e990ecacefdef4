-- ===== src/LinkedList/Visit.antt =====
-- The loop over a list whose body may change the list: what it passes over, where it ends, and what
-- it keeps.
use mathlib.Core.List.{append-nil}
use mathlib.Core.Path.{subst}
use dunkos.Common.{ℕ, zero, suc, ◌+◌, ◌≡◌, refl, ap, sym, ◌∙◌, false, arith, ==-refl}
use dunkos.Common.{
  Distinct-last, length-append, has-append, List, [], ◌∷◌, ◌++◌, ◌==◌, length, ◌∈◌, ◌∉◌, Bool-cases,
  inl, inr,
}
use dunkos.LinkedList.Defs.{Mem, list_next, list_begin, list_size, list_end}
use dunkos.LinkedList.Defs.{list_fold, list_foreach, list_walk, list_visit}
use dunkos.LinkedList.Defs.{tail_of, list_remove, list_empty, unlink}
use dunkos.LinkedList.Chain.{Chain, Chain-drop, IsList}
use dunkos.LinkedList.Ends.{first_of, last_of, next-first_of}
use dunkos.LinkedList.Remove.{remove-IsList}
use dunkos.LinkedList.Walk.{begin-first_of}

module _ {ℓ} {S : Type ℓ} (links : S → Mem) (action : ℕ → S → S) where
  pub walk_end : (fuel b : ℕ) (s : S) → list_walk links action (suc fuel) b b s ≡ s
  unfolding list_walk
  walk_end fuel b s = rw (==-refl b, list_walk) refl

  -- One round, at an element that is not the end.
  pub walk_step :
      (fuel b el : ℕ) (s : S)
      → (el == b) ≡ false
      → list_walk links action (suc fuel) b el s
        ≡ list_walk links action fuel b ((links (action el s)).next el) (action el s)
  unfolding list_walk list_next
  walk_step fuel b el s apart = rw (apart, list_walk) refl

  -- The loop passes over the elements at which its body changes nothing.
  pub walk_skip :
      (fuel a b : ℕ) (xs ys : List ℕ) (s : S)
      → Chain (links s) a (xs ++ ys) b
      → b ∉ xs
      → ((x : ℕ) → x ∈ xs → action x s ≡ s)
      → list_walk links action (length xs + fuel) b (first_of (xs ++ ys) b) s
        ≡ list_walk links action fuel b (first_of ys b) s
  walk_skip fuel a b [] ys s c out same =
      ap (λ n. list_walk links action n b (first_of ys b) s) (omega arith)
  walk_skip fuel a b (x ∷ xs) ys s c out same =
      let apart : (x == b) ≡ false = ground arith in
      let here : action x s ≡ s = same x (ground (arith, ==-refl x)) in
      ap (λ n. list_walk links action n b x s) (omega arith)
      ∙ walk_step (length xs + fuel) b x s apart
      ∙ rw (here, next-first_of (links s) x (xs ++ ys) b c.2)
          (walk_skip fuel x b xs ys s c.2 (ground arith) (λ q h. same q (ground arith)))

  module _ (keeps : (e : ℕ) (s : S) → links (action e s) ≡ links s) where
    walk-fold :
        (fuel b el : ℕ) (s : S)
        → list_walk links action fuel b el s ≡ list_fold fuel action b el (links s) s
    unfolding list_walk list_fold
    walk-fold zero b el s = refl
    walk-fold (suc fuel) b el s = elim (Bool-cases (el == b)) [
      | inl e ↦ rw (e, list_walk, list_fold) refl
      | inr e ↦
          rw (e, list_walk, list_fold)
            (walk-fold fuel b _ (action el s)
              ∙ ap (λ m. list_fold fuel action b (list_next el m) m (action el s)) (keeps el s))
    ]

    -- A body that changes no pointer is run as in the plain loop.
    pub visit-foreach :
        (li : ℕ) (s : S) → list_visit links action li s ≡ list_foreach action li (links s) s
    unfolding list_visit list_foreach
    visit-foreach li s =
        walk-fold (suc (list_size li (links s))) (list_end li) (list_begin li (links s)) s

  -- What the body keeps, the loop keeps.
  module _ {ℓ'} {A : Type ℓ'} (view : S → A)
      (keeps : (e : ℕ) (s : S) → view (action e s) ≡ view s) where
    walk_keeps : (fuel b el : ℕ) (s : S) → view (list_walk links action fuel b el s) ≡ view s
    unfolding list_walk
    walk_keeps zero b el s = refl
    walk_keeps (suc fuel) b el s = elim (Bool-cases (el == b)) [
      | inl e ↦ rw (e, list_walk) refl
      | inr e ↦ rw (e, list_walk) (walk_keeps fuel b _ (action el s) ∙ keeps el s)
    ]

    pub visit_keeps : (li : ℕ) (s : S) → view (list_visit links action li s) ≡ view s
    unfolding list_visit
    visit_keeps li s =
        walk_keeps (suc (list_size li (links s))) (list_end li) (list_begin li (links s)) s

Chain-from :
    (m : Mem) (a b : ℕ) (xs ys : List ℕ) → Chain m a (xs ++ ys) b → Chain m (last_of a xs) ys b
Chain-from m a b [] ys c = c
Chain-from m a b (x ∷ xs) ys c = Chain-from m x b xs ys c.2

next-list_remove : (li e : ℕ) (m : Mem) → (list_remove li e m).next e ≡ m.next e
unfolding list_remove unlink list_empty
next-list_remove li e m = ground arith

module _ {ℓ} {S : Type ℓ} (links : S → Mem) (action : ℕ → S → S) (li : ℕ) where
  visit_walk :
      (xs : List ℕ) (s : S)
      → IsList (links s) li xs
      → list_visit links action li s
        ≡ list_walk links action (length xs + 1) (tail_of li) (first_of xs (tail_of li)) s
  unfolding list_visit list_end list_size
  visit_walk xs s l =
      let rounds : suc ((links s).size li) ≡ length xs + 1 = omega (arith, l.size) in
      ap (λ n. list_walk links action n (tail_of li) (list_begin li (links s)) s) rounds
      ∙ ap (λ p. list_walk links action (length xs + 1) (tail_of li) p s) (begin-first_of xs l)

  -- The rest of a list at which nothing changes.
  walk_rest :
      (a b : ℕ) (ys : List ℕ) (s : S)
      → Chain (links s) a ys b
      → b ∉ ys
      → ((y : ℕ) → y ∈ ys → action y s ≡ s)
      → list_walk links action (length ys + 1) b (first_of ys b) s ≡ s
  walk_rest a b ys s c out same =
      let whole : ys ++ [] ≡ ys = append-nil ys in
      ap (λ zs. list_walk links action (length ys + 1) b (first_of zs b) s) (sym whole)
      ∙ walk_skip links action 1 a b ys [] s (subst (λ zs. Chain (links s) a zs b) (sym whole) c)
          out same
      ∙ walk_end links action 0 b s

  -- A body that changes nothing at any element: the loop changes nothing.
  pub visit_skip :
      (xs : List ℕ) (s : S)
      → IsList (links s) li xs
      → ((x : ℕ) → x ∈ xs → action x s ≡ s)
      → list_visit links action li s ≡ s
  visit_skip xs s l same =
      visit_walk xs s l
      ∙ walk_rest li (tail_of li) xs s l.chain (Distinct-last (tail_of li) xs l.distinct.1) same

  -- A body that changes the state at one element, after which the rest of the list is still linked.
  visit_at :
      (xs : List ℕ) (e a : ℕ) (ys : List ℕ) (s s' : S)
      → IsList (links s) li (xs ++ (e ∷ ys))
      → action e s ≡ s'
      → Chain (links s') a ys (tail_of li)
      → (links s').next e ≡ first_of ys (tail_of li)
      → ((x : ℕ) → x ∈ xs → action x s ≡ s)
      → ((y : ℕ) → y ∈ ys → action y s' ≡ s')
      → list_visit links action li s ≡ s'
  visit_at xs e a ys s s' l here rest on before behind =
      let b = tail_of li in
      let out : b ∉ (xs ++ (e ∷ ys)) = Distinct-last b (xs ++ (e ∷ ys)) l.distinct.1 in
      let outs : (b ∉ xs) × (b ∉ (e ∷ ys)) = ground (arith, has-append b xs (e ∷ ys), out) in
      let rounds : length (xs ++ (e ∷ ys)) + 1 ≡ length xs + suc (length ys + 1) =
        omega (arith, length-append xs (e ∷ ys)) in
      visit_walk (xs ++ (e ∷ ys)) s l
      ∙ ap (λ n. list_walk links action n b (first_of (xs ++ (e ∷ ys)) b) s) rounds
      ∙ walk_skip links action (suc (length ys + 1)) li b xs (e ∷ ys) s l.chain outs.0 before
      ∙ walk_step links action (length ys + 1) b e s (ground (arith, outs.1))
      ∙ ap (λ t. list_walk links action (length ys + 1) b ((links t).next e) t) here
      ∙ ap (λ p. list_walk links action (length ys + 1) b p s') on
      ∙ walk_rest a b ys s' rest (ground (arith, outs.1)) behind

  -- A body that changes the state at one element but no pointer: the loop ends with that state.
  pub visit_mark :
      (xs : List ℕ) (e : ℕ) (ys : List ℕ) (s s' : S)
      → IsList (links s) li (xs ++ (e ∷ ys))
      → action e s ≡ s'
      → links s' ≡ links s
      → ((x : ℕ) → x ∈ xs → action x s ≡ s)
      → ((y : ℕ) → y ∈ ys → action y s' ≡ s')
      → list_visit links action li s ≡ s'
  visit_mark xs e ys s s' l here kept =
      let rest : Chain (links s) e ys (tail_of li) =
        Chain-drop (links s) e (tail_of li) ys li xs l.chain in
      visit_at xs e e ys s s' l here (subst (λ m. Chain m e ys (tail_of li)) (sym kept) rest)
        (ap (λ m. m.next e) kept ∙ next-first_of (links s) e ys (tail_of li) rest)

  -- A body that takes out one element and changes nothing at the others: the loop ends with the
  -- state that it leaves there.
  pub visit_remove :
      (xs : List ℕ) (e : ℕ) (ys : List ℕ) (s s' : S)
      → IsList (links s) li (xs ++ (e ∷ ys))
      → action e s ≡ s'
      → links s' ≡ list_remove li e (links s)
      → ((x : ℕ) → x ∈ xs → action x s ≡ s)
      → ((y : ℕ) → y ∈ ys → action y s' ≡ s')
      → list_visit links action li s ≡ s'
  visit_remove xs e ys s s' l here removed =
      let b = tail_of li in
      let m = links s in
      let rest : Chain (links s') (last_of li xs) ys b =
        Chain-from (links s') li b xs ys (
          subst (λ m'. Chain m' li (xs ++ ys) b) (sym removed) (remove-IsList xs e ys l).0.chain) in
      let on : (links s').next e ≡ first_of ys b =
        ap (λ m'. m'.next e) removed
        ∙ next-list_remove li e m
        ∙ next-first_of m e ys b (Chain-drop m e b ys li xs l.chain) in
      visit_at xs e (last_of li xs) ys s s' l here rest on
