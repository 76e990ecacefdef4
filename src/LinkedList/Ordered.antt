-- ===== src/LinkedList/Ordered.antt =====
-- list_insert_ordered: where it puts the element, and the pointer that it leaves stale.
use dunkos.Common.{ℕ, zero, suc, ◌+◌, ◌<◌, ◌≡◌, Bool, true, false, arith}
use dunkos.Common.{List, [], ◌∷◌, ◌++◌, ◌==◌, length, word_limit}
use dunkos.Common.{◌∉◌, has-append, has-insert, ne-of-mem}
use dunkos.LinkedList.Defs.{Mem, tail_of, list_begin, insert_scan, list_insert_ordered}
use dunkos.LinkedList.Defs.{inc_size, set_prev, set_next}
use dunkos.LinkedList.Chain.{Chain, footprint, IsList, Chain-drop}
use dunkos.LinkedList.Ends.{first_of, next-first_of, first_of-mem}
use dunkos.LinkedList.Walk.{begin-first_of}

-- The comparison holds of every element of the list against `el`.
abbrev pub AllBefore : (ℕ → ℕ → Bool) → ℕ → List ℕ → Type 0
AllBefore cmp el [] = Unit
AllBefore cmp el (y ∷ ys) = (cmp y el ≡ true) × AllBefore cmp el ys

module _ (m : Mem) (cmp : ℕ → ℕ → Bool) (el b p : ℕ) (zs : List ℕ) (stop : cmp p el ≡ false) where
  scan_lem :
      (fuel a : ℕ) (ys : List ℕ)
      → AllBefore cmp el ys
      → length ys < fuel
      → Chain m a (ys ++ (p ∷ zs)) b
      → insert_scan cmp fuel el (first_of (ys ++ (p ∷ zs)) b) m ≡ p
  unfolding insert_scan
  scan_lem zero a ys before h c = absurd (omega arith)
  scan_lem (suc fuel) a [] before h c = rw (stop, insert_scan)
  scan_lem (suc fuel) a (y ∷ ys) before h c =
      rw (before.0, insert_scan)
        (rw (next-first_of m y (ys ++ (p ∷ zs)) b c.2)
          (scan_lem fuel y ys before.1 (omega arith) c.2))

-- What list_insert_ordered does to a list in which the comparison first fails at `p`: the new
-- element is linked in behind `p`, but the element behind it keeps `p` as its predecessor.
pub record IsHalfLinked (m m' : Mem) (li el p n : ℕ) : Type 0 where
  pub after : m'.next p ≡ el
  pub before : m'.prev el ≡ p
  pub follow : m'.next el ≡ n
  pub stale : m'.prev n ≡ p
  pub counted : m'.size li ≡ m.size li + 1

prev-first_of :
    (m : Mem) (p : ℕ) (zs : List ℕ) (b : ℕ) → Chain m p zs b → m.prev (first_of zs b) ≡ p
prev-first_of m p [] b c = c.1
prev-first_of m p (z ∷ zs) b c = c.1

-- The four writes of the insertion behind `p`.
after_writes : ℕ → ℕ → ℕ → Mem → Mem
after_writes li el p m = inc_size li (set_prev el p (set_next el (m.next p) (set_next p el m)))

module _ {m : Mem} {li : ℕ} (cmp : ℕ → ℕ → Bool) (el p : ℕ) (ys zs : List ℕ)
    (l : IsList m li (ys ++ (p ∷ zs))) where
  begin-ne-null : 0 ∉ footprint li (ys ++ (p ∷ zs)) → (list_begin li m == 0) ≡ false
  begin-ne-null nz =
      let first = first_of (ys ++ (p ∷ zs)) (tail_of li) in
      rw (begin-first_of (ys ++ (p ∷ zs)) l) (
        ground (
          arith,
          ne-of-mem 0 first (footprint li (ys ++ (p ∷ zs))) nz
              (ground (arith, first_of-mem (ys ++ (p ∷ zs)) (tail_of li))),
        ))

  insert_ordered_lem :
      (fuel : ℕ)
      → 0 ∉ footprint li (ys ++ (p ∷ zs))
      → AllBefore cmp el ys
      → cmp p el ≡ false
      → length ys < fuel
      → list_insert_ordered cmp fuel li el m ≡ after_writes li el p m
  unfolding list_insert_ordered after_writes
  insert_ordered_lem fuel nz before stop h = rw (
    begin-ne-null nz,
    begin-first_of (ys ++ (p ∷ zs)) l,
    scan_lem m cmp el (tail_of li) p zs stop fuel li ys before h l.chain,
  )

-- In a list whose new length is a word and without the address `NULL`, where the comparison first
-- fails at some element, list_insert_ordered, on fuel for the elements before that one, links the
-- new element in behind it and counts it, but leaves the `prev` pointer of the element behind the
-- new one at its old predecessor.
pub insert_ordered-IsHalfLinked :
    {m : Mem} {li : ℕ} (cmp : ℕ → ℕ → Bool) (el p : ℕ) (ys zs : List ℕ) (fuel : ℕ)
    → IsList m li (ys ++ (p ∷ zs))
    → el ∉ footprint li (ys ++ (p ∷ zs))
    → 0 ∉ footprint li (ys ++ (p ∷ zs))
    → length (ys ++ (p ∷ zs)) + 1 < word_limit
    → AllBefore cmp el ys
    → cmp p el ≡ false
    → length ys < fuel
    → IsHalfLinked m (list_insert_ordered cmp fuel li el m) li el p (first_of zs (tail_of li))
unfolding after_writes
insert_ordered-IsHalfLinked {m} {li} cmp el p ys zs fuel l out nz room before stop h =
    let n = first_of zs (tail_of li) in
    let behind : Chain m p zs (tail_of li) = Chain-drop m p (tail_of li) zs li ys l.chain in
    let apart : (el == p) ≡ false =
      ne-of-mem el p (footprint li (ys ++ (p ∷ zs))) out
        (ground (arith, has-append p (ys ++ (p ∷ zs)) (tail_of li ∷ []), has-insert p p ys zs)) in
    rw (insert_ordered_lem cmp el p ys zs l fuel nz before stop h) (record {
      after = ground arith;
      before = ground arith;
      follow = ground (arith, next-first_of m p zs (tail_of li) behind);
      stale = ground (arith, prev-first_of m p zs (tail_of li) behind);
      counted = ground (arith, l.size);
    })

-- So the result is not the well-formed list that the insertion is to give: the chain of that list
-- would lead back from the next element to the new one.
pub insert_ordered-not_IsList :
    {m m' : Mem} {li el p : ℕ} (ys zs : List ℕ)
    → IsHalfLinked m m' li el p (first_of zs (tail_of li))
    → (el == p) ≡ false
    → ¬ IsList m' li (ys ++ (p ∷ (el ∷ zs)))
insert_ordered-not_IsList {m} {m'} {li} {el} {p} ys zs half apart l =
    let c : Chain m' p (el ∷ zs) (tail_of li) =
      Chain-drop m' p (tail_of li) (el ∷ zs) li ys l.chain in
    ground (arith, prev-first_of m' el zs (tail_of li) c.2, half.stale)
