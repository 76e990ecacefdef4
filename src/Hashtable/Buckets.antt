-- ===== src/Hashtable/Buckets.antt =====
-- The search in one bucket, and what an insertion or removal does to that bucket.
use dunkos.Common.{ℕ, zero, suc, ◌+◌, ◌%◌, ◌<◌, ◌≤◌, ◌≡◌, refl, inl, inr, arith, sym}
use dunkos.Common.{Bool, true, false, ◌||◌, ◌==◌, if◌then◌else◌, Bool-cases, word_limit}
use dunkos.Common.{List, [], ◌∷◌, ◌++◌, length, ◌∈◌, ◌∉◌, has-append}
use dunkos.Common.{Distinct-last, ne-of-mem}
use dunkos.LinkedList.{Mem, null, tail_of, list_remove, list_end}
use dunkos.LinkedList.Chain.{Chain, footprint, IsList, SameOutside, SameOutside-refl}
use dunkos.LinkedList.Chain.{SameOutside-trans, SameOutside-widen}
use mathlib.Core.Path.{subst}
use dunkos.LinkedList.Ends.{first_of, next-first_of}
use dunkos.LinkedList.Insert.{push_back-IsList}
use dunkos.LinkedList.Remove.{remove-IsList}
use dunkos.LinkedList.Walk.{begin-first_of}
use dunkos.Hashtable.Defs.{Hashtable, bucket_of, bucket_search, find_loop}
use dunkos.Hashtable.Defs.{hashtable_find, hashtable_insert, hashtable_remove}

module _ (eq : ℕ → ℕ → Bool) (e : ℕ) where
  -- The first element that equals `e`, or `b`.
  abbrev pub match_or : List ℕ → ℕ → ℕ
  match_or [] b = b
  match_or (x ∷ xs) b = if eq e x then x else match_or xs b

  -- The elements without the first one that equals `e`.
  abbrev pub without : List ℕ → List ℕ
  without [] = []
  without (x ∷ xs) = if eq e x then xs else x ∷ without xs

  abbrev pub has_match : List ℕ → Bool
  has_match [] = false
  has_match (x ∷ xs) = eq e x || has_match xs

  -- Where a list is cut by its first match.
  pub record IsCut (xs : List ℕ) (x : ℕ) : Type 0 where
    pub before : List ℕ
    pub behind : List ℕ
    pub whole : xs ≡ before ++ (x ∷ behind)
    pub rest : without xs ≡ before ++ behind

  pub match-IsCut : (xs : List ℕ) (b : ℕ) → has_match xs ≡ true → IsCut xs (match_or xs b)
  match-IsCut [] b h = absurd (ground arith)
  match-IsCut (x ∷ xs) b h = elim (Bool-cases (eq e x)) [
    | inl p ↦ rw p (record { before = []; behind = xs; whole = refl; rest = rw p })
    | inr p ↦
        let h' : has_match xs ≡ true = ground arith in
        let c = match-IsCut xs b h' in
        rw p (record {
          before = x ∷ c.before;
          behind = c.behind;
          whole = ground (arith, c.whole);
          rest = rw p (ground (arith, c.rest));
        })
  ]

  pub match_or-mem : (xs : List ℕ) (b : ℕ) → has_match xs ≡ true → match_or xs b ∈ xs
  match_or-mem [] b h = absurd (ground arith)
  match_or-mem (x ∷ xs) b h = ground (arith, match_or-mem xs b)

  pub match_or_none : (xs : List ℕ) (b : ℕ) → has_match xs ≡ false → match_or xs b ≡ b
  match_or_none [] b h = refl
  match_or_none (x ∷ xs) b h = ground (arith, match_or_none xs b)

  pub without_none : (xs : List ℕ) → has_match xs ≡ false → without xs ≡ xs
  without_none [] h = refl
  without_none (x ∷ xs) h = ground (arith, without_none xs)

  pub not-mem-without : (a : ℕ) (xs : List ℕ) → a ∉ xs → a ∉ without xs
  not-mem-without a [] h = refl
  not-mem-without a (x ∷ xs) h = ground (arith, not-mem-without a xs)

  pub length-without : (xs : List ℕ) → length (without xs) ≤ length xs
  length-without [] = omega arith
  length-without (x ∷ xs) = ground (arith, length-without xs)

  pub footprint-without :
      (a li : ℕ) (xs : List ℕ) → a ∉ footprint li xs → a ∉ footprint li (without xs)
  footprint-without a li xs h = ground (
    arith,
    not-mem-without a xs,
    has-append a xs (tail_of li ∷ []),
    has-append a (without xs) (tail_of li ∷ []),
  )

module _ (h : Hashtable) (e : ℕ) (m : Mem) (b : ℕ) where
  find_loop_lem :
      (fuel a : ℕ) (xs : List ℕ)
      → b ∉ xs
      → length xs < fuel
      → Chain m a xs b
      → find_loop h e fuel b (first_of xs b) m ≡ match_or h.eq e xs b
  unfolding find_loop
  find_loop_lem zero a xs out lt c = absurd (omega arith)
  find_loop_lem (suc fuel) a [] out lt c = ground arith
  find_loop_lem (suc fuel) a (x ∷ xs) out lt c =
      let apart : (x == b) ≡ false = ground arith in
      elim (Bool-cases (h.eq e x)) [
        | inl p ↦ rw (apart, p, find_loop)
        | inr p ↦
            rw (apart, p, find_loop)
              (rw (next-first_of m x xs b c.2)
                (find_loop_lem fuel x xs (ground arith) (omega arith) c.2))
      ]

module _ (h : Hashtable) (e : ℕ) (m : Mem) (xs : List ℕ) (l : IsList m (bucket_of h e) xs) where
  -- The search in the bucket of `e` ends at the first element that equals it, or at the end.
  pub search_lem : bucket_search h e m ≡ match_or h.eq e xs (list_end (bucket_of h e))
  unfolding bucket_search
  search_lem =
      let li = bucket_of h e in
      rw (begin-first_of xs l) (
        find_loop_lem h e m (tail_of li) (suc (m.size li)) li xs
          (Distinct-last (tail_of li) xs l.distinct.1) (omega (arith, l.size)) l.chain)

  search_end :
      has_match h.eq e xs ≡ false → (bucket_search h e m == list_end (bucket_of h e)) ≡ true
  search_end p = ground (arith, search_lem, match_or_none h.eq e xs (list_end (bucket_of h e)))

  search_found :
      has_match h.eq e xs ≡ true → (bucket_search h e m == list_end (bucket_of h e)) ≡ false
  unfolding list_end
  search_found p =
      let li = bucket_of h e in
      ground (
        arith,
        search_lem,
        ne-of-mem (tail_of li) (match_or h.eq e xs (tail_of li)) xs
            (Distinct-last (tail_of li) xs l.distinct.1) (match_or-mem h.eq e xs (tail_of li) p),
      )

  -- hashtable_find returns the first element of the bucket that equals `e`, or `NULL`.
  pub find_bucket :
      hashtable_find h e m
      ≡ (if has_match h.eq e xs then match_or h.eq e xs (list_end (bucket_of h e)) else null)
  unfolding hashtable_find
  find_bucket = elim (Bool-cases (has_match h.eq e xs)) [
    | inl p ↦ rw (search_found p, p) search_lem
    | inr p ↦ rw (search_end p, p)
  ]

  -- The effect of taking the first match out of the bucket.
  abbrev IsTaken : Mem → Type 0
  IsTaken m' =
      IsList m' (bucket_of h e) (without h.eq e xs)
      × SameOutside (footprint (bucket_of h e) xs) (bucket_of h e) m m'

  taken : has_match h.eq e xs ≡ true → IsTaken (list_remove (bucket_of h e) (bucket_search h e m) m)
  taken p =
      let li = bucket_of h e in
      let x = match_or h.eq e xs (list_end li) in
      let c = match-IsCut h.eq e xs (list_end li) p in
      let (is, same) = remove-IsList c.before x c.behind (subst (λ ys. IsList m li ys) c.whole l) in
      subst (λ y. IsTaken (list_remove li y m)) (sym search_lem)
        (
          subst (λ ys. IsList (list_remove li x m) li ys) (sym c.rest) is,
          subst (λ ys. SameOutside (footprint li ys) li m (list_remove li x m)) (sym c.whole) same,
        )

  -- hashtable_remove takes the first element that equals `e` out of the bucket.
  pub remove_bucket :
      let (h', m') = hashtable_remove h e m in
      (h' ≡ h)
      × IsList m' (bucket_of h e) (without h.eq e xs)
      × SameOutside (footprint (bucket_of h e) xs) (bucket_of h e) m m'
  unfolding hashtable_remove
  remove_bucket = elim (Bool-cases (has_match h.eq e xs)) [
    | inl p ↦ rw (search_found p) (refl, (taken p).0, (taken p).1)
    | inr p ↦
        rw (search_end p) (
          refl,
          rw (without_none h.eq e xs p) l,
          SameOutside-refl (footprint (bucket_of h e) xs) _ m,
        )
  ]

  -- What hashtable_insert does to the bucket, its header and the rest of memory.
  pub insert_bucket :
      e ∉ footprint (bucket_of h e) xs
      → length xs + 1 < word_limit
      → let (h', m') = hashtable_insert h e m in
        (h' ≡ (
          if has_match h.eq e xs then h else record h { entries = (h.entries + 1) % word_limit }))
        × IsList m' (bucket_of h e) (without h.eq e xs ++ (e ∷ []))
        × SameOutside (e ∷ footprint (bucket_of h e) xs) (bucket_of h e) m m'
  unfolding hashtable_insert
  insert_bucket fresh room = elim (Bool-cases (has_match h.eq e xs)) [
    | inl p ↦
        let li = bucket_of h e in
        let (is, same) = taken p in
        let (is', same') =
          push_back-IsList (without h.eq e xs) is (footprint-without h.eq e e li xs fresh)
            (omega (arith, length-without h.eq e xs)) in
        rw (search_found p, p)
          (
            refl,
            is',
            SameOutside-trans (e ∷ footprint li xs) (footprint li xs) (λ q out. ground arith) same
                (SameOutside-widen (e ∷ footprint li xs) (e ∷ footprint li (without h.eq e xs))
                  (λ q out. ground (arith, footprint-without h.eq e q li xs)) same'),
          )
    | inr p ↦
        let (is, same) = push_back-IsList xs l fresh room in
        rw (search_end p, p, without_none h.eq e xs p) (refl, is, same)
  ]
