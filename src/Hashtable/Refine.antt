-- ===== src/Hashtable/Refine.antt =====
-- The whole table: its buckets as disjoint lists, each element in the bucket of its hash.
use dunkos.Common.{ℕ, ◌+◌, ◌%◌, ◌<◌, ◌≡◌, refl, ◌≢◌, ◌⊎◌, inl, inr, arith, sym, ◌∙◌}
use dunkos.Common.{Bool, true, false, ◌==◌, if◌then◌else◌, Bool-cases, word_limit, update}
use dunkos.Common.{List, [], ◌∷◌, ◌++◌, length, has, ◌∈◌, ◌∉◌, has-append}
use mathlib.Core.Path.{subst}
use dunkos.LinkedList.{Mem, null, tail_of, list_end}
use dunkos.LinkedList.Chain.{footprint, IsList, IsList-frame, SameOutside}
use dunkos.Hashtable.Defs.{Hashtable, bucket_at, bucket_of, hashtable_find, hashtable_insert}
use dunkos.Hashtable.Defs.{hashtable_remove}
use dunkos.Hashtable.Buckets.{
  match_or, without, has_match, find_bucket, insert_bucket, remove_bucket,
}
use dunkos.Hashtable.Buckets.{not-mem-without, footprint-without}

-- In memory `m` the table `h` holds the elements `f i` in bucket `i`.
pub record IsTable (m : Mem) (h : Hashtable) (f : ℕ → List ℕ) : Type 0 where
  pub some_bucket : 0 < h.buckets
  pub bucket : (i : ℕ) → i < h.buckets → IsList m (bucket_at h.bucket_con i) (f i)
  pub apart :
      (i j : ℕ)
      → i < h.buckets
      → j < h.buckets
      → i ≢ j
      → (q : ℕ) → q ∈ footprint (bucket_at h.bucket_con i) (f i)
      → q ∉ footprint (bucket_at h.bucket_con j) (f j)
  pub placed : (i x : ℕ) → i < h.buckets → x ∈ f i → h.fn x % h.buckets ≡ i

-- The bucket index of `e`.
abbrev pub index_of : Hashtable → ℕ → ℕ
index_of h e = h.fn e % h.buckets

-- The table's contents after an insertion: `e` goes behind, in place of the first element equal to
-- it.
abbrev pub inserted : Hashtable → ℕ → (ℕ → List ℕ) → ℕ → List ℕ
inserted h e f = update f (index_of h e) (without h.eq e (f (index_of h e)) ++ (e ∷ []))

abbrev pub removed : Hashtable → ℕ → (ℕ → List ℕ) → ℕ → List ℕ
removed h e f = update f (index_of h e) (without h.eq e (f (index_of h e)))

not_both : (b : Bool) → b ≡ true → b ≡ false → ⊥
not_both b p q = ground arith

-- A table whose bucket `k` has been changed to `xs`, within its old addresses and `new`.
module _ {m : Mem} {h : Hashtable} {f : ℕ → List ℕ} (t : IsTable m h f) (m' : Mem) (k : ℕ)
    (xs new : List ℕ) where
  abbrev at : ℕ → ℕ
  at i = bucket_at h.bucket_con i

  IsTable-update :
      k < h.buckets
      → ((i : ℕ) → i < h.buckets → (q : ℕ) → q ∈ new → q ∉ footprint (at i) (f i))
      → IsList m' (at k) xs
      → SameOutside (new ++ footprint (at k) (f k)) (at k) m m'
      → ((q : ℕ) → q ∈ footprint (at k) xs → q ∈ (new ++ footprint (at k) (f k)))
      → ((x : ℕ) → x ∈ xs → index_of h x ≡ k)
      → IsTable m' h (update f k xs)
  IsTable-update hk fresh l same sub here = record {
    some_bucket = t.some_bucket;
    bucket = λ i hi. elim (Bool-cases (i == k)) [
      | inl e ↦ let e' : i ≡ k = ground arith in rw e (subst (λ j. IsList m' (at j) xs) (sym e') l)
      | inr e ↦ rw e (
          IsList-frame (f i) (new ++ footprint (at k) (f k)) same (ground arith)
            (λ q hq. other i hi (ground arith) q hq) (t.bucket i hi))
    ];
    apart = λ i j hi hj ne q hq.
        apart_cases i j hi hj ne q hq (Bool-cases (i == k)) (Bool-cases (j == k));
    placed = λ i x hi hx. ground (arith, here x, t.placed i x);
  }
    where
      other :
          (i : ℕ)
          → i < h.buckets
          → i ≢ k
          → (q : ℕ) → q ∈ footprint (at i) (f i)
          → q ∉ (new ++ footprint (at k) (f k))
      other i hi ne q hq = ground (
        arith,
        has-append q new (footprint (at k) (f k)),
        fresh i hi q,
        t.apart i k hi hk ne q hq,
      )

      at_k :
          (i : ℕ)
          → (i == k) ≡ true
          → (q : ℕ) → has q (footprint (at i) (update f k xs i)) ≡ has q (footprint (at k) xs)
      at_k i e q =
          let e' : i ≡ k = ground arith in
          rw e
            (subst (λ j. has q (footprint (at j) xs) ≡ has q (footprint (at k) xs)) (sym e') refl)

      off_k :
          (i : ℕ)
          → (i == k) ≡ false
          → (q : ℕ) → has q (footprint (at i) (update f k xs i)) ≡ has q (footprint (at i) (f i))
      off_k i e q = rw e

      apart_cases :
          (i j : ℕ)
          → i < h.buckets
          → j < h.buckets
          → i ≢ j
          → (q : ℕ) → q ∈ footprint (at i) (update f k xs i)
          → ((i == k) ≡ true) ⊎ ((i == k) ≡ false)
          → ((j == k) ≡ true) ⊎ ((j == k) ≡ false)
          → q ∉ footprint (at j) (update f k xs j)
      apart_cases i j hi hj ne q hq (inl a) (inl b) = absurd (ground arith)
      apart_cases i j hi hj ne q hq (inl a) (inr b) =
          let in_k : q ∈ footprint (at k) xs = sym (at_k i a q) ∙ hq in
          off_k j b q ∙ elim (Bool-cases (has q (footprint (at j) (f j)))) [
            | inl c ↦ absurd (
                not_both (has q (new ++ footprint (at k) (f k))) (sub q in_k)
                  (other j hj (ground arith) q c))
            | inr c ↦ c
          ]
      apart_cases i j hi hj ne q hq (inr a) (inl b) =
          let out = other i hi (ground arith) q (sym (off_k i a q) ∙ hq) in
          at_k j b q ∙ elim (Bool-cases (has q (footprint (at k) xs))) [
            | inl c ↦ absurd (not_both (has q (new ++ footprint (at k) (f k))) (sub q c) out)
            | inr c ↦ c
          ]
      apart_cases i j hi hj ne q hq (inr a) (inr b) =
          off_k j b q ∙ t.apart i j hi hj ne q (sym (off_k i a q) ∙ hq)

has-without : (eq : ℕ → ℕ → Bool) (e x : ℕ) (xs : List ℕ) → x ∈ without eq e xs → x ∈ xs
has-without eq e x xs h = elim (Bool-cases (has x xs)) [
  | inl c ↦ c
  | inr c ↦ ground (arith, not-mem-without eq e x xs c)
]

-- The count of entries is no part of it.
IsTable-recount :
    {m : Mem} {h : Hashtable} {f : ℕ → List ℕ}
    → IsTable m h f
    → (n : ℕ) → IsTable m (record h { entries = n }) f
IsTable-recount t n = record {
  some_bucket = t.some_bucket;
  bucket = t.bucket;
  apart = t.apart;
  placed = t.placed;
}

footprint-has-without :
    (eq : ℕ → ℕ → Bool) (e q li : ℕ) (xs : List ℕ)
    → q ∈ footprint li (without eq e xs)
    → q ∈ footprint li xs
footprint-has-without eq e q li xs h = elim (Bool-cases (has q (footprint li xs))) [
  | inl c ↦ c
  | inr c ↦
      absurd
        (not_both (has q (footprint li (without eq e xs))) h (footprint-without eq e q li xs c))
]

module _ {m : Mem} {h : Hashtable} {f : ℕ → List ℕ} (e : ℕ) (t : IsTable m h f) where
  index-lt : index_of h e < h.buckets
  index-lt = let p = t.some_bucket in ground arith

  own : IsList m (bucket_of h e) (f (index_of h e))
  unfolding bucket_of
  own = t.bucket (index_of h e) index-lt

  -- hashtable_find returns the first element of its bucket that equals `e`, or `NULL`.
  pub find_lem : hashtable_find h e m ≡ (
      let xs = f (index_of h e) in
      if has_match h.eq e xs then match_or h.eq e xs (list_end (bucket_of h e)) else null)
  find_lem = find_bucket h e m (f (index_of h e)) own

  -- hashtable_remove leaves a table without the first element that equals `e`; the header, and so
  -- the count of entries, stays as it was.
  pub remove-IsTable :
      let (h', m') = hashtable_remove h e m in (h' ≡ h) × IsTable m' h (removed h e f)
  unfolding bucket_of
  remove-IsTable =
      let k = index_of h e in
      let (header, is, same) = remove_bucket h e m (f k) own in
      (
        header,
        IsTable-update t _ k (without h.eq e (f k)) [] index-lt (λ i hi q hq. ground arith) is same
            (λ q hq. footprint-has-without h.eq e q (bucket_at h.bucket_con k) (f k) hq)
            (λ x hx. t.placed k x index-lt (has-without h.eq e x (f k) hx)),
      )

  -- hashtable_insert of an element that is nowhere in the table, into a bucket whose new length is
  -- a word, leaves a table with the element behind its bucket, in place of the first one that
  -- equals it, and counts it if there was none.
  pub insert-IsTable :
      ((i : ℕ) → i < h.buckets → e ∉ footprint (bucket_at h.bucket_con i) (f i))
      → length (f (index_of h e)) + 1 < word_limit
      → let (h', m') = hashtable_insert h e m in
        (h'.entries ≡ (
          if has_match h.eq e (f (index_of h e)) then h.entries else (h.entries + 1) % word_limit))
        × IsTable m' h' (inserted h e f)
  unfolding bucket_of
  insert-IsTable fresh room =
      let k = index_of h e in
      let (header, is, same) = insert_bucket h e m (f k) own (fresh k index-lt) room in
      let t' =
        IsTable-update t _ k (without h.eq e (f k) ++ (e ∷ [])) (e ∷ []) index-lt
          (λ i hi q hq.
            let q' : q ≡ e = ground arith in
            subst (λ x. x ∉ footprint (bucket_at h.bucket_con i) (f i)) (sym q') (fresh i hi))
          is same
          (λ q hq. ground (
            arith,
            footprint-without h.eq e q (bucket_at h.bucket_con k) (f k),
            has-append q (without h.eq e (f k) ++ (e ∷ []))
                (tail_of (bucket_at h.bucket_con k) ∷ []),
            has-append q (without h.eq e (f k)) (e ∷ []),
            has-append q (without h.eq e (f k)) (tail_of (bucket_at h.bucket_con k) ∷ []),
          ))
          (λ x hx. ground (
            arith,
            has-append x (without h.eq e (f k)) (e ∷ []),
            has-without h.eq e x (f k),
            t.placed k x index-lt,
          )) in
      elim (Bool-cases (has_match h.eq e (f k))) [
        | inl p ↦
            let same_header = header ∙ (rw p) in
            (
              rw (same_header, p),
              subst (λ g. IsTable (hashtable_insert h e m).1 g (inserted h e f)) (sym same_header)
                  t',
            )
        | inr p ↦
            let new_header = header ∙ (rw p) in
            (
              rw (new_header, p),
              subst (λ g. IsTable (hashtable_insert h e m).1 g (inserted h e f)) (sym new_header)
                  (IsTable-recount t' ((h.entries + 1) % word_limit)),
            )
      ]
