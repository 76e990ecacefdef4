-- ===== src/LinkedList/Chain.antt =====
-- What a well-formed list is: linked both ways through distinct elements, with its length stored.
use dunkos.Common.{ℕ, ◌<◌, ◌≡◌, refl, false, List, [], ◌∷◌, ◌++◌, arith}
use dunkos.Common.{◌==◌, length, word_limit, ◌∈◌, ◌∉◌, Distinct, has-append}
use dunkos.LinkedList.Defs.{Mem, tail_of}

-- From `a` the pointers lead through `xs` to `b`, forwards and backwards.
abbrev pub Chain : Mem → ℕ → List ℕ → ℕ → Type 0
Chain m a [] b = (m.next a ≡ b) × (m.prev b ≡ a)
Chain m a (x ∷ xs) b = (m.next a ≡ x) × (m.prev x ≡ a) × Chain m x xs b

-- Every address that belongs to the list at `li` with elements `xs`.
abbrev pub footprint : ℕ → List ℕ → List ℕ
footprint li xs = li ∷ (xs ++ (tail_of li ∷ []))

-- The list at `li` holds exactly the elements `xs`, in order.
pub record IsList (m : Mem) (li : ℕ) (xs : List ℕ) : Type 0 where
  pub chain : Chain m li xs (tail_of li)
  pub distinct : Distinct (footprint li xs)
  pub size : m.size li ≡ length xs
  pub small : length xs < word_limit

-- `m'` has the pointers of `m` at every address outside `ps`, and every size but that at `li`.
pub record SameOutside (ps : List ℕ) (li : ℕ) (m m' : Mem) : Type 0 where
  pub next : (q : ℕ) → q ∉ ps → m'.next q ≡ m.next q
  pub prev : (q : ℕ) → q ∉ ps → m'.prev q ≡ m.prev q
  pub size : (l : ℕ) → (l == li) ≡ false → m'.size l ≡ m.size l

module _ (m m' : Mem) (b : ℕ) where
  -- A chain survives a change that spares the pointers that it consists of.
  pub Chain-frame :
      (a : ℕ) (xs : List ℕ)
      → ((q : ℕ) → q ∈ (a ∷ xs) → m'.next q ≡ m.next q)
      → ((q : ℕ) → q ∈ (xs ++ (b ∷ [])) → m'.prev q ≡ m.prev q)
      → Chain m a xs b
      → Chain m' a xs b
  Chain-frame a [] fn fp c = ground (arith, fn a, fp b)
  Chain-frame a (x ∷ xs) fn fp c = (
    ground (arith, fn a),
    ground (arith, fp x),
    Chain-frame x xs (λ q h. fn q (ground arith)) (λ q h. fp q (ground arith)) c.2,
  )

module _ (m : Mem) (el b : ℕ) (ys : List ℕ) where
  -- The neighbours of an element of a chain are in the chain.
  pub prev-mem : (a : ℕ) (xs : List ℕ) → Chain m a (xs ++ (el ∷ ys)) b → m.prev el ∈ (a ∷ xs)
  prev-mem a [] c = ground arith
  prev-mem a (x ∷ xs) c = ground (arith, prev-mem x xs c.2)

  pub Chain-drop : (a : ℕ) (xs : List ℕ) → Chain m a (xs ++ (el ∷ ys)) b → Chain m el ys b
  Chain-drop a [] c = c.2
  Chain-drop a (x ∷ xs) c = Chain-drop x xs c.2

pub next-mem : (m : Mem) (b el : ℕ) (ys : List ℕ) → Chain m el ys b → m.next el ∈ (ys ++ (b ∷ []))
next-mem m b el [] c = ground arith
next-mem m b el (y ∷ ys) c = ground arith

-- A list survives a change at addresses that it does not have.
pub IsList-frame :
    {m m' : Mem} {li lj : ℕ} (xs ps : List ℕ)
    → SameOutside ps lj m m'
    → (li == lj) ≡ false
    → ((q : ℕ) → q ∈ footprint li xs → q ∉ ps)
    → IsList m li xs
    → IsList m' li xs
IsList-frame {m} {m'} {li} xs ps same ne apart l = record {
  chain =
      Chain-frame m m' (tail_of li) li xs
        (λ q h. same.next q (apart q (ground (arith, has-append q (li ∷ xs) (tail_of li ∷ [])))))
        (λ q h. same.prev q (apart q (ground arith))) l.chain;
  distinct = l.distinct;
  size = ground (arith, same.size li, l.size);
  small = l.small;
}

pub SameOutside-trans :
    {m m₁ m₂ : Mem} {li : ℕ} (ps qs : List ℕ)
    → ((q : ℕ) → q ∉ ps → q ∉ qs)
    → SameOutside qs li m m₁
    → SameOutside ps li m₁ m₂
    → SameOutside ps li m m₂
SameOutside-trans ps qs sub s t = record {
  next = λ q h. ground (arith, t.next q h, s.next q (sub q h));
  prev = λ q h. ground (arith, t.prev q h, s.prev q (sub q h));
  size = λ l h. ground (arith, t.size l h, s.size l h);
}

pub SameOutside-widen :
    {m m' : Mem} {li : ℕ} (ps qs : List ℕ)
    → ((q : ℕ) → q ∉ ps → q ∉ qs)
    → SameOutside qs li m m'
    → SameOutside ps li m m'
SameOutside-widen ps qs sub s = record {
  next = λ q h. s.next q (sub q h);
  prev = λ q h. s.prev q (sub q h);
  size = s.size;
}

pub SameOutside-refl : (ps : List ℕ) (li : ℕ) (m : Mem) → SameOutside ps li m m
SameOutside-refl ps li m = record { next = λ q h. refl; prev = λ q h. refl; size = λ l h. refl }
