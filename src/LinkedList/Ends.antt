-- ===== src/LinkedList/Ends.antt =====
-- The first and the last element of a chain, and putting an element in between two of its addresses.
use dunkos.Common.{ℕ, ◌≡◌, arith}
use dunkos.Common.{List, [], ◌∷◌, ◌++◌, ◌==◌, if◌then◌else◌}
use dunkos.Common.{◌∈◌, ◌∉◌, Distinct, has-append, ne-of-mem}
use dunkos.LinkedList.Defs.{Mem}
use dunkos.LinkedList.Chain.{Chain, Chain-frame}

abbrev pub last_of : ℕ → List ℕ → ℕ
last_of a [] = a
last_of a (x ∷ xs) = last_of x xs

abbrev pub first_of : List ℕ → ℕ → ℕ
first_of [] b = b
first_of (y ∷ ys) b = y

pub last_of-mem : (a : ℕ) (xs : List ℕ) → last_of a xs ∈ (a ∷ xs)
last_of-mem a [] = ground arith
last_of-mem a (x ∷ xs) = ground (arith, last_of-mem x xs)

pub first_of-mem : (ys : List ℕ) (b : ℕ) → first_of ys b ∈ (ys ++ (b ∷ []))
first_of-mem [] b = ground arith
first_of-mem (y ∷ ys) b = ground arith

pub next-first_of :
    (m : Mem) (a : ℕ) (xs : List ℕ) (b : ℕ) → Chain m a xs b → m.next a ≡ first_of xs b
next-first_of m a [] b c = c.0
next-first_of m a (x ∷ xs) b c = c.0

pub prev-last_of :
    (m : Mem) (a : ℕ) (xs : List ℕ) (b : ℕ) → Chain m a xs b → m.prev b ≡ last_of a xs
prev-last_of m a [] b c = c.1
prev-last_of m a (x ∷ xs) b c = prev-last_of m x xs b c.2

-- `m'` is `m` with `el` linked in between `p` and `n`.
pub record IsInserted (m m' : Mem) (p el n : ℕ) : Type 0 where
  pub next : (q : ℕ) → m'.next q ≡ (if q == el then n else if q == p then el else m.next q)
  pub prev : (q : ℕ) → m'.prev q ≡ (if q == el then p else if q == n then el else m.prev q)

module _ (m m' : Mem) (el b : ℕ) (ys : List ℕ) where
  Chain-insert_here :
      (a : ℕ)
      → Distinct (a ∷ (ys ++ (b ∷ [])))
      → el ∉ (a ∷ (ys ++ (b ∷ [])))
      → IsInserted m m' a el (first_of ys b)
      → Chain m a ys b
      → Chain m' a (el ∷ ys) b
  Chain-insert_here a d out ins c = ground (arith, ins.next a, ins.prev el, rest ys d out ins c)
    where
      rest :
          (zs : List ℕ)
          → Distinct (a ∷ (zs ++ (b ∷ [])))
          → el ∉ (a ∷ (zs ++ (b ∷ [])))
          → IsInserted m m' a el (first_of zs b)
          → Chain m a zs b
          → Chain m' el zs b
      rest [] d out i c = ground (arith, i.next el, i.prev b)
      rest (z ∷ zs) d out i c = (
        ground (arith, i.next el),
        ground (arith, i.prev z),
        Chain-frame m m' b z zs
            (λ q h. ground (
              arith,
              i.next q,
              ne-of-mem a q (z ∷ zs) (ground (arith, has-append a zs (b ∷ []))) h,
              ne-of-mem el q (z ∷ zs) (ground (arith, has-append el zs (b ∷ []))) h,
            ))
            (λ q h. ground (
              arith,
              i.prev q,
              ne-of-mem z q (zs ++ (b ∷ [])) d.1.0 h,
              ne-of-mem el q (zs ++ (b ∷ [])) (ground arith) h,
            ))
            c.2,
      )

  -- Linking `el` in after `xs` inserts it in the chain there.
  pub Chain-insert :
      (a : ℕ) (xs : List ℕ)
      → Distinct (a ∷ (xs ++ (ys ++ (b ∷ []))))
      → el ∉ (a ∷ (xs ++ (ys ++ (b ∷ []))))
      → IsInserted m m' (last_of a xs) el (first_of ys b)
      → Chain m a (xs ++ ys) b
      → Chain m' a (xs ++ (el ∷ ys)) b
  Chain-insert a [] d out i c = Chain-insert_here a d out i c
  Chain-insert a (x ∷ xs) d out i c = (
    ground (
      arith,
      i.next a,
      ne-of-mem a (last_of x xs) (x ∷ xs) (ground (arith, has-append a (x ∷ xs) (ys ++ (b ∷ []))))
          (last_of-mem x xs),
    ),
    ground (
      arith,
      i.prev x,
      ne-of-mem x (first_of ys b) (ys ++ (b ∷ []))
          (ground (arith, has-append x xs (ys ++ (b ∷ [])))) (first_of-mem ys b),
    ),
    Chain-insert x xs d.1 (ground arith) i c.2,
  )
