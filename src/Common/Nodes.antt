-- ===== src/Common/Nodes.antt =====
-- Finite sets of addresses as lists: membership as a test, and distinctness.
use Prim.Native.Nat.{ℕ}
use mathlib.Core.Path.{◌≡◌, refl}
use mathlib.Core.Bool.{Bool, true, false, ◌||◌}
use mathlib.Core.List.{List, [], ◌∷◌, ◌++◌}
use native.Mathlib.Omega.{arith}
use dunkos.Common.Tests.{◌==◌}

abbrev pub has : ℕ → List ℕ → Bool
has a [] = false
has a (x ∷ xs) = (a == x) || has a xs

infix 40 ◌∈◌ ◌∉◌
abbrev pub ◌∈◌ : ℕ → List ℕ → Type 0
a ∈ xs = has a xs ≡ true

abbrev pub ◌∉◌ : ℕ → List ℕ → Type 0
a ∉ xs = has a xs ≡ false

-- No address stands twice in the list.
abbrev pub Distinct : List ℕ → Type 0
Distinct [] = Unit
Distinct (x ∷ xs) = (x ∉ xs) × Distinct xs

pub has-append : (a : ℕ) (xs ys : List ℕ) → has a (xs ++ ys) ≡ (has a xs || has a ys)
has-append a [] ys = refl
has-append a (x ∷ xs) ys = ground (arith, has-append a xs ys)

pub ne-of-mem : (a b : ℕ) (xs : List ℕ) → a ∉ xs → b ∈ xs → (a == b) ≡ false
ne-of-mem a b [] h k = ground arith
ne-of-mem a b (x ∷ xs) h k = ground (arith, ne-of-mem a b xs)

-- Distinctness of a joined list: of both parts, and no address in both.
pub Distinct-drop : (xs ys : List ℕ) → Distinct (xs ++ ys) → Distinct ys
Distinct-drop [] ys d = d
Distinct-drop (x ∷ xs) ys d = Distinct-drop xs ys d.1

pub Distinct-apart : (a : ℕ) (xs ys : List ℕ) → Distinct (xs ++ ys) → a ∈ xs → a ∉ ys
Distinct-apart a [] ys d m = ground arith
Distinct-apart a (x ∷ xs) ys d m =
    ground (arith, ==_subst, has-append x xs ys, Distinct-apart a xs ys d.1)
  where
    ==_subst : (a == x) ≡ true → has a ys ≡ has x ys
    ==_subst e = ground arith

-- One more address, wherever it is put in.
pub has-insert :
    (a el : ℕ) (xs ys : List ℕ) → has a (xs ++ (el ∷ ys)) ≡ ((a == el) || has a (xs ++ ys))
has-insert a el [] ys = refl
has-insert a el (x ∷ xs) ys = ground (arith, has-insert a el xs ys)

pub Distinct-insert :
    (el : ℕ) (xs ys : List ℕ) → Distinct (xs ++ ys) → el ∉ (xs ++ ys) → Distinct (xs ++ (el ∷ ys))
Distinct-insert el [] ys d h = (h, d)
Distinct-insert el (x ∷ xs) ys d h =
    (ground (arith, has-insert x el xs ys), Distinct-insert el xs ys d.1 (ground arith))

pub Distinct-delete :
    (el : ℕ) (xs ys : List ℕ) → Distinct (xs ++ (el ∷ ys)) → Distinct (xs ++ ys) × (el ∉ (xs ++ ys))
Distinct-delete el [] ys d = (d.1, d.0)
Distinct-delete el (x ∷ xs) ys d =
    let rest = Distinct-delete el xs ys d.1 in
    ((ground (arith, has-insert x el xs ys), rest.0), ground (arith, has-insert x el xs ys, rest.1))

pub Distinct-last : (b : ℕ) (xs : List ℕ) → Distinct (xs ++ (b ∷ [])) → b ∉ xs
Distinct-last b xs d = ground (arith, (Distinct-delete b xs [] d).1, has-append b xs [])
