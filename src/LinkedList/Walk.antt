-- ===== src/LinkedList/Walk.antt =====
-- list_begin, list_end and list_next visit the elements of a list in order.
use mathlib.Core.List.{foldl}
use dunkos.Common.{ℕ, zero, suc, ◌<◌, ◌≡◌, false, arith}
use dunkos.Common.{List, [], ◌∷◌, ◌==◌, length, ◌∉◌, Distinct-last}
use dunkos.LinkedList.Defs.{Mem, tail_of, list_begin, list_next, list_fold, list_foreach}
use dunkos.LinkedList.Chain.{Chain, IsList}
use dunkos.LinkedList.Ends.{first_of, next-first_of}
use dunkos.LinkedList.Insert.{list_empty-IsList}

-- `list_begin` is the first element, and the tail sentinel for an empty list.
pub begin-first_of :
    {m : Mem} {li : ℕ} (xs : List ℕ) → IsList m li xs → list_begin li m ≡ first_of xs (tail_of li)
unfolding list_begin
begin-first_of [] l = ground (arith, list_empty-IsList [] l)
begin-first_of (x ∷ xs) l = ground (arith, list_empty-IsList (x ∷ xs) l, l.chain)

module _ {ℓ} {S : Type ℓ} (m : Mem) (action : ℕ → S → S) (b : ℕ) where
  fold-foldl :
      (fuel a : ℕ) (xs : List ℕ) (s : S)
      → b ∉ xs
      → length xs < fuel
      → Chain m a xs b
      → list_fold fuel action b (first_of xs b) m s ≡ foldl (λ t x. action x t) s xs
  unfolding list_fold list_next
  fold-foldl zero a xs s out h c = absurd (omega arith)
  fold-foldl (suc fuel) a [] s out h c = ground arith
  fold-foldl (suc fuel) a (x ∷ xs) s out h c =
      let apart : (x == b) ≡ false = ground arith in
      rw (apart, list_fold)
        (rw (next-first_of m x xs b c.2)
          (fold-foldl fuel x xs (action x s) (ground arith) (omega arith) c.2))

-- `list_foreach` applies the action to every element once, from the front to the back, and ends.
pub foreach-foldl {ℓ} :
    {S : Type ℓ} {m : Mem} {li : ℕ} (action : ℕ → S → S) (xs : List ℕ) (s : S)
    → IsList m li xs
    → list_foreach action li m s ≡ foldl (λ t x. action x t) s xs
unfolding list_foreach
foreach-foldl {m} {li} action xs s l = rw (begin-first_of xs l) (
    fold-foldl m action (tail_of li) (suc (m.size li)) li xs s
      (Distinct-last (tail_of li) xs l.distinct.1) (omega (arith, l.size)) l.chain)
