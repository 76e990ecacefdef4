-- ===== src/LinkedList/Insert.antt =====
-- list_init, list_push_back and list_push_front keep a list well formed.
use dunkos.Common.{ℕ, ◌+◌, ◌%◌, ◌<◌, ◌≡◌, refl, true, false, arith, ap, sym}
use dunkos.Common.{
  List, [], ◌∷◌, ◌++◌, ◌==◌, if◌then◌else◌, length, length-append, word_limit, Bool-cases, inl, inr,
}
use mathlib.Core.List.{append_assoc, append-nil}
use dunkos.Common.{Distinct-insert, ◌∈◌, ◌∉◌, Distinct, has-append, ne-of-mem}
use dunkos.LinkedList.Defs.{Mem, tail_of}
use dunkos.LinkedList.Defs.{list_init, list_empty, list_push_back, list_push_front}
use dunkos.LinkedList.Chain.{footprint, IsList, SameOutside}
use dunkos.LinkedList.Ends.{
  last_of, first_of, last_of-mem, first_of-mem, next-first_of, prev-last_of, IsInserted,
  Chain-insert,
}

-- A list is empty exactly when its chain is.
pub list_empty-IsList :
    {m : Mem} {li : ℕ} (xs : List ℕ) → IsList m li xs → list_empty li m ≡ (length xs == 0)
unfolding list_empty
list_empty-IsList xs l = ground arith

pub el-ne-tail : (el li : ℕ) (xs : List ℕ) → el ∉ footprint li xs → (el == tail_of li) ≡ false
el-ne-tail el li xs fresh = ground (arith, has-append el xs (tail_of li ∷ []))

module _ {m : Mem} {li el : ℕ} (xs : List ℕ) (l : IsList m li xs)
    (fresh : el ∉ footprint li xs) where
  push_back-IsInserted : IsInserted m (list_push_back li el m) (last_of li xs) el (tail_of li)
  unfolding list_push_back
  push_back-IsInserted = elim (Bool-cases (list_empty li m)) [
    | inl e ↦ record {
      next = λ q. rw e (ground (arith, list_empty-IsList xs l, empty_last xs));
      prev = λ q.
          rw e (ground (arith, el-ne-tail el li xs fresh, list_empty-IsList xs l, empty_last xs));
    }
    | inr e ↦ record {
      next = λ q. rw e (ground (arith, prev-last_of m li xs (tail_of li) l.chain));
      prev = λ q.
          rw e
            (ground (arith, el-ne-tail el li xs fresh, prev-last_of m li xs (tail_of li) l.chain));
    }
  ]
    where
      empty_last : (ys : List ℕ) → (length ys == 0) ≡ true → last_of li ys ≡ li
      empty_last [] h = refl
      empty_last (y ∷ ys) h = ground arith

  push_front-IsInserted : IsInserted m (list_push_front li el m) li el (first_of xs (tail_of li))
  unfolding list_push_front
  push_front-IsInserted = elim (Bool-cases (list_empty li m)) [
    | inl e ↦ record {
      next = λ q. rw e (ground (arith, list_empty-IsList xs l, empty_first xs));
      prev = λ q. rw e (ground (arith, list_empty-IsList xs l, empty_first xs));
    }
    | inr e ↦ record {
      next = λ q. rw e (ground (arith, next-first_of m li xs (tail_of li) l.chain));
      prev = λ q. rw e (ground (arith, next-first_of m li xs (tail_of li) l.chain));
    }
  ]
    where
      empty_first :
          (ys : List ℕ) → (length ys == 0) ≡ true → first_of ys (tail_of li) ≡ (tail_of li)
      empty_first [] h = refl
      empty_first (y ∷ ys) h = ground arith

  -- The part of the invariant that both pushes share.
  IsList-insert :
      (m' : Mem) (ys zs : List ℕ)
      → xs ≡ ys ++ zs
      → length xs + 1 < word_limit
      → IsInserted m m' (last_of li ys) el (first_of zs (tail_of li))
      → m'.size li ≡ (m.size li + 1) % word_limit
      → IsList m' li (ys ++ (el ∷ zs))
  IsList-insert m' ys zs e room ins size =
      let out : el ∉ (li ∷ (ys ++ (zs ++ (tail_of li ∷ [])))) = rw (← append_assoc, ← e) fresh in
      let d : Distinct (li ∷ (ys ++ (zs ++ (tail_of li ∷ [])))) =
        rw (← append_assoc, ← e) l.distinct in
      record {
        chain = Chain-insert m m' el (tail_of li) zs li ys d out ins (rw (← e) l.chain);
        distinct = rw append_assoc (Distinct-insert el (li ∷ ys) (zs ++ (tail_of li ∷ [])) d out);
        size =
            omega
              (arith, size, l.size, ap length e, length-append ys zs, length-append ys (el ∷ zs));
        small = omega (arith, ap length e, length-append ys zs, length-append ys (el ∷ zs));
      }

-- Linking an element in between two addresses of `ps` changes pointers at `ps` and the element.
IsInserted-SameOutside :
    (m m' : Mem) (p el n li : ℕ) (ps : List ℕ)
    → IsInserted m m' p el n
    → p ∈ ps
    → n ∈ ps
    → ((l : ℕ) → (l == li) ≡ false → m'.size l ≡ m.size l)
    → SameOutside (el ∷ ps) li m m'
IsInserted-SameOutside m m' p el n li ps i hp hn hs = record {
  next = λ q out. ground (arith, i.next q, ne-of-mem q p ps (ground arith) hp);
  prev = λ q out. ground (arith, i.prev q, ne-of-mem q n ps (ground arith) hn);
  size = hs;
}

last_of-footprint : (li : ℕ) (xs : List ℕ) → last_of li xs ∈ footprint li xs
last_of-footprint li xs =
    ground (arith, last_of-mem li xs, has-append (last_of li xs) (li ∷ xs) (tail_of li ∷ []))

push_back-size :
    (m : Mem) (li el l : ℕ)
    → (list_push_back li el m).size l ≡ (if l == li then (m.size li + 1) % word_limit else m.size l)
unfolding list_push_back
push_back-size m li el l = ground arith

push_front-size :
    (m : Mem) (li el l : ℕ)
    → (list_push_front li el m).size l
      ≡ (if l == li then (m.size li + 1) % word_limit else m.size l)
unfolding list_push_front
push_front-size m li el l = ground arith

-- Appending an element that is not yet in a list, whose new length is a word, gives the list with
-- the element behind it, and touches no pointer outside the list and the element, and no other
-- list's size.
pub push_back-IsList :
    {m : Mem} {li el : ℕ} (xs : List ℕ)
    → IsList m li xs
    → el ∉ footprint li xs
    → length xs + 1 < word_limit
    → IsList (list_push_back li el m) li (xs ++ (el ∷ []))
      × SameOutside (el ∷ footprint li xs) li m (list_push_back li el m)
push_back-IsList {m} {li} {el} xs l fresh room =
    let ins = push_back-IsInserted xs l fresh in
    let m' = list_push_back li el m in
    (
      IsList-insert xs l fresh m' xs [] (sym (append-nil xs)) room ins
          (ground (arith, push_back-size m li el li)),
      IsInserted-SameOutside m m' _ el _ li (footprint li xs) ins (last_of-footprint li xs)
          (ground (
            arith,
            first_of-mem [] (tail_of li),
            has-append (tail_of li) (li ∷ xs) (tail_of li ∷ []),
          ))
          (λ q ne. ground (arith, push_back-size m li el q)),
    )

-- Prepending an element that is not yet in a list, whose new length is a word, gives the list with
-- the element in front, and touches no pointer outside the list and the element, and no other
-- list's size.
pub push_front-IsList :
    {m : Mem} {li el : ℕ} (xs : List ℕ)
    → IsList m li xs
    → el ∉ footprint li xs
    → length xs + 1 < word_limit
    → IsList (list_push_front li el m) li (el ∷ xs)
      × SameOutside (el ∷ footprint li xs) li m (list_push_front li el m)
push_front-IsList {m} {li} {el} xs l fresh room =
    let ins = push_front-IsInserted xs l fresh in
    let m' = list_push_front li el m in
    (
      IsList-insert xs l fresh m' [] xs refl room ins (ground (arith, push_front-size m li el li)),
      IsInserted-SameOutside m m' li el _ li (footprint li xs) ins (ground arith)
          (ground (arith, first_of-mem xs (tail_of li)))
          (λ q ne. ground (arith, push_front-size m li el q)),
    )

-- `list_init` makes an empty list.
pub init-IsList : (m : Mem) (li : ℕ) → IsList (list_init li m) li []
unfolding list_init
init-IsList m li = record {
  chain = ground arith;
  distinct = ground arith;
  size = ground arith;
  small = omega arith;
}
