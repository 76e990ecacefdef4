-- ===== src/LinkedList/Remove.antt =====
-- list_remove, list_pop_front and list_pop_back keep a list well formed.
use mathlib.Core.List.{append_assoc, append-nil}
use mathlib.Core.Path.{subst}
use dunkos.Common.{ℕ, ◌+◌, ◌-◌, ◌%◌, ◌≡◌, refl, false, arith, ap, sym, ◌∙◌}
use dunkos.Common.{List, [], ◌∷◌, ◌++◌, ◌==◌, if◌then◌else◌, length-append, word_limit}
use dunkos.Common.{◌∈◌, ◌∉◌, Distinct, has-append, ne-of-mem, Distinct-delete}
use dunkos.LinkedList.Defs.{Mem, tail_of, unlink, dec_size}
use dunkos.LinkedList.Defs.{list_empty, list_remove, list_pop_front, list_pop_back}
use dunkos.LinkedList.Chain.{Chain, footprint, IsList, SameOutside}
use dunkos.LinkedList.Chain.{Chain-frame, Chain-drop, prev-mem, next-mem}
use dunkos.LinkedList.Ends.{prev-last_of, last_of}
use dunkos.LinkedList.Insert.{list_empty-IsList}

-- `m'` is `m` with `p` and `n` linked to each other.
record IsJoined (m m' : Mem) (p n : ℕ) : Type 0 where
  next : (q : ℕ) → m'.next q ≡ (if q == p then n else m.next q)
  prev : (q : ℕ) → m'.prev q ≡ (if q == n then p else m.prev q)

module _ (m m' : Mem) (el b : ℕ) (i : IsJoined m m' (m.prev el) (m.next el)) where
  Chain-remove_here :
      (a : ℕ) (ys : List ℕ)
      → Distinct (a ∷ (ys ++ (b ∷ [])))
      → Chain m a (el ∷ ys) b
      → Chain m' a ys b
  Chain-remove_here a [] d c = ground (arith, i.next a, i.prev b)
  Chain-remove_here a (y ∷ ys) d c = (
    ground (arith, i.next a),
    ground (arith, i.prev y),
    Chain-frame m m' b y ys
        (λ q h.
          ground
            (arith, i.next q, ne-of-mem a q (y ∷ ys) (ground (arith, has-append a ys (b ∷ []))) h))
        (λ q h. ground (arith, i.prev q, ne-of-mem y q (ys ++ (b ∷ [])) d.1.0 h)) c.2.2,
  )

  -- Joining the neighbours of an element takes it out of its chain.
  Chain-remove :
      (a : ℕ) (xs ys : List ℕ)
      → Distinct (a ∷ (xs ++ (ys ++ (b ∷ []))))
      → Chain m a (xs ++ (el ∷ ys)) b
      → Chain m' a (xs ++ ys) b
  Chain-remove a [] ys d c = Chain-remove_here a ys d c
  Chain-remove a (x ∷ xs) ys d c = (
    ground (
      arith,
      i.next a,
      ne-of-mem a (m.prev el) (x ∷ xs) (ground (arith, has-append a (x ∷ xs) (ys ++ (b ∷ []))))
          (prev-mem m el b ys x xs c.2),
    ),
    ground (
      arith,
      i.prev x,
      ne-of-mem x (m.next el) (ys ++ (b ∷ [])) (ground (arith, has-append x xs (ys ++ (b ∷ []))))
          (next-mem m b el ys (Chain-drop m el b ys x xs c.2)),
    ),
    Chain-remove x xs ys d.1 c.2,
  )

unlink-IsJoined :
    (m : Mem) (li el : ℕ) → IsJoined m (dec_size li (unlink el m)) (m.prev el) (m.next el)
unfolding unlink
unlink-IsJoined m li el = record { next = λ q. refl; prev = λ q. refl }

-- What `list_remove` does to a list that is not empty.
module _ (m m' : Mem) (li el : ℕ) (xs ys : List ℕ) (l : IsList m li (xs ++ (el ∷ ys))) where
  split_footprint : footprint li (xs ++ (el ∷ ys)) ≡ (li ∷ xs) ++ (el ∷ (ys ++ (tail_of li ∷ [])))
  split_footprint = rw append_assoc

  delete-Distinct :
      Distinct (li ∷ (xs ++ (ys ++ (tail_of li ∷ []))))
      × (el ∉ (li ∷ (xs ++ (ys ++ (tail_of li ∷ [])))))
  delete-Distinct =
      Distinct-delete el (li ∷ xs) (ys ++ (tail_of li ∷ [])) (rw append_assoc at l.distinct)

  IsList-delete :
      IsJoined m m' (m.prev el) (m.next el)
      → m'.size li ≡ (m.size li + word_limit - 1) % word_limit
      → IsList m' li (xs ++ ys)
  IsList-delete i size = record {
    chain = Chain-remove m m' el (tail_of li) i li xs ys delete-Distinct.0 l.chain;
    distinct = rw append_assoc delete-Distinct.0;
    size = omega (arith, l.small, size, l.size, length-append xs ys, length-append xs (el ∷ ys));
    small = omega (arith, l.small, length-append xs ys, length-append xs (el ∷ ys));
  }

  prev-footprint : m.prev el ∈ footprint li (xs ++ (el ∷ ys))
  prev-footprint =
      subst (λ f. m.prev el ∈ f) (sym split_footprint)
        (ground (
          arith,
          has-append (m.prev el) (li ∷ xs) (el ∷ (ys ++ (tail_of li ∷ []))),
          prev-mem m el (tail_of li) ys li xs l.chain,
        ))

  next-footprint : m.next el ∈ footprint li (xs ++ (el ∷ ys))
  next-footprint =
      subst (λ f. m.next el ∈ f) (sym split_footprint)
        (ground (
          arith,
          has-append (m.next el) (li ∷ xs) (el ∷ (ys ++ (tail_of li ∷ []))),
          next-mem m (tail_of li) el ys (Chain-drop m el (tail_of li) ys li xs l.chain),
        ))

  SameOutside-delete :
      IsJoined m m' (m.prev el) (m.next el)
      → ((k : ℕ) → (k == li) ≡ false → m'.size k ≡ m.size k)
      → SameOutside (footprint li (xs ++ (el ∷ ys))) li m m'
  SameOutside-delete i hs = record {
    next = λ q out. ground (
      arith,
      i.next q,
      ne-of-mem q (m.prev el) (footprint li (xs ++ (el ∷ ys))) out prev-footprint,
    );
    prev = λ q out. ground (
      arith,
      i.prev q,
      ne-of-mem q (m.next el) (footprint li (xs ++ (el ∷ ys))) out next-footprint,
    );
    size = hs;
  }

module _ {m : Mem} {li : ℕ} (xs : List ℕ) (el : ℕ) (ys : List ℕ)
    (l : IsList m li (xs ++ (el ∷ ys))) where
  not_empty : list_empty li m ≡ false
  not_empty = ground (arith, list_empty-IsList (xs ++ (el ∷ ys)) l, length-append xs (el ∷ ys))

  -- Both effects of taking `el` out by `li->size--` after the unlinking.
  dec_size-unlink :
      IsList (dec_size li (unlink el m)) li (xs ++ ys)
      × SameOutside (footprint li (xs ++ (el ∷ ys))) li m (dec_size li (unlink el m))
  unfolding unlink
  dec_size-unlink =
      let m' = dec_size li (unlink el m) in
      (
        IsList-delete m m' li el xs ys l (unlink-IsJoined m li el) (ground arith),
        SameOutside-delete m m' li el xs ys l (unlink-IsJoined m li el) (λ k ne. ground arith),
      )

  -- Removing an element of a list, wherever it stands, leaves the list of the others in their
  -- order, and changes no pointer outside the list and no other list's size.
  pub remove-IsList :
      IsList (list_remove li el m) li (xs ++ ys)
      × SameOutside (footprint li (xs ++ (el ∷ ys))) li m (list_remove li el m)
  unfolding list_remove
  remove-IsList = rw not_empty dec_size-unlink

last_of-snoc : (a : ℕ) (xs : List ℕ) (x : ℕ) → last_of a (xs ++ (x ∷ [])) ≡ x
last_of-snoc a [] x = refl
last_of-snoc a (y ∷ xs) x = last_of-snoc y xs x

popped : ℕ → ℕ → Mem → ℕ × Mem
popped li x m = (x, dec_size li (unlink x m))

pop_front_lem :
    {m : Mem} {li x : ℕ} (xs : List ℕ) → IsList m li (x ∷ xs) → list_pop_front li m ≡ popped li x m
unfolding list_pop_front popped
pop_front_lem {m} {li} {x} xs l = rw (not_empty [] x xs l) (ap (λ p. popped li p m) l.chain.0)

pop_back_lem :
    {m : Mem} {li : ℕ} (x : ℕ) (xs : List ℕ)
    → IsList m li (xs ++ (x ∷ []))
    → list_pop_back li m ≡ popped li x m
unfolding list_pop_back popped
pop_back_lem {m} {li} x xs l = rw (not_empty xs x [] l) (
    ap (λ p. popped li p m)
      (prev-last_of m li (xs ++ (x ∷ [])) (tail_of li) l.chain ∙ last_of-snoc li xs x))

-- Popping at the front of a list that is not empty returns its first element and leaves the list
-- of the others; it changes no pointer outside the list and no other list's size.
pub pop_front-IsList :
    {m : Mem} {li x : ℕ} (xs : List ℕ)
    → IsList m li (x ∷ xs)
    → ((list_pop_front li m).0 ≡ x)
      × IsList (list_pop_front li m).1 li xs
      × SameOutside (footprint li (x ∷ xs)) li m (list_pop_front li m).1
unfolding popped
pop_front-IsList {m} {li} {x} xs l =
    let (rest, same) = dec_size-unlink [] x xs l in rw (pop_front_lem xs l) (refl, rest, same)

-- Popping at the back of a list that is not empty returns its last element and leaves the list of
-- the others; it changes no pointer outside the list and no other list's size.
pub pop_back-IsList :
    {m : Mem} {li x : ℕ} (xs : List ℕ)
    → IsList m li (xs ++ (x ∷ []))
    → ((list_pop_back li m).0 ≡ x)
      × IsList (list_pop_back li m).1 li xs
      × SameOutside (footprint li (xs ++ (x ∷ []))) li m (list_pop_back li m).1
unfolding popped
pop_back-IsList {m} {li} {x} xs l =
    let (rest, same) = dec_size-unlink xs x [] l in
    rw (pop_back_lem x xs l)
      (refl, subst (λ ys. IsList (dec_size li (unlink x m)) li ys) (append-nil xs) rest, same)
