-- ===== src/Heap/Blocks.antt =====
-- The sizes and places of blocks, and what releasing one does to its list.
use dunkos.Common.{
  ℕ, zero, suc, ◌+◌, ◌-◌, ◌*◌, ◌/◌, ◌%◌, ◌^◌, ◌<◌, ◌≤◌, ◌≡◌, refl, ap, ◌∙◌, arith, true, false,
}
use dunkos.Common.{not, ◌||◌, ltb, ◌==◌, leb, Bool-cases, inl, inr, ==-refl, word_limit}
use native.Mathlib.Nat.{mod-add-div'}
use dunkos.Paging.{page_size}
use dunkos.Common.{sym, ◌≢◌, List, [], ◌∷◌, ◌++◌, ◌∉◌, Distinct, length, length-append}
use dunkos.LinkedList.{Mem, tail_of, list_push_back, list_size, list_empty}
use dunkos.LinkedList.Chain.{Chain, footprint, IsList}
use dunkos.LinkedList.Ends.{last_of, prev-last_of}
use dunkos.LinkedList.Insert.{push_back-IsList, list_empty-IsList, el-ne-tail}
use dunkos.Heap.Defs.{
  Heap, free_list, block_get_arena, arena_get_block, blocks_in_arena, class_loop,
}
use dunkos.Heap.Defs.{kfree, init_heap, init_desc_loop, arena_header_size, desc_count}

block_within : (i b n : ℕ) → i < n / b → i * b + b ≤ n
block_within i b n h =
    let most : (i + 1) * b ≤ n / b * b = grind (arith, h) in
    let next : (i + 1) * b ≡ i * b + b = grind arith in omega (arith, most, next, mod-add-div' n b)

-- Every block of an arena leads back to its arena, and ends inside the arena's page. (The arena is
-- at a page below the end of memory.)
pub arena-block :
    (a i block_size : ℕ)
    → a % page_size ≡ 0
    → a + page_size ≤ word_limit
    → i < blocks_in_arena block_size
    → 0 < block_size
    → (block_get_arena (arena_get_block a i block_size) ≡ a)
      × (arena_get_block a i block_size + block_size ≤ a + page_size)
unfolding block_get_arena arena_get_block blocks_in_arena
arena-block a i block_size aligned below h some_size =
    let within = block_within i block_size (page_size - arena_header_size) h in
    (omega (arith, within, aligned, below, some_size), omega (arith, within, below))

-- What the search for a descriptor finds.
class_loop_lem :
    (left i size : ℕ) (block_size : ℕ → ℕ)
    → ((j : ℕ) → j < i → block_size j < size)
    → let d = class_loop left i size block_size in
      (d ≤ i + left)
      × ((j : ℕ) → j < d → block_size j < size)
      × (d < i + left → size ≤ block_size d)
unfolding class_loop
class_loop_lem zero i size block_size before = (omega arith, before, λ h. absurd (omega (arith, h)))
class_loop_lem (suc left) i size block_size before = elim (Bool-cases (leb size (block_size i))) [
  | inl e ↦ rw (e, class_loop) (omega arith, before, λ h. ground (arith, e))
  | inr e ↦
      let smaller : (j : ℕ) → j < i + 1 → block_size j < size = λ j h. elim (Bool-cases (j == i)) [
        | inl f ↦ let same : j ≡ i = ground (arith, f) in rw same (ground (arith, e))
        | inr f ↦ before j (ground (arith, h, f))
      ] in
      let (bound, below, fits) = class_loop_lem left (i + 1) size block_size smaller in
      rw (e, class_loop) (omega (arith, bound), below, λ h. fits (omega (arith, h)))
]

largest : (s : Heap) → (init_heap s).block_size 15 ≡ 2 ^ 18
unfolding init_heap init_desc_loop
largest s = refl

-- The search of kmalloc finds, in the descriptors that init_heap makes, the one with the smallest
-- blocks that are large enough. (The size is at most the largest of theirs.)
pub class-init_heap :
    (s : Heap) (size j : ℕ)
    → size ≤ 2 ^ 18
    → let sizes = (init_heap s).block_size in
      let d = class_loop desc_count 0 size sizes in
      (d < 16) × (size ≤ sizes d) × ((not (ltb j d) || ltb (sizes j) size) ≡ true)
class-init_heap s size j h =
    let sizes = (init_heap s).block_size in
    let (bound, below, fits) =
      class_loop_lem 16 0 size sizes (λ k lt. absurd (omega (arith, lt))) in
    let d = class_loop 16 0 size sizes in
    let found : d < 16 = elim (Bool-cases (ltb 15 d)) [
      | inl e ↦ absurd (omega (arith, below 15 (ground (arith, e)), largest s, h))
      | inr e ↦ ground (arith, e)
    ] in
    (
      found,
      fits (omega (arith, found)),
      elim (Bool-cases (ltb j d)) [
        | inl e ↦ let small = below j (ground (arith, e)) in rw e (ground (arith, small))
        | inr e ↦ rw e refl
      ],
    )

last_of-snoc : (a p : ℕ) (xs : List ℕ) → last_of a (xs ++ (p ∷ [])) ≡ p
last_of-snoc a p [] = refl
last_of-snoc a p (x ∷ xs) = last_of-snoc x p xs

-- Putting the last element behind itself.
push_back_last :
    (li p : ℕ) (m : Mem)
    → list_empty li m ≡ false
    → m.prev (tail_of li) ≡ p
    → (p == tail_of li) ≡ false
    → let m' = list_push_back li p m in (m'.prev p ≡ p) × (m'.prev (tail_of li) ≡ p)
unfolding list_push_back
push_back_last li p m filled last apart =
    (rw (filled, apart) (ground (arith, last)), rw filled (ground arith))

push_back-size :
    (li el : ℕ) (m : Mem)
    → list_size li (list_push_back li el m) ≡ (list_size li m + 1) % word_limit
unfolding list_push_back list_size
push_back-size li el m = elim (Bool-cases (list_empty li m)) [
  | inl e ↦ rw (e, ==-refl li) refl
  | inr e ↦ rw (e, ==-refl li) refl
]

-- In a list, the last element does not come before itself.
last_prev :
    (m : Mem) (b a x : ℕ) (xs : List ℕ)
    → Chain m a (x ∷ xs) b
    → Distinct (a ∷ x ∷ (xs ++ (b ∷ [])))
    → m.prev (last_of x xs) ≢ last_of x xs
last_prev m b a x [] c d e = ground (arith, c.1, e)
last_prev m b a x (y ∷ xs) c d e = last_prev m b x y xs c.2 d.1 e

-- An element that is last in a list and comes before itself is the list's own address.
self-last :
    (m : Mem) (li p : ℕ) (xs : List ℕ)
    → IsList m li xs
    → m.prev (tail_of li) ≡ p
    → m.prev p ≡ p
    → li ≡ p
self-last m li p [] l last self = sym (prev-last_of m li [] (tail_of li) l.chain) ∙ last
self-last m li p (x ∷ xs) l last self =
    let at : last_of x xs ≡ p = sym (prev-last_of m li (x ∷ xs) (tail_of li) l.chain) ∙ last in
    absurd (last_prev m (tail_of li) li x xs l.chain l.distinct (ap m.prev at ∙ self ∙ sym at))

-- A block that is released while its arena has another in use is put behind the list of free blocks
-- twice: it comes before itself and before the list's end, the list counts it twice, and what is
-- left is no list of any elements. (The list was one, without the block, which is not `NULL`, and
-- has room.)
pub kfree-twice :
    (p : ℕ) (s : Heap) (xs ys : List ℕ)
    → let list = free_list s (s.arena_desc (block_get_arena p)) in
      (p == 0) ≡ false
      → ((s.free_count (block_get_arena p) + 1) % word_limit
          == s.arena_size (s.arena_desc (block_get_arena p)))
        ≡ false
      → IsList s.links list xs
      → p ∉ footprint list xs
      → length xs + 2 < word_limit
      → ((kfree p s).links.prev p ≡ p)
        × ((kfree p s).links.prev (tail_of list) ≡ p)
        × (list_size list (kfree p s).links ≡ length xs + 2)
        × ¬ IsList (kfree p s).links list ys
unfolding kfree
kfree-twice p s xs ys some_block used l out room =
    let list = free_list s (s.arena_desc (block_get_arena p)) in
    let m = list_push_back list p s.links in
    let (once, same) = push_back-IsList xs l out (omega (arith, room)) in
    let last : m.prev (tail_of list) ≡ p =
      prev-last_of m list (xs ++ (p ∷ [])) (tail_of list) once.chain ∙ last_of-snoc list p xs in
    let filled : list_empty list m ≡ false =
      ground (arith, list_empty-IsList (xs ++ (p ∷ [])) once, length-append xs (p ∷ [])) in
    let (self, behind) = push_back_last list p m filled last (el-ne-tail p list xs out) in
    let counted : list_size list (list_push_back list p m) ≡ length xs + 2 =
      push_back-size list p m ∙ omega (arith, once.size, length-append xs (p ∷ []), room) in
    rw (some_block, used)
      (
        self,
        behind,
        counted,
        λ l'. ground (arith, self-last (list_push_back list p m) list p ys l' behind self),
      )
