-- ===== src/Process/Children.antt =====
-- A new process is put behind the children of the process that makes it.
use dunkos.Common.{ℕ, zero, suc, ◌+◌, ◌<◌, ◌≤◌, ◌≡◌, refl, ◌∙◌, arith, false, ◌&&◌}
use dunkos.Common.{List, [], ◌∷◌, ◌++◌, leb, ltb, length, word_limit, has}
use dunkos.Common.{◌∈◌, ◌∉◌, has-append, Bool, Bool-cases, inl, inr}
use dunkos.Common.Memory.{zeroed}
use dunkos.LinkedList.{Mem, tail_of, list_push_back}
use dunkos.LinkedList.Chain.{Chain-frame, footprint, IsList, IsList-frame}
use dunkos.LinkedList.Insert.{push_back-IsList}
use dunkos.LinkedList.Zeroed.{push_back_first}
use dunkos.Hashtable.{bucket_at, init_loop, hashtable_init}
use dunkos.Hashtable.Init.{init-SameOutside}
use dunkos.Process.Pages.{page_table_create}
use dunkos.Process.Life.{
  Processes, Blocks, process_size, calloc_links, calloc_process, process_init,
}
use dunkos.Process.Life.{new_child, children_of, child_elem_of}

-- Whether an address lies in a block.
abbrev pub within : ℕ → ℕ → ℕ → Bool
within p n q = leb p q && ltb q (p + n)

-- A block of zeroes that has nothing of a list leaves the list.
calloc_links-IsList :
    (p n li : ℕ) (xs : List ℕ) (m : Mem)
    → ((q : ℕ) → q ∈ footprint li xs → within p n q ≡ false)
    → IsList m li xs
    → IsList (calloc_links p n m) li xs
unfolding calloc_links zeroed
calloc_links-IsList p n li xs m out l = record {
  chain =
      Chain-frame m (calloc_links p n m) (tail_of li) li xs
        (λ q h. ground (arith, out q (ground (arith, h, has-append q (li ∷ xs) (tail_of li ∷ [])))))
        (λ q h. ground (arith, out q (ground (arith, h)))) l.chain;
  distinct = l.distinct;
  size = ground (arith, out li (ground arith), l.size);
  small = l.small;
}

-- So do new buckets elsewhere.
init_loop-IsList :
    (con li : ℕ) (xs : List ℕ)
    → ((q : ℕ) → q ∈ footprint li xs → within con 400 q ≡ false)
    → (left i : ℕ) (m : Mem) → i + left ≤ 10
    → IsList m li xs
    → IsList (init_loop con left i m) li xs
unfolding init_loop
init_loop-IsList con li xs out zero i m few l = l
init_loop-IsList con li xs out (suc left) i m few l =
    let away : (q : ℕ) → q ∈ footprint li xs → q ∉ footprint (bucket_at con i) [] =
      λ q h. ground (arith, out q h) in
    init_loop-IsList con li xs out left (i + 1) _ (omega (arith, few)) (
      IsList-frame xs (footprint (bucket_at con i) []) (init-SameOutside m (bucket_at con i))
        (ground (arith, away li (ground arith))) away l)

init_loop-size :
    (con li left i : ℕ) (m : Mem)
    → within con 400 li ≡ false
    → i + left ≤ 10
    → (init_loop con left i m).size li ≡ m.size li
unfolding init_loop
init_loop-size con li zero i m out few = refl
init_loop-size con li (suc left) i m out few =
    init_loop-size con li left (i + 1) _ out (omega (arith, few))
    ∙ (init-SameOutside m (bucket_at con i)).size li (ground (arith, out, few))

-- The blocks of a new process have nothing of a list of children.
pub record IsFresh (b : Blocks) (li : ℕ) (xs : List ℕ) : Type 0 where
  pub process : (q : ℕ) → q ∈ footprint li xs → within b.process process_size q ≡ false
  pub buckets : (q : ℕ) → q ∈ footprint li xs → within b.buckets 400 q ≡ false

module _ (b : Blocks) (cur : ℕ) (s : Processes) where
  -- The pointers before the child is put into the list.
  prepared : Mem
  prepared = init_loop b.buckets 10 0 (calloc_links b.process process_size s.links)

  new_child-links :
      (new_child b cur s).links
      ≡ list_push_back (children_of cur) (child_elem_of b.process) prepared
  unfolding new_child process_init calloc_process page_table_create hashtable_init prepared
  new_child-links = refl

  child_outside :
      (li : ℕ) (xs : List ℕ) → IsFresh b li xs → child_elem_of b.process ∉ footprint li xs
  child_outside li xs f = elim (Bool-cases (has (child_elem_of b.process) (footprint li xs))) [
    | inl e ↦ absurd (ground (arith, f.process (child_elem_of b.process) e))
    | inr e ↦ e
  ]

  -- Making a process puts its element behind the children of the current one, when its blocks lie
  -- elsewhere.
  pub new_child-IsList :
      (xs : List ℕ)
      → IsList s.links (children_of cur) xs
      → IsFresh b (children_of cur) xs
      → length xs + 1 < word_limit
      → IsList (new_child b cur s).links (children_of cur) (xs ++ (child_elem_of b.process ∷ []))
  unfolding prepared
  new_child-IsList xs l f room =
      let li = children_of cur in
      let zeroes = calloc_links-IsList b.process process_size li xs s.links f.process l in
      let ready : IsList prepared li xs =
        init_loop-IsList b.buckets li xs f.buckets 10 0
          (calloc_links b.process process_size s.links) (omega arith) zeroes in
      rw new_child-links (push_back-IsList xs ready (child_outside li xs f) room).0

  -- So it does with a list of children that was never initialised: the block of a process is zeroed.
  pub new_child_first :
      s.links.size (children_of cur) ≡ 0
      → IsFresh b (children_of cur) []
      → IsList (new_child b cur s).links (children_of cur) (child_elem_of b.process ∷ [])
  unfolding prepared calloc_links zeroed
  new_child_first none f =
      let li = children_of cur in
      let empty : prepared.size li ≡ 0 =
        init_loop-size b.buckets li 10 0 (calloc_links b.process process_size s.links)
          (f.buckets li (ground arith)) (omega arith)
        ∙ ground (arith, f.process li (ground arith), none) in
      rw new_child-links
        (push_back_first prepared li (child_elem_of b.process) empty (child_outside li [] f))
