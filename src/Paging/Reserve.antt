-- ===== src/Paging/Reserve.antt =====
-- page_reserve of paging.c, and that what is reserved is not allocated.
use dunkos.Common.{ℕ, ◌+◌, ◌*◌, ◌/◌, ◌%◌, ◌<◌, ◌≤◌, ◌≡◌, ◌≢◌, ap, sym, ◌∙◌, ◌⊎◌, inl, inr, arith}
use dunkos.Common.{Bool, true, false, not, ◌&&◌, Option, none, some, leb, ltb, if◌then◌else◌}
use dunkos.Common.{Bool-cases}
use dunkos.Bitmap.{bitmap_all, bitmap_set, bitmap_test}
use dunkos.Bitmap.Update.{test-set, set-bitcount}
use dunkos.Paging.Defs.{PagePool, Pools, page_size, phys_to_kernel, sub_word, add_word}
use dunkos.Paging.Defs.{page_pool_reserve, page_pool_alloc}
use dunkos.Paging.Pool.{FitsSpace, IsAllocated, alloc-IsAllocated}
use mathlib.Core.Path.{subst}

abbrev pub pool_has : PagePool → ℕ → Bool
pool_has p kern = leb p.base kern && ltb kern (add_word p.base (p.pages * page_size))

-- `none` is a failed assertion, or the halt for an address outside both pools.
unfoldable pub page_reserve : ℕ → Pools → Option (ℕ × Pools)
unfolding phys_to_kernel page_pool_reserve
page_reserve phys s =
    let kern = phys_to_kernel phys in
    if pool_has s.kernel_pool kern
    then elim (page_pool_reserve s.kernel_pool phys) [
      | none ↦ none
      | some p ↦ some (kern, record s { kernel_pool = p })
    ]
    else if pool_has s.user_pool kern
    then elim (page_pool_reserve s.user_pool phys) [
      | none ↦ none
      | some p ↦ some (kern, record s { user_pool = p })
    ]
    else none

-- The pool after page number `i` has been marked as taken.
abbrev pub marked : PagePool → ℕ → PagePool
marked p i = record p { occupancy_map = bitmap_set p.occupancy_map i 1 true }

reserve_index :
    (p : PagePool) (kern i off : ℕ)
    → FitsSpace p
    → p.base % page_size ≡ 0
    → i < p.occupancy_map.bitcount
    → off < page_size
    → kern ≡ p.base + i * page_size + off
    → sub_word (kern / page_size) (p.base / page_size) ≡ i
reserve_index p kern i off (pos, fits, word) aligned inside small e =
    omega (arith, pos, fits, word, aligned, inside, small, e)

reserve-marked :
    (p : PagePool) (ph i off : ℕ)
    → FitsSpace p
    → p.base % page_size ≡ 0
    → i < p.occupancy_map.bitcount
    → off < page_size
    → phys_to_kernel ph ≡ p.base + i * page_size + off
    → page_pool_reserve p ph
      ≡ (if not (bitmap_all p.occupancy_map i 1 true) then some (marked p i) else none)
unfolding page_pool_reserve
reserve-marked p ph i off fits aligned inside small e =
    ap (λ n. if not (bitmap_all p.occupancy_map n 1 true) then some (marked p n) else none)
      (reserve_index p (phys_to_kernel ph) i off fits aligned inside small e)

if_some : {A : Type 0} (b : Bool) (x y : A) → (if b then some x else none) ≡ some y → y ≡ x
if_some true x y e = ground arith
if_some false x y e = absurd (ground arith)

reserve_outside :
    (p p' : PagePool) (ph i off npages : ℕ)
    → FitsSpace p
    → p.base % page_size ≡ 0
    → i < p.occupancy_map.bitcount
    → off < page_size
    → phys_to_kernel ph ≡ p.base + i * page_size + off
    → page_pool_reserve p ph ≡ some p'
    → (a : IsAllocated p' npages (page_pool_alloc p' npages).0 (page_pool_alloc p' npages).1)
    → (i < a.index) ⊎ (a.index + npages ≤ i)
reserve_outside p p' ph i off npages fits aligned inside small at reserved a =
    let same : p' ≡ marked p i =
      if_some (not (bitmap_all p.occupancy_map i 1 true)) (marked p i) p'
        (sym (reserve-marked p ph i off fits aligned inside small at) ∙ reserved) in
    let held : bitmap_test p'.occupancy_map i ≡ true =
      ap (λ q. bitmap_test q.occupancy_map i) same
      ∙ ground (arith, test-set p.occupancy_map i 1 true i) in
    elim (Bool-cases (leb a.index i && ltb i (a.index + npages))) [
      | inl e ↦
          let free : bitmap_test p'.occupancy_map i ≡ false =
            (a.first.run i (ground arith) (ground arith)).1 in
          absurd (ground (arith, held, free))
      | inr e ↦ ground arith
    ]

marked-FitsSpace : (p : PagePool) (i : ℕ) → FitsSpace p → FitsSpace (marked p i)
marked-FitsSpace p i (pos, fits, word) =
    let count = set-bitcount p.occupancy_map i 1 true in
    (pos, omega (arith, fits, count), omega (arith, word, count))

-- Once a page of a pool inside the address space has been reserved, an allocation from that pool
-- returns `NULL`, or pages none of which is that page. (The pool begins at a multiple of the page
-- size.)
pub reserve-alloc :
    (p p' : PagePool) (ph i off npages : ℕ)
    → FitsSpace p
    → p.base % page_size ≡ 0
    → i < p.occupancy_map.bitcount
    → off < page_size
    → phys_to_kernel ph ≡ p.base + i * page_size + off
    → page_pool_reserve p ph ≡ some p'
    → let (page, p'') = page_pool_alloc p' npages in
      (page ≡ 0) ⊎ ((k : ℕ) → k < npages → page + k * page_size ≢ p.base + i * page_size)
reserve-alloc p p' ph i off npages fits aligned inside small at reserved =
    let same : p' ≡ marked p i =
      if_some (not (bitmap_all p.occupancy_map i 1 true)) (marked p i) p'
        (sym (reserve-marked p ph i off fits aligned inside small at) ∙ reserved) in
    let fits' : FitsSpace p' = subst FitsSpace (sym same) (marked-FitsSpace p i fits) in
    let base : p'.base ≡ p.base = ap (λ q. q.base) same in
    elim (alloc-IsAllocated p' npages fits') [
      | inl a ↦
          let outside =
            reserve_outside p p' ph i off npages fits aligned inside small at reserved a in
          inr (λ k lt e. elim outside [
            | inl less ↦ omega (arith, less, lt, e, a.place, base)
            | inr more ↦ omega (arith, more, lt, e, a.place, base)
          ])
      | inr (null, _, _) ↦ inl null
    ]
