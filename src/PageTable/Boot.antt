-- ===== src/PageTable/Boot.antt =====
-- pml4_map_address_buffer, which builds the tables that are missing out of the pool.
use Prim.Native.Nat.{bit_or}
use dunkos.Common.{ℕ, ◌+◌, ◌/◌, ◌%◌, ◌^◌, some, ◌<◌, ◌≤◌, ◌≡◌, refl, ap, sym, ◌∙◌, arith, false}
use dunkos.Common.{◌⊎◌, inl, inr, ◌≢◌, ◌==◌, Bool-cases, update, ==-refl}
use dunkos.PageTable.Defs.{Tables, entry, pml4_offset, pdp_offset, pgd_offset, table_of, pool_table}
use dunkos.PageTable.Defs.{pml4_map_address_buffer}
use dunkos.PageTable.Index.{offsets_lem, offsets-lt, table_of_lem, table_of-join}
use dunkos.PageTable.Map.{first_entry, second_entry}
use dunkos.PageTable.Walk.{IsTableEntry, translate, translate-third, entry_in, frame_of}
use dunkos.PageTable.Walk.{join_lem, join-IsTableEntry}
use mathlib.Core.Path.{subst}

-- The pool begins at a page, has room below the physical addresses' end, and is zero from there on.
pub record IsPool (t : Tables) : Type 0 where
  pub aligned : t.base_pt_pool % 4096 ≡ 0
  pub low : 4096 ≤ t.base_pt_pool
  pub room : t.base_pt_pool + 8192 < 2 ^ 52
  pub zeroed : (q : ℕ) → t.base_pt_pool ≤ q → t.mem q ≡ 0

-- A page of tables below the pool.
abbrev pub IsBelow : ℕ → Tables → Type 0
IsBelow p t = (p % 4096 ≡ 0) × (p + 4096 ≤ t.base_pt_pool)

-- What pool_table does for an entry that leads to no table or to one below the pool.
record IsLed (at : ℕ) (t : Tables) (p : ℕ) (t' : Tables) : Type 0 where
  below : IsBelow p t'
  linked : table_of (t'.mem at) ≡ p
  entry : IsTableEntry (t'.mem at)
  same : (q : ℕ) → (q == at) ≡ false → t'.mem q ≡ t.mem q
  pool : (t'.base_pt_pool ≡ t.base_pt_pool) ⊎ (t'.base_pt_pool ≡ t.base_pt_pool + 4096)
  which :
      ((p ≡ table_of (t.mem at)) × (0 < p) × (t'.base_pt_pool ≡ t.base_pt_pool))
      ⊎ ((p ≡ t.base_pt_pool) × (table_of (t.mem at) ≡ 0))

pool_table-IsLed :
    (at : ℕ) (t : Tables)
    → t.base_pt_pool % 4096 ≡ 0
    → t.base_pt_pool < 2 ^ 52
    → IsBelow (table_of (t.mem at)) t
    → (0 < table_of (t.mem at) → IsTableEntry (t.mem at))
    → let (p, t') = pool_table at t in IsLed at t p t'
unfolding pool_table
pool_table-IsLed at t aligned small b made = elim (Bool-cases (table_of (t.mem at) == 0)) [
  | inl e ↦ rw e (record {
    below = (aligned, omega arith);
    linked =
        rw (==-refl at)
          (table_of-join t.base_pt_pool 3 aligned (omega (arith, small)) (omega arith));
    entry = rw (==-refl at) (join-IsTableEntry t.base_pt_pool aligned small);
    same = λ q ne. rw ne refl;
    pool = inr refl;
    which = inr (refl, ground arith);
  })
  | inr e ↦ rw e (record {
    below = b;
    linked = refl;
    entry = made (ground (arith, e));
    same = λ q ne. refl;
    pool = inl refl;
    which = inl (refl, ground arith, refl);
  })
]

-- Entries of two different pages are at different places.
entries_apart :
    (p q i j : ℕ)
    → p % 4096 ≡ 0
    → q % 4096 ≡ 0
    → p ≢ q
    → i < 512
    → j < 512
    → (entry p i == entry q j) ≡ false
entries_apart p q i j hp hq ne hi hj = ground arith

-- The way to an address in the two upper tables: there is no table yet, or one below the pool that
-- the processor finds, too, and none is its own lower table.
pub record IsPath (t : Tables) (pml4 addr : ℕ) : Type 0 where
  pub root : IsBelow pml4 t
  pub upper : IsBelow (table_of (t.mem (first_entry pml4 addr))) t
  pub upper_entry :
      0 < table_of (t.mem (first_entry pml4 addr)) → IsTableEntry (t.mem (first_entry pml4 addr))
  pub upper_apart : table_of (t.mem (first_entry pml4 addr)) ≢ pml4
  pub lower : IsBelow (table_of (t.mem (second_entry pml4 addr t.mem))) t
  pub lower_entry :
      0 < table_of (t.mem (second_entry pml4 addr t.mem))
      → IsTableEntry (t.mem (second_entry pml4 addr t.mem))
  pub lower_apart :
      0 < table_of (t.mem (second_entry pml4 addr t.mem))
      → (table_of (t.mem (second_entry pml4 addr t.mem)) ≢ pml4)
        × (table_of (t.mem (second_entry pml4 addr t.mem))
            ≢ table_of (t.mem (first_entry pml4 addr)))

module _ (t : Tables) (pml4 addr : ℕ) (pool : IsPool t) (w : IsPath t pml4 addr) where
  first_step :
      let (pdp, t₁) = pool_table (first_entry pml4 addr) t in IsLed (first_entry pml4 addr) t pdp t₁
  first_step =
      pool_table-IsLed (first_entry pml4 addr) t pool.aligned (omega (arith, pool.room)) w.upper
        w.upper_entry

  module _ (pdp : ℕ) (t₁ : Tables) (a : IsLed (first_entry pml4 addr) t pdp t₁) where
    pdp-ne-root : pdp ≢ pml4
    pdp-ne-root e = elim (a.which) [
      | inl (old, found, kept) ↦ w.upper_apart (sym old ∙ e)
      | inr (new, none) ↦ absurd (omega (arith, w.root, new, e))
    ]

    -- The second entry before the second step: none, or as it was at first.
    second_entry_old :
        (t₁.mem (entry pdp (pdp_offset addr)) ≡ 0)
        ⊎ ((t₁.mem (entry pdp (pdp_offset addr)) ≡ t.mem (second_entry pml4 addr t.mem))
            × (pdp ≡ table_of (t.mem (first_entry pml4 addr))))
    second_entry_old =
        let (i, d, g) = offsets-lt addr in
        let away : (entry pdp (pdp_offset addr) == first_entry pml4 addr) ≡ false =
          entries_apart pdp pml4 (pdp_offset addr) (pml4_offset addr) a.below.0 w.root.0 pdp-ne-root
            d i in
        let kept = a.same (entry pdp (pdp_offset addr)) away in
        elim (a.which) [
          | inl (old, found, k) ↦ inr (kept ∙ ap (λ p. t.mem (entry p (pdp_offset addr))) old, old)
          | inr (new, none) ↦
              inl (kept ∙ pool.zeroed (entry pdp (pdp_offset addr)) (omega (arith, new)))
        ]

    -- The second table before the second step: missing, or below the pool.
    second_old :
        (table_of (t₁.mem (entry pdp (pdp_offset addr))) ≡ 0)
        ⊎ ((table_of (t₁.mem (entry pdp (pdp_offset addr)))
              ≡ table_of (t.mem (second_entry pml4 addr t.mem)))
            × (pdp ≡ table_of (t.mem (first_entry pml4 addr))))
    second_old = elim second_entry_old [
      | inl none ↦ inl (ap table_of none ∙ table_of_lem 0 (omega arith))
      | inr (old, up) ↦ inr (ap table_of old, up)
    ]

    second_made :
        0 < table_of (t₁.mem (entry pdp (pdp_offset addr)))
        → IsTableEntry (t₁.mem (entry pdp (pdp_offset addr)))
    second_made found = elim second_entry_old [
      | inl none ↦ absurd (omega (arith, found, ap table_of none, table_of_lem 0 (omega arith)))
      | inr (old, up) ↦
          subst IsTableEntry (sym old) (w.lower_entry (omega (arith, found, ap table_of old)))
    ]

    second_step :
        let (pgd, t₂) = pool_table (entry pdp (pdp_offset addr)) t₁ in
        IsLed (entry pdp (pdp_offset addr)) t₁ pgd t₂
    second_step =
        pool_table-IsLed (entry pdp (pdp_offset addr)) t₁ (omega (arith, pool.aligned, a.pool))
          (omega (arith, pool.room, a.pool))
          (elim second_old [
            | inl none ↦ (omega (arith, none), omega (arith, none, a.below, a.pool, pool.low))
            | inr (old, up) ↦ (omega (arith, old, w.lower), omega (arith, old, w.lower, a.pool))
          ])
          second_made

    module _ (pgd : ℕ) (t₂ : Tables) (b : IsLed (entry pdp (pdp_offset addr)) t₁ pgd t₂) where
      pgd-ne-root : pgd ≢ pml4
      pgd-ne-root e = elim (b.which) [
        | inl (old, found, kept) ↦ elim second_old [
          | inl none ↦ absurd (omega (arith, found, old, none))
          | inr (old', up) ↦
              (w.lower_apart (omega (arith, found, old, old'))).0 (sym old' ∙ sym old ∙ e)
        ]
        | inr (new, none) ↦ absurd (omega (arith, w.root, new, e, a.pool))
      ]

      pgd-ne-pdp : pgd ≢ pdp
      pgd-ne-pdp e = elim (b.which) [
        | inl (old, found, kept) ↦ elim second_old [
          | inl none ↦ absurd (omega (arith, found, old, none))
          | inr (old', up) ↦
              (w.lower_apart (omega (arith, found, old, old'))).1 (sym old' ∙ sym old ∙ e ∙ up)
        ]
        | inr (new, none) ↦ absurd (omega (arith, a.below, new, e))
      ]

      built-translate :
          (frame other : ℕ)
          → frame % 2 ^ 21 ≡ 0
          → frame < 2 ^ 52
          → other / 2 ^ 21 ≡ addr / 2 ^ 21
          → translate pml4 other (update t₂.mem (entry pgd (pgd_offset addr)) (bit_or frame 131))
            ≡ some (frame + other % 2 ^ 21)
      built-translate frame other aligned small same =
          let (i, d, g) = offsets-lt addr in
          let (i', d', g') = offsets_lem addr in
          let at₁ = first_entry pml4 addr in
          let at₂ = entry pdp (pdp_offset addr) in
          let at₃ = entry pgd (pgd_offset addr) in
          let mem' = update t₂.mem at₃ (bit_or frame 131) in
          let n₁₃ : (at₁ == at₃) ≡ false =
            entries_apart pml4 pgd (pml4_offset addr) (pgd_offset addr) w.root.0 b.below.0
              (λ e. pgd-ne-root (sym e)) i g in
          let n₂₃ : (at₂ == at₃) ≡ false =
            entries_apart pdp pgd (pdp_offset addr) (pgd_offset addr) a.below.0 b.below.0
              (λ e. pgd-ne-pdp (sym e)) d g in
          let n₁₂ : (at₁ == at₂) ≡ false =
            entries_apart pml4 pdp (pml4_offset addr) (pdp_offset addr) w.root.0 a.below.0
              (λ e. pdp-ne-root (sym e)) i d in
          let first : other / 2 ^ 39 % 512 ≡ pml4_offset addr = omega (arith, same, i') in
          let second : other / 2 ^ 30 % 512 ≡ pdp_offset addr = omega (arith, same, d') in
          let third : other / 2 ^ 21 % 512 ≡ pgd_offset addr = omega (arith, same, g') in
          let e₁ : entry_in pml4 39 other mem' ≡ t₁.mem at₁ = rw (first, n₁₃) (b.same at₁ n₁₂) in
          let e₂ : entry_in (table_of (t₁.mem at₁)) 30 other mem' ≡ t₂.mem at₂ =
            rw (a.linked, second, n₂₃) refl in
          let e₃ : entry_in pgd 21 other mem' ≡ frame + 131 =
            rw (third, ==-refl at₃) (join_lem frame 131 (omega (arith, aligned)) (omega arith)) in
          let present : (frame + 131) % 2 ≡ 1 = omega (arith, aligned) in
          let large : (frame + 131) / 128 % 2 ≡ 1 = omega (arith, aligned) in
          let page : frame_of 21 (frame + 131) ≡ frame = omega (arith, aligned, small) in
          translate-third pml4 other mem' (t₁.mem at₁) (t₂.mem at₂) e₁ a.entry e₂ b.entry
          ∙ rw (b.linked, e₃, present, large, page) refl

-- The processor takes every address of the 2 MiB page that holds `addr` to its place in the frame
-- after pml4_map_address_buffer, whichever of the two upper tables exist: the missing ones come off
-- the pool. (The frame is one of 2 MiB below 2 ^ 52. The pool begins at a page, is zero and has
-- room for two tables below 2 ^ 52; the tables that exist are different pages below it, in entries
-- that are present, without the page size bit, and below 2 ^ 52.)
pub map_buffer-translate :
    (t : Tables) (pml4 addr other frame : ℕ)
    → IsPool t
    → IsPath t pml4 addr
    → frame % 2 ^ 21 ≡ 0
    → frame < 2 ^ 52
    → other / 2 ^ 21 ≡ addr / 2 ^ 21
    → translate pml4 other (pml4_map_address_buffer pml4 addr frame t).mem
      ≡ some (frame + other % 2 ^ 21)
unfolding pml4_map_address_buffer
map_buffer-translate t pml4 addr other frame pool w aligned small same =
    let (pdp, t₁) = pool_table (first_entry pml4 addr) t in
    let a = first_step t pml4 addr pool w in
    let (pgd, t₂) = pool_table (entry pdp (pdp_offset addr)) t₁ in
    let b = second_step t pml4 addr pool w pdp t₁ a in
    built-translate t pml4 addr pool w pdp t₁ a pgd t₂ b frame other aligned small same
