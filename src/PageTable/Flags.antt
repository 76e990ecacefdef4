-- ===== src/PageTable/Flags.antt =====
-- The flags of an entry: what is set is read back, and no other flag changes.
use Prim.Native.Nat.{bit_and, bit_or}
use dunkos.Common.{ℕ, ◌-◌, ◌^◌, ◌<◌, ◌≡◌, arith, Bool, true, false, not}
use dunkos.Common.{◌==◌, if◌then◌else◌, word_limit, ==-refl}
use dunkos.Common.Bits.{test_bit-and, test_bit-or, test_bit-pow, test_bit-complement, bit_and-pow}
use native.Mathlib.Nat.{pow-le-pow_right}
use dunkos.PageTable.Defs.{Words, pml4_compute_ptloc, pml4_set, pml4_get}
use dunkos.PageTable.Defs.{pml4_set_writable, pml4_set_accessed, pml4_set_dirty}
use dunkos.PageTable.Defs.{pml4_is_writable, pml4_is_accessed, pml4_is_dirty}
use dunkos.PageTable.Map.{IsApart, ptloc-update}

pow-lt : (k : ℕ) → k < 64 → 2 ^ k < 2 ^ 64
pow-lt k h = omega (arith, pow-le-pow_right {n = 2} (omega arith) {i = k} {j = 63} (omega arith))

-- One flag of a word that has been set or cleared.
flag_lem :
    (w k j : ℕ) (cond : Bool)
    → k < 64
    → j < 64
    → not (
        bit_and (if cond then bit_or w (2 ^ k) else bit_and w (word_limit - 1 - 2 ^ k)) (2 ^ j)
        == 0)
      ≡ (if j == k then cond else not (bit_and w (2 ^ j) == 0))
flag_lem w k j true hk hj =
    rw (bit_and-pow j (bit_or w (2 ^ k)), bit_and-pow j w)
      (ground (arith, test_bit-or j w (2 ^ k), test_bit-pow j k))
flag_lem w k j false hk hj =
    rw (bit_and-pow j (bit_and w (word_limit - 1 - 2 ^ k)), bit_and-pow j w)
      (ground (
        arith,
        test_bit-and j w (word_limit - 1 - 2 ^ k),
        test_bit-complement 64 j (2 ^ k) hj (pow-lt k hk),
        test_bit-pow j k,
      ))

module _ (mem : Words) (pml4 addr : ℕ) (cond : Bool) (own : IsApart mem pml4 addr addr) where
  get-set :
      (k j : ℕ)
      → k < 64
      → j < 64
      → pml4_get pml4 addr (2 ^ j) (pml4_set pml4 addr cond (2 ^ k) mem)
        ≡ (if j == k then cond else pml4_get pml4 addr (2 ^ j) mem)
  unfolding pml4_get pml4_set
  get-set k j hk hj =
      let loc = pml4_compute_ptloc pml4 addr mem in
      rw (ptloc-update mem pml4 addr addr _ own, ==-refl loc) (flag_lem (mem loc) k j cond hk hj)

  -- Each of the three flags of an entry reads back as it was set, and setting it leaves the other
  -- two. (The entry is none of the entries on the way to it.)
  pub flags_apart :
      let w = pml4_set_writable pml4 addr cond mem in
      let a = pml4_set_accessed pml4 addr cond mem in
      let d = pml4_set_dirty pml4 addr cond mem in
      ((pml4_is_writable pml4 addr w ≡ cond)
        × (pml4_is_accessed pml4 addr w ≡ pml4_is_accessed pml4 addr mem)
        × (pml4_is_dirty pml4 addr w ≡ pml4_is_dirty pml4 addr mem))
      × ((pml4_is_accessed pml4 addr a ≡ cond)
          × (pml4_is_writable pml4 addr a ≡ pml4_is_writable pml4 addr mem)
          × (pml4_is_dirty pml4 addr a ≡ pml4_is_dirty pml4 addr mem))
      × ((pml4_is_dirty pml4 addr d ≡ cond)
          × (pml4_is_writable pml4 addr d ≡ pml4_is_writable pml4 addr mem)
          × (pml4_is_accessed pml4 addr d ≡ pml4_is_accessed pml4 addr mem))
  unfolding pml4_set_writable pml4_set_accessed pml4_set_dirty pml4_is_writable pml4_is_accessed
      pml4_is_dirty
  flags_apart = (
    (
      get-set 1 1 (omega arith) (omega arith),
      get-set 1 5 (omega arith) (omega arith),
      get-set 1 6 (omega arith) (omega arith),
    ),
    (
      get-set 5 5 (omega arith) (omega arith),
      get-set 5 1 (omega arith) (omega arith),
      get-set 5 6 (omega arith) (omega arith),
    ),
    (
      get-set 6 6 (omega arith) (omega arith),
      get-set 6 1 (omega arith) (omega arith),
      get-set 6 5 (omega arith) (omega arith),
    ),
  )
