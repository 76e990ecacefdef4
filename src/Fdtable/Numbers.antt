-- ===== src/Fdtable/Numbers.antt =====
-- Which numbers descriptors and semaphores are given.
use dunkos.Common.{ℕ, ◌-◌, ◌%◌, ◌^◌, ◌≤◌, ◌<◌, ◌≡◌, refl, ◌⊎◌, inl, inr, ◌∙◌, arith, ==-refl}
use dunkos.Common.{true, false, ◌&&◌, ◌==◌, ltb, if◌then◌else◌, Bool-cases}
use dunkos.Bitmap.{Bitmap, bitmap_test, bitmap_create, bitmap_scan_and_flip}
use dunkos.Bitmap.Scan.{IsRun, IsClaimed, scan_and_flip-IsClaimed}
use dunkos.Bitmap.Update.{test-set, set-bitcount, test-create}
use dunkos.Fdtable.Defs.{FdState, create_fdtable, fdtable_open, fd_get, sget}

-- The outcome of taking a number from a map: the first number whose bit was set, with the bit cleared
-- and no other changed; or the pattern of -1, the map as it was, and no bit set.
abbrev pub IsTakenNumber : Bitmap → ℕ → Bitmap → Type 0
IsTakenNumber map n map' =
    ((n < map.bitcount)
      × (bitmap_test map n ≡ true)
      × ((j : ℕ) → j < n → bitmap_test map j ≡ false)
      × ((i : ℕ) → bitmap_test map' i ≡ (if i == n then false else bitmap_test map i)))
    ⊎ ((n ≡ 2 ^ 32 - 1) × (map' ≡ map) × ((j : ℕ) → j < map.bitcount → bitmap_test map j ≡ false))

taken_number :
    (map : Bitmap)
    → map.bitcount ≤ 2 ^ 31
    → let (index, map') = bitmap_scan_and_flip map 0 1 true in
      IsTakenNumber map (index % 2 ^ 32) map'
taken_number map small =
    let (index, map') = bitmap_scan_and_flip map 0 1 true in
    go index map' (scan_and_flip-IsClaimed map 0 1 true (omega arith))
  where
    single : (j : ℕ) → j < map.bitcount → ¬ IsRun map true 1 j → bitmap_test map j ≡ false
    single j lt none = elim (Bool-cases (bitmap_test map j)) [
      | inl e ↦ absurd (none λ k lo hi. let k' : k ≡ j = omega arith in ground arith)
      | inr e ↦ e
    ]

    go :
        (index : ℕ) (map' : Bitmap)
        → IsClaimed map true 1 0 (index, map')
        → IsTakenNumber map (index % 2 ^ 32) map'
    go index map' (inl (f, count, bits)) =
        let same : index % 2 ^ 32 ≡ index = omega (arith, f.inside) in
        rw same (
          inl (
            f.inside,
            (f.run index (omega arith) (omega arith)).1,
            λ j lt. single j (omega (arith, f.inside)) (f.least j (omega arith) lt),
            λ i. ground (arith, bits i),
          ))
    go index map' (inr (e, same, none)) =
        inr (ground arith, same, λ j lt. single j lt (none j (omega arith) lt))

-- With a map of at most 2 ^ 31 bits, fdtable_open gives the descriptor the first number whose bit
-- is set in the map, and clears that bit; or no bit is set, the number is -1 and the map stays as
-- it was.
pub open-IsTakenNumber :
    (fd stream : ℕ) (s : FdState)
    → s.freefdmap.bitcount ≤ 2 ^ 31
    → let s' = fdtable_open fd stream s in IsTakenNumber s.freefdmap (fd_get fd s') s'.freefdmap
unfolding fdtable_open fd_get
open-IsTakenNumber fd stream s small = rw (==-refl fd) (taken_number s.freefdmap small)

create-bitcount : (cnt : ℕ) → (bitmap_create cnt).bitcount ≡ cnt
unfolding bitmap_create
create-bitcount cnt = refl

create_fdtable-bitcount :
    (con cnt : ℕ) (s : FdState) → (create_fdtable con cnt s).freefdmap.bitcount ≡ cnt
unfolding create_fdtable
create_fdtable-bitcount con cnt s = set-bitcount (bitmap_create cnt) 0 3 true ∙ create-bitcount cnt

-- The map of a new table: the bits of the three standard streams are set and no other.
pub test-create_fdtable :
    (con cnt i : ℕ) (s : FdState)
    → bitmap_test (create_fdtable con cnt s).freefdmap i ≡ (ltb i 3 && ltb i cnt)
unfolding create_fdtable
test-create_fdtable con cnt i s =
    rw (test-set (bitmap_create cnt) 0 3 true i)
      (ground (arith, test-create cnt i, create-bitcount cnt))

-- The first descriptor that is opened in a new table, with between one and 2 ^ 31 numbers, has the
-- number 0, which is reserved for the standard input, and its bit is cleared.
pub first_open-stdin :
    (con cnt fd stream : ℕ) (s : FdState)
    → 0 < cnt
    → cnt ≤ 2 ^ 31
    → let s' = fdtable_open fd stream (create_fdtable con cnt s) in
      (fd_get fd s' ≡ 0) × (bitmap_test s'.freefdmap 0 ≡ false)
first_open-stdin con cnt fd stream s some_fd small =
    let t = create_fdtable con cnt s in
    let s' = fdtable_open fd stream t in
    let bits : t.freefdmap.bitcount ≡ cnt = create_fdtable-bitcount con cnt s in
    elim (open-IsTakenNumber fd stream t (omega (arith, bits))) [
      | inl (inside, held, least, cleared) ↦
          let zero_number : fd_get fd s' ≡ 0 =
            ground (arith, least 0, test-create_fdtable con cnt 0 s) in
          (zero_number, ground (arith, cleared 0))
      | inr (number, same, clear) ↦
          absurd (ground (arith, clear 0, test-create_fdtable con cnt 0 s))
    ]

-- sget on a map of at most 2 ^ 31 bits, none of them set, returns -1 and takes no number.
pub sget-fails :
    (map : Bitmap)
    → map.bitcount ≤ 2 ^ 31
    → ((i : ℕ) → i < map.bitcount → bitmap_test map i ≡ false)
    → sget map ≡ (2 ^ 32 - 1, map)
unfolding sget
sget-fails map small clear = elim (taken_number map small) [
  | inl (inside, held, least, cleared) ↦
      absurd (ground (arith, clear ((bitmap_scan_and_flip map 0 1 true).0 % 2 ^ 32)))
  | inr (number, same, none) ↦ ground (arith, number, same)
]
