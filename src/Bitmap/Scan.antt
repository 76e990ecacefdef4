-- ===== src/Bitmap/Scan.antt =====
-- bitmap_scan finds the first run of bits of one value; the operations that build on it.
use Prim.Native.Nat.{max}
use dunkos.Common.{ℕ, zero, suc, ◌+◌, ◌<◌, ◌≤◌, ◌≡◌, refl, arith, ◌⊎◌, inl, inr, ◌↔◌}
use dunkos.Common.{
  Bool, true, false, not, ◌&&◌, ◌==◌, ltb, leb, if◌then◌else◌, word_limit, Bool-cases,
}
use dunkos.Bitmap.Defs.{Bitmap, bitmap_npos, bitmap_test, eqb, count_run, scan_loop, bitmap_scan}
use dunkos.Bitmap.Defs.{bitmap_flip, bitmap_scan_and_flip, bitmap_all}
use mathlib.Core.Path.{subst}
use dunkos.Bitmap.Update.{test-flip, flip-bitcount}

-- The `nbits` bits from `at` on lie in the bitmap and have the value `b`.
abbrev pub IsRun : Bitmap → Bool → ℕ → ℕ → Type 0
IsRun bm b nbits at = (j : ℕ) → at ≤ j → j < at + nbits → (j < bm.bitcount) × (bitmap_test bm j ≡ b)

eqb-eq : (a b : Bool) → eqb a b ≡ true → a ≡ b
eqb-eq true b h = ground arith
eqb-eq false b h = ground arith

eqb_refl : (a b : Bool) → a ≡ b → eqb a b ≡ true
eqb_refl true b h = ground arith
eqb_refl false b h = ground arith

-- What the inner loop counts: a run that cannot be made longer, or one of the full length.
record IsCount (bm : Bitmap) (b : Bool) (start nbits k : ℕ) : Type 0 where
  bound : k ≤ nbits
  run : IsRun bm b k start
  stop : (k ≡ nbits) ⊎ (¬ IsRun bm b 1 (start + k))

module _ (bm : Bitmap) (b : Bool) where
  count_run-IsCount :
      (left start k nbits : ℕ)
      → k + left ≡ nbits
      → IsRun bm b k start
      → IsCount bm b start nbits (count_run bm start left b k)
  unfolding count_run
  count_run-IsCount zero start k nbits e r = record {
    bound = omega arith;
    run = r;
    stop = inl (omega arith);
  }
  count_run-IsCount (suc left) start k nbits e r = elim (Bool-cases test) [
    | inl p ↦
        rw (p, count_run) (count_run-IsCount left start (k + 1) nbits (omega arith) (longer p))
    | inr p ↦ rw (p, count_run) (record { bound = omega arith; run = r; stop = inr (stuck p) })
  ]
    where
      test : Bool
      test = ltb (start + k) bm.bitcount && eqb (bitmap_test bm (start + k)) b

      longer : test ≡ true → IsRun bm b (k + 1) start
      longer p j lo hi = elim (Bool-cases (j == start + k)) [
        | inl q ↦ ground (arith, eqb-eq (bitmap_test bm (start + k)) b)
        | inr q ↦ r j lo (ground arith)
      ]

      stuck : test ≡ false → ¬ IsRun bm b 1 (start + k)
      stuck p one =
          let (inside, same) = one (start + k) (omega arith) (omega arith) in
          ground (arith, eqb_refl (bitmap_test bm (start + k)) b same)

-- `at` is the first place from `start` on, inside the bitmap, with a run of `nbits` bits.
pub record IsFirstRun (bm : Bitmap) (b : Bool) (nbits start at : ℕ) : Type 0 where
  pub from : start ≤ at
  pub inside : at < bm.bitcount
  pub run : IsRun bm b nbits at
  pub least : (q : ℕ) → start ≤ q → q < at → ¬ IsRun bm b nbits q

-- No place of the bitmap from `start` on has such a run.
abbrev pub NoRun : Bitmap → Bool → ℕ → ℕ → Type 0
NoRun bm b nbits start = (q : ℕ) → start ≤ q → q < bm.bitcount → ¬ IsRun bm b nbits q

abbrev pub IsScan : Bitmap → Bool → ℕ → ℕ → ℕ → Type 0
IsScan bm b nbits start r =
    IsFirstRun bm b nbits start r ⊎ ((r ≡ bitmap_npos) × NoRun bm b nbits start)

module _ (bm : Bitmap) (b : Bool) (nbits : ℕ) where
  -- No run begins at the places that a round of the scan leaps over.
  skipped :
      (start k : ℕ)
      → k < nbits
      → ¬ IsRun bm b 1 (start + k)
      → (q : ℕ) → start ≤ q
      → q < start + max k 1
      → ¬ IsRun bm b nbits q
  skipped start k short stop q lo hi run =
      stop λ j from to. let e : j ≡ start + k = omega arith in run j (omega arith) (omega arith)

  IsScan-skip :
      (start next r : ℕ)
      → start ≤ next
      → ((q : ℕ) → start ≤ q → q < next → ¬ IsRun bm b nbits q)
      → IsScan bm b nbits next r
      → IsScan bm b nbits start r
  IsScan-skip start next r le gap (inl f) = inl (record {
    from = omega (arith, f.from);
    inside = f.inside;
    run = f.run;
    least = λ q lo hi. elim (Bool-cases (ltb q next)) [
      | inl before ↦ gap q lo (ground arith)
      | inr behind ↦ f.least q (ground arith) hi
    ];
  })
  IsScan-skip start next r le gap (inr (e, none)) = inr (
    e,
    λ q lo hi. elim (Bool-cases (ltb q next)) [
      | inl before ↦ gap q lo (ground arith)
      | inr behind ↦ none q (ground arith) hi
    ],
  )

  stops :
      (start k : ℕ) → IsCount bm b start nbits k → (k == nbits) ≡ false → ¬ IsRun bm b 1 (start + k)
  stops start k c q = elim (c.stop) [ inl e ↦ absurd (ground arith) | inr no_more ↦ no_more ]

  scan_loop-IsScan :
      (fuel start : ℕ)
      → bm.bitcount ≤ start + fuel
      → IsScan bm b nbits start (scan_loop bm fuel start nbits b)
  unfolding scan_loop
  scan_loop-IsScan zero start h = inr (refl, λ q lo hi. absurd (omega arith))
  scan_loop-IsScan (suc fuel) start h =
      let k = count_run bm start nbits b 0 in
      let c : IsCount bm b start nbits k =
        count_run-IsCount bm b nbits start 0 nbits (omega arith)
          (λ j lo hi. absurd (omega arith)) in
      elim (Bool-cases (ltb start bm.bitcount)) [
        | inl p ↦ elim (Bool-cases (k == nbits)) [
          | inl q ↦
              rw (p, q, scan_loop)
                (inl (record {
                  from = omega arith;
                  inside = ground arith;
                  run = λ j lo hi. c.run j lo (ground arith);
                  least = λ i lo hi. absurd (omega arith);
                }))
          | inr q ↦
              rw (p, q, scan_loop)
                (IsScan-skip start (start + max k 1) _ (omega arith)
                  (skipped start k (ground (arith, c.bound)) (stops start k c q))
                  (scan_loop-IsScan fuel (start + max k 1) (omega arith)))
        ]
        | inr p ↦ rw (p, scan_loop) (inr (refl, λ q lo hi. ground arith))
      ]

-- bitmap_scan returns the first place from `start` on, inside the bitmap, where `nbits` bits of
-- value `b` lie inside it; or it returns BITMAP_NPOS and there is no such place. As many rounds of
-- its outer loop as the bitmap has bits are enough.
pub bitmap_scan-IsScan :
    (bm : Bitmap) (start nbits : ℕ) (b : Bool)
    → IsScan bm b nbits start (bitmap_scan bm start nbits b)
unfolding bitmap_scan
bitmap_scan-IsScan bm start nbits b = scan_loop-IsScan bm b nbits bm.bitcount start (omega arith)

-- What bitmap_scan_and_flip returns and leaves.
abbrev pub IsClaimed : Bitmap → Bool → ℕ → ℕ → ℕ × Bitmap → Type 0
IsClaimed bm b nbits start (r, bm') =
    (IsFirstRun bm b nbits start r
      × (bm'.bitcount ≡ bm.bitcount)
      × ((i : ℕ)
          → bitmap_test bm' i ≡ (if leb r i && ltb i (r + nbits) then not b else bitmap_test bm i)))
    ⊎ ((r ≡ bitmap_npos) × (bm' ≡ bm) × NoRun bm b nbits start)

module _ (bm : Bitmap) (start nbits : ℕ) (b : Bool) (word : bm.bitcount < word_limit) where
  flipped :
      (r i : ℕ)
      → IsFirstRun bm b nbits start r
      → bitmap_test (bitmap_flip bm r nbits) i
        ≡ (if leb r i && ltb i (r + nbits) then not b else bitmap_test bm i)
  flipped r i f = rw test-flip (elim (Bool-cases (leb r i && ltb i (r + nbits))) [
    | inl e ↦ let (inside, same) = f.run i (ground arith) (ground arith) in ground arith
    | inr e ↦ ground arith
  ])

  -- On a bitmap whose size is a word, bitmap_scan_and_flip returns the first place of a run of value
  -- `b` from `start` on and negates that run and no other bit; or it returns BITMAP_NPOS, there is no
  -- such run, and the bitmap is as it was.
  pub scan_and_flip-IsClaimed : IsClaimed bm b nbits start (bitmap_scan_and_flip bm start nbits b)
  unfolding bitmap_scan_and_flip
  scan_and_flip-IsClaimed = go (bitmap_scan bm start nbits b) (bitmap_scan-IsScan bm start nbits b)
    where
      go :
          (r : ℕ)
          → IsScan bm b nbits start r
          → IsClaimed bm b nbits start
              (r, if not (r == bitmap_npos) then bitmap_flip bm r nbits else bm)
      go r (inl f) =
          let valid : (r == bitmap_npos) ≡ false = ground (arith, f.inside) in
          rw valid (inl (f, flip-bitcount bm r nbits, λ i. flipped r i f))
      go r (inr (e, none)) =
          let invalid : (r == bitmap_npos) ≡ true = ground arith in rw invalid (inr (e, refl, none))

  -- For a place inside a bitmap whose size is a word, bitmap_all says whether the range lies in the
  -- bitmap and all its bits are `b`.
  pub all-IsRun :
      start < bm.bitcount → (bitmap_all bm start nbits b ≡ true) ↔ IsRun bm b nbits start
  unfolding bitmap_all
  all-IsRun h = go (bitmap_scan bm start nbits b) (bitmap_scan-IsScan bm start nbits b)
    where
      go : (r : ℕ) → IsScan bm b nbits start r → ((r == start) ≡ true) ↔ IsRun bm b nbits start
      go r (inl f) = (
        λ e. let e' : r ≡ start = ground arith in subst (IsRun bm b nbits) e' f.run,
        λ run. elim (Bool-cases (r == start)) [
          | inl e ↦ e
          | inr ne ↦ absurd (f.least start (omega arith) (ground (arith, f.from)) run)
        ],
      )
      go r (inr (e, none)) =
          (λ q. absurd (ground arith), λ run. absurd (none start (omega arith) h run))
