-- ===== src/Pci/Rsdp.antt =====
-- When the search for the root table of the firmware ends.
use dunkos.Common.{ℕ, zero, suc, ◌+◌, ◌*◌, ◌%◌, ◌^◌, ◌<◌, ◌≡◌, refl, ap, sym, ◌∙◌, arith}
use dunkos.Common.{Bool, true, false, none, some, ◌==◌, word_limit}
use dunkos.Strings.{Bytes, strncmp}
use dunkos.Pci.Defs.{is_zero, rsdp_loop, find_rsdp}

not_sentinel : (q : ℕ) → (16 * q == 0xFFFFF) ≡ false
not_sentinel q = ground arith

module _ (memory : Bytes) (signature : ℕ) where
  -- Whether the signature is at an address, as the loop sees it.
  abbrev pub is_rsdp : ℕ → Bool
  is_rsdp ptr = is_zero (strncmp memory ptr signature 8)

  loop_hit :
      (fuel q : ℕ)
      → is_rsdp (16 * q) ≡ true
      → rsdp_loop (suc fuel) memory signature (16 * q) ≡ some (16 * q)
  unfolding rsdp_loop
  loop_hit fuel q hit = rw (rsdp_loop, not_sentinel q, hit) refl

  loop_miss :
      (fuel q : ℕ)
      → is_rsdp (16 * q) ≡ false
      → rsdp_loop (suc fuel) memory signature (16 * q)
        ≡ rsdp_loop fuel memory signature ((16 * q + 16) % word_limit)
  unfolding rsdp_loop
  loop_miss fuel q miss = rw (rsdp_loop, not_sentinel q, miss) refl

  rsdp_loop-first :
      (d fuel q : ℕ)
      → ((j : ℕ) → j < d → is_rsdp (16 * (q + j)) ≡ false)
      → is_rsdp (16 * (q + d)) ≡ true
      → d < fuel
      → 16 * (q + d) < word_limit
      → rsdp_loop fuel memory signature (16 * q) ≡ some (16 * (q + d))
  rsdp_loop-first d zero q before here enough small = absurd (omega (arith, enough))
  rsdp_loop-first zero (suc fuel) q before here enough small =
      let same : q + 0 ≡ q = omega arith in
      loop_hit fuel q (sym (ap (λ k. is_rsdp (16 * k)) same) ∙ here)
      ∙ ap (λ k. some (16 * k)) (sym same)
  rsdp_loop-first (suc d) (suc fuel) q before here enough small =
      let same : q + 0 ≡ q = omega arith in
      let next : (16 * q + 16) % word_limit ≡ 16 * (q + 1) = omega (arith, small) in
      let shift : (j : ℕ) → q + 1 + j ≡ q + suc j = λ j. omega arith in
      loop_miss fuel q (sym (ap (λ k. is_rsdp (16 * k)) same) ∙ before 0 (omega arith))
      ∙ ap (rsdp_loop fuel memory signature) next
      ∙ rsdp_loop-first d fuel (q + 1)
          (λ j h. ap (λ k. is_rsdp (16 * k)) (shift j) ∙ before (suc j) (omega (arith, h)))
          (ap (λ k. is_rsdp (16 * k)) (shift d) ∙ here) (omega (arith, enough))
          (omega (arith, small))
      ∙ ap (λ k. some (16 * k)) (shift d)

  -- find_rsdp returns the first of the addresses from 0xE0000 on, in steps of 16, that has the
  -- signature, once there is fuel for the steps to it; also if it is behind the end of the area,
  -- which is at 0xFFFFF.
  pub find_rsdp-first :
      (k fuel : ℕ)
      → ((j : ℕ) → j < k → is_rsdp (0xE0000 + 16 * j) ≡ false)
      → is_rsdp (0xE0000 + 16 * k) ≡ true
      → k < fuel
      → 0xE0000 + 16 * k < word_limit
      → find_rsdp fuel memory signature ≡ some (0xE0000 + 16 * k)
  unfolding find_rsdp
  find_rsdp-first k fuel before here enough small =
      let at : (j : ℕ) → 16 * (0xE000 + j) ≡ 0xE0000 + 16 * j = λ j. omega arith in
      let found : rsdp_loop fuel memory signature 0xE0000 ≡ some (16 * (0xE000 + k)) =
        rsdp_loop-first k fuel 0xE000 (λ j h. ap is_rsdp (at j) ∙ before j h)
          (ap is_rsdp (at k) ∙ here) enough (omega (arith, small)) in
      rw (find_rsdp, found, not_sentinel (0xE000 + k)) (ap some (at k))

  rsdp_loop-endless :
      ((q : ℕ) → is_rsdp (16 * q) ≡ false)
      → (fuel q : ℕ) → rsdp_loop fuel memory signature (16 * q) ≡ none
  unfolding rsdp_loop
  rsdp_loop-endless nowhere zero q = refl
  rsdp_loop-endless nowhere (suc fuel) q =
      let next : (16 * q + 16) % word_limit ≡ 16 * ((q + 1) % 2 ^ 60) = omega arith in
      loop_miss fuel q (nowhere q)
      ∙ ap (rsdp_loop fuel memory signature) next
      ∙ rsdp_loop-endless nowhere fuel ((q + 1) % 2 ^ 60)

  -- If no multiple of 16 has the signature, find_rsdp never ends, whatever the fuel: it never meets
  -- the end of the area, which is no multiple of 16, and so never returns `NULL`.
  pub find_rsdp-endless :
      ((q : ℕ) → is_rsdp (16 * q) ≡ false) → (fuel : ℕ) → find_rsdp fuel memory signature ≡ none
  unfolding find_rsdp
  find_rsdp-endless nowhere fuel = rw (find_rsdp, rsdp_loop-endless nowhere fuel 0xE000) refl
