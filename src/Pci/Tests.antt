-- ===== src/Pci/Tests.antt =====
-- The PCI theorems on a memory with the signature in the second place, and on one without it.
use dunkos.Common.{ℕ, ◌+◌, ◌-◌, ◌*◌, ◌<◌, ◌≡◌, refl, ap, ◌∙◌, arith, true, false}
use dunkos.Common.{some, leb, ltb, if◌then◌else◌, [], ◌∷◌, get_or}
use dunkos.Strings.{Bytes, strncmp}
use dunkos.Pci.Defs.{find_rsdp}
use dunkos.Pci.Rsdp.{is_rsdp, find_rsdp-first}

-- "RSD PTR " at 256 and at 0xE0010
abbrev firmware : Bytes
firmware q =
    let text = b'R' ∷ b'S' ∷ b'D' ∷ b' ' ∷ b'P' ∷ b'T' ∷ b'R' ∷ b' ' ∷ [] in
    if ltb q 264
    then get_or text (q - 256) 0
    else (if leb 0xE0010 q then get_or text (q - 0xE0010) 0 else 0)

not_first : is_rsdp firmware 256 0xE0000 ≡ false
unfolding strncmp
not_first = refl

second : is_rsdp firmware 256 0xE0010 ≡ true
unfolding strncmp
second = refl

find_rsdp-first_example : find_rsdp 5 firmware 256 ≡ some 0xE0010
find_rsdp-first_example =
    find_rsdp-first firmware 256 1 5
      (λ j h. ap (λ i. is_rsdp firmware 256 (0xE0000 + 16 * i)) (only_zero j h) ∙ not_first) second
      (omega arith) (omega arith)
  where
    only_zero : (j : ℕ) → j < 1 → j ≡ 0
    only_zero j h = omega arith

nowhere : (q : ℕ) → is_rsdp (λ _. 0) 256 (16 * q) ≡ false
unfolding strncmp
nowhere q = refl
