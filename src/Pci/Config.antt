-- ===== src/Pci/Config.antt =====
-- The address of a word of the configuration space.
use Prim.Native.Nat.{bit_and, bit_or}
use dunkos.Common.{ℕ, ◌+◌, ◌*◌, ◌/◌, ◌%◌, ◌^◌, ◌<◌, ◌≡◌, ap, ◌∙◌, arith}
use dunkos.Common.Bits.Masks.{bit_and-shifted, bit_and-ones, bit_or-disjoint, bit_or_comm}
use dunkos.Pci.Defs.{config_address}

low_bits : (x : ℕ) → bit_and x 0xFC ≡ x / 4 % 64 * 4
low_bits x = bit_and-shifted 2 x 63 ∙ ap (λ w. w * 4) (bit_and-ones 6 (x / 4))

config_address_lem :
    (lbus ldev lfunc ofs : ℕ)
    → lbus < 256
    → ldev < 32
    → lfunc < 8
    → config_address lbus ldev lfunc ofs
      ≡ 2 ^ 31 + lbus * 2 ^ 16 + ldev * 2 ^ 11 + lfunc * 2 ^ 8 + ofs * 2 / 4 % 64 * 4
unfolding config_address
config_address_lem lbus ldev lfunc ofs hb hd hf =
    let low = ofs * 2 / 4 % 64 * 4 in
    let m₁ = lbus * 2 ^ 5 + ldev in
    let m₂ = m₁ * 2 ^ 3 + lfunc in
    let s₁ : bit_or (lbus * 2 ^ 16) (ldev * 2 ^ 11) ≡ m₁ * 2 ^ 11 =
      bit_or-disjoint 16 lbus (ldev * 2 ^ 11) (omega arith) ∙ omega arith in
    let s₂ : bit_or (m₁ * 2 ^ 11) (lfunc * 2 ^ 8) ≡ m₂ * 2 ^ 8 =
      bit_or-disjoint 11 m₁ (lfunc * 2 ^ 8) (omega arith) ∙ omega arith in
    let s₃ : bit_or (m₂ * 2 ^ 8) low ≡ m₂ * 2 ^ 8 + low = bit_or-disjoint 8 m₂ low (omega arith) in
    let s₄ : bit_or (m₂ * 2 ^ 8 + low) (2 ^ 31) ≡ 2 ^ 31 + (m₂ * 2 ^ 8 + low) =
      bit_or_comm (m₂ * 2 ^ 8 + low) (2 ^ 31)
      ∙ bit_or-disjoint 31 1 (m₂ * 2 ^ 8 + low) (omega arith) in
    rw (low_bits (ofs * 2), s₁, s₂, s₃, s₄) (omega arith)

-- The bus, the device, the function and the offset can all be read off the address that goes out to
-- the port, the offset in bytes and rounded down to four, with the highest bit set. (The device and
-- the function are in range, and the bus is a byte.)
pub config_address-fields :
    (lbus ldev lfunc ofs : ℕ)
    → lbus < 256
    → ldev < 32
    → lfunc < 8
    → ofs < 128
    → let a = config_address lbus ldev lfunc ofs in
      (a / 2 ^ 31 ≡ 1)
      × (a / 2 ^ 16 % 256 ≡ lbus)
      × (a / 2 ^ 11 % 32 ≡ ldev)
      × (a / 2 ^ 8 % 8 ≡ lfunc)
      × (a % 256 ≡ ofs / 2 * 4)
config_address-fields lbus ldev lfunc ofs hb hd hf ho =
    let whole = config_address_lem lbus ldev lfunc ofs hb hd hf in
    (
      omega (arith, whole),
      omega (arith, whole),
      omega (arith, whole),
      omega (arith, whole),
      omega (arith, whole),
    )
