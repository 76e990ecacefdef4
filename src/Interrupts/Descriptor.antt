-- ===== src/Interrupts/Descriptor.antt =====
-- What the processor reads in the descriptors.
use Prim.Native.Nat.{bit_and}
use dunkos.Common.{ℕ, ◌+◌, ◌*◌, ◌/◌, ◌%◌, ◌^◌, ◌<◌, ◌≡◌, refl, arith}
use dunkos.Common.{◌==◌, if◌then◌else◌, word_limit, ==-refl, Bool-cases, inl, inr}
use dunkos.Common.Bits.Masks.{bit_and-ones, bit_and-shifted}
use dunkos.Interrupts.Defs.{InterruptTables, IdtDescriptor, TssDescriptor, idt_descriptor, init_tss}

-- The address of a handler, as the processor puts it together.
abbrev pub handler_address : IdtDescriptor → ℕ
handler_address d = d.offsetl + d.offsetm * 2 ^ 16 + d.offseth * 2 ^ 32

abbrev pub segment_base : TssDescriptor → ℕ
segment_base d = d.basel + d.basem1 * 2 ^ 16 + d.basem2 * 2 ^ 24 + d.baseh * 2 ^ 32

abbrev pub segment_limit : TssDescriptor → ℕ
segment_limit d = d.limitl + d.limith * 2 ^ 16

-- The descriptor of an interrupt leads the processor to the handler that it was set to, with the
-- selector and the flags, and the descriptors of the other interrupts lead where they did. (The
-- handler is an address of 64 bits; selector and flags fit their fields.)
pub handler-idt_descriptor :
    (which other offset selector flags : ℕ) (t : InterruptTables)
    → offset < word_limit
    → selector < 2 ^ 16
    → flags < 2 ^ 8
    → let t' = idt_descriptor which offset selector flags t in
      (handler_address (t'.idt other)
        ≡ (if other == which then offset else handler_address (t.idt other)))
      × ((t'.idt which).selector ≡ selector)
      × ((t'.idt which).typeattr ≡ flags)
unfolding idt_descriptor
handler-idt_descriptor which other offset selector flags t ho hs hf =
    let low = bit_and-ones 16 offset in
    let middle = bit_and-ones 16 (offset / 2 ^ 16) in
    let whole : bit_and offset 0xFFFF
          + bit_and (offset / 2 ^ 16) 0xFFFF * 2 ^ 16
          + offset / 2 ^ 32 % 2 ^ 32 * 2 ^ 32
        ≡ offset =
      omega (arith, low, middle) in
    (
      elim (Bool-cases (other == which)) [ inl e ↦ rw e whole | inr e ↦ rw e refl ],
      rw (==-refl which) (omega arith),
      rw (==-refl which) (omega arith),
    )

-- The descriptor of the task state segment gives the processor its address and its limit, which is
-- its last byte. (The address has 64 bits.)
pub segment-init_tss :
    (base : ℕ) (t : InterruptTables)
    → base < word_limit
    → let d = (init_tss base t).gdt64tss in (segment_base d ≡ base) × (segment_limit d ≡ 103)
unfolding init_tss
segment-init_tss base t h =
    let low = bit_and-ones 16 base in
    let middle = bit_and-shifted 16 base 0xFF in
    let third = bit_and-shifted 24 base 0xFF in
    (
      omega (
        arith,
        low,
        middle,
        third,
        bit_and-ones 8 (base / 2 ^ 16),
        bit_and-ones 8 (base / 2 ^ 24),
      ),
      refl,
    )
