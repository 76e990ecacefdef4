-- ===== src/Interrupts/Apic.antt =====
-- apic.c: the registers of the local interrupt controller as 32-bit words by their index, and the
-- bytes that are sent to ports. What `cpuid` and `rdmsr` return is an argument.
use Prim.Native.Nat.{bit_and, bit_or}
use dunkos.Common.{ℕ, ◌+◌, ◌-◌, ◌/◌, ◌%◌, ◌^◌, Option, none, some, List, [], ◌∷◌, ◌++◌}
use dunkos.Common.{◌==◌, if◌then◌else◌, update, word_limit}
use dunkos.Paging.{Pools}
use dunkos.Paging.Reserve.{page_reserve}

pub record Apic : Type 0 where
  pub registers : ℕ → ℕ
  pub ports : List (ℕ × ℕ)

abbrev pub spint_ofs : ℕ
spint_ofs = 0x0F0 / 4

abbrev pub timer_ofs : ℕ
timer_ofs = 0x320 / 4

abbrev pub count_ofs : ℕ
count_ofs = 0x380 / 4

abbrev pub dvcfg_ofs : ℕ
dvcfg_ofs = 0x3E0 / 4

-- `apic_base[i] &= ~mask` and `apic_base[i] |= val`
abbrev clear : ℕ → ℕ → Apic → Apic
clear i mask a = record a {
  registers = update a.registers i (bit_and (a.registers i) (2 ^ 32 - 1 - mask));
}

abbrev set : ℕ → ℕ → Apic → Apic
set i val a = record a { registers = update a.registers i (bit_or (a.registers i) val) }

abbrev store : ℕ → ℕ → Apic → Apic
store i val a = record a { registers = update a.registers i val }

abbrev out : ℕ → ℕ → Apic → Apic
out byte port a = record a { ports = a.ports ++ ((port, byte) ∷ []) }

unfoldable pub set_apic : ℕ → ℕ → Apic → Apic
set_apic what val a = set (what / 4) val a

-- `quantum` is a 64-bit pattern.
unfoldable pub enable_apic_timer : ℕ → Apic → Apic
enable_apic_timer quantum a₀ =
    let a₁ = clear spint_ofs (2 ^ 16) (set spint_ofs 0x27 (clear spint_ofs 0xFF a₀)) in
    let a₂ = clear timer_ofs (2 ^ 16) (set timer_ofs (2 ^ 17 + 0x20) (clear timer_ofs 0xFF a₁)) in
    let a₃ = out 0xFF 0xA1 (out 0xFF 0x21 a₂) in
    store dvcfg_ofs 0x0B (store count_ofs (quantum % 2 ^ 32) a₃)

-- Whether there is a controller, and where its registers are then; `none` is a failed assertion.
unfoldable pub enable_apic : ℕ → ℕ → Pools → Option (Option ℕ × Pools)
unfolding page_reserve
enable_apic cpuid_retval msr s =
    let base = bit_and msr (word_limit - 1 - 0xFFF) in
    if bit_and cpuid_retval (2 ^ 9) == 0
    then some (none, s)
    else if base == 0xFEE00000
    then elim (page_reserve base s) [ none ↦ none | some (at, s') ↦ some (some at, s') ]
    else none

unfoldable pub signal_eoi : Apic → Apic
signal_eoi a = store 0xB0 0 a
