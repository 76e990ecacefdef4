-- ===== src/Pci/Defs.antt =====
-- The searches in the tables of the firmware and the reads of the configuration space.
use Prim.Native.Nat.{bit_and, bit_or, min}
use dunkos.Common.{
  ℕ, zero, suc, ◌+◌, ◌-◌, ◌*◌, ◌/◌, ◌%◌, ◌^◌, Bool, true, false, not, Option, none, some,
}
use dunkos.Common.{◌==◌, if◌then◌else◌, word_limit}
use dunkos.Common.Int.{ℤ, pos, negsuc}
use dunkos.Common.Memory.{load}
use dunkos.Strings.{Bytes, strncmp, memcpy, memsum}

abbrev pub is_zero : ℤ → Bool
is_zero (pos n) = n == 0
is_zero (negsuc n) = false

-- `getbyte(i, n)` of algo.h
unfoldable pub getbyte : ℕ → ℕ → ℕ
getbyte i n = bit_and (i / 2 ^ (n * 8)) 0xFF

-- Memory, and the value that a port gives for each address that is written to the other.
pub record Machine : Type 0 where
  pub memory : Bytes
  pub port : ℕ → ℕ

-- The sum that goes out to the port.
unfoldable pub config_address : ℕ → ℕ → ℕ → ℕ → ℕ
config_address lbus ldev lfunc ofs =
    bit_or
      (bit_or (bit_or (bit_or (lbus * 2 ^ 16) (ldev * 2 ^ 11)) (lfunc * 2 ^ 8))
        (bit_and (ofs * 2) 0xFC))
      0x80000000

-- Where the configuration of a function lies in memory; the shifts and the difference are of 32 bits.
unfoldable pub mapped_address : ℕ → ℕ → ℕ → ℕ → ℕ → ℕ
mapped_address ecfgbase startpcibusn lbus ldev lfunc =
    let from_bus = (lbus + (2 ^ 32 - startpcibusn)) % 2 ^ 32 in
    (ecfgbase + bit_or (bit_or (from_bus * 2 ^ 20 % 2 ^ 32) (ldev * 2 ^ 15)) (lfunc * 2 ^ 12))
    % word_limit

-- `cfg` is the address of a `struct cfg_space_allocation`, or 0. The parameters are bytes.
unfoldable pub pci_config_word : Machine → ℕ → ℕ → ℕ → ℕ → ℕ → ℕ
unfolding config_address mapped_address load
pci_config_word m cfg bus device func ofs =
    let lbus = bus % 256 in
    let ldev = device % 256 in
    let lfunc = func % 256 in
    if not (cfg == 0)
    then (let base = load m.memory cfg 8 in
        let startpcibusn = load m.memory (cfg + 10) 1 in
        load m.memory
          ((mapped_address base startpcibusn lbus ldev lfunc + 2 * (ofs % 256)) % word_limit) 2)
    else (let val = m.port (config_address lbus ldev lfunc (ofs % 256)) in
        bit_and (val / 2 ^ (bit_and (ofs % 256) 1 * 16)) 0xFFFF)

-- The loop of find_rsdp from `ptr` on, on fuel. `signature` is the address of the literal "RSD PTR ".
unfoldable pub rsdp_loop : ℕ → Bytes → ℕ → ℕ → Option ℕ
unfolding strncmp
rsdp_loop zero memory signature ptr = none
rsdp_loop (suc fuel) memory signature ptr = elim (ptr == 0xFFFFF) [
  | true ↦ some ptr
  | false ↦ elim (is_zero (strncmp memory ptr signature 8)) [
    | true ↦ some ptr
    | false ↦ rsdp_loop fuel memory signature ((ptr + 16) % word_limit)
  ]
]

-- The address that is found, 0 for `NULL`.
unfoldable pub find_rsdp : ℕ → Bytes → ℕ → Option ℕ
unfolding rsdp_loop
find_rsdp fuel memory signature = elim (rsdp_loop fuel memory signature 0xE0000) [
  | none ↦ none
  | some ptr ↦ some (if ptr == 0xFFFFF then 0 else ptr)
]

-- `sizeof(struct sdt_header)`
abbrev pub sdt_header_size : ℕ
sdt_header_size = 36

-- The loop of find_sdt from entry `i` on, with `left` entries to go; 0 is `NULL`.
unfoldable pub sdt_loop : ℕ → ℕ → Bytes → ℕ → ℕ → ℕ
unfolding strncmp
sdt_loop zero i memory tbl namecmpstr = 0
sdt_loop (suc left) i memory tbl namecmpstr =
    elim (is_zero (strncmp memory namecmpstr (tbl + sdt_header_size * i) 4)) [
      | true ↦ tbl + sdt_header_size * i
      | false ↦ sdt_loop left (i + 1) memory tbl namecmpstr
    ]

-- `namecmpstr` is the address of the local array, and `name` that of a name of `name_length`
-- characters. `none` is a failed assertion.
unfoldable pub find_sdt : ℕ → ℕ → ℕ → ℕ → Bytes → Option ℕ
unfolding load memsum memcpy sdt_loop getbyte
find_sdt namecmpstr name name_length psdt memory =
    let length = load memory (psdt + 4) 4 in
    let memory' = memcpy memory namecmpstr name (min name_length 4) in
    let len = (length + (word_limit - sdt_header_size)) % word_limit / sdt_header_size in
    if psdt == 0
    then none
    else if not (getbyte (memsum memory psdt length) 0 == 0)
    then none
    else some (sdt_loop len 0 memory' (psdt + sdt_header_size) namecmpstr)
