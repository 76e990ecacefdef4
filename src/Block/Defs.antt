-- ===== src/Block/Defs.antt =====
-- The functions of block.c on top of sector transfers. The locks change nothing that is modelled.
use dunkos.Common.{ℕ, ◌+◌, ◌-◌, ◌*◌, ◌/◌, ◌%◌, ◌^◌, not, Option, none, some}
use dunkos.Common.{◌==◌, if◌then◌else◌}
use dunkos.Strings.{Bytes, memcpy, memset}

abbrev pub block_sector_size : ℕ
block_sector_size = 512

-- Memory, and the bytes of the disk from its first sector on.
pub record World : Type 0 where
  pub memory : Bytes
  pub disk : Bytes

-- The transfers of whole sectors that block.c calls.
pub record Ide : Type 0 where
  pub ide_read_sectors : ℕ → ℕ → ℕ → World → World
  pub ide_write_sectors : ℕ → ℕ → ℕ → World → World

-- ide.c as it stands: both functions are empty.
unfoldable pub empty_ide : Ide
empty_ide = record {
  ide_read_sectors = λ start sectors dest w. w;
  ide_write_sectors = λ start sectors src w. w;
}

-- `remainder` is the address of the buffer in the structure.
pub record Block : Type 0 where
  pub name : ℕ
  pub start : ℕ
  pub size : ℕ
  pub remainder : ℕ

pub data BlockType : Type 0 where
  block_kernel block_fs block_swap block_journal : BlockType

-- The header in the first sector.
pub record ImageHeader : Type 0 where
  pub fs_block_start : ℕ
  pub fs_block_size : ℕ
  pub swap_block_start : ℕ
  pub swap_block_size : ℕ
  pub magic : ℕ

-- `DUNKOS_MAGIK`: the bytes of "DunkOS!"
abbrev pub dunkos_magik : ℕ
dunkos_magik = 0x0021534F6B6E7544

-- What the assignments from the header leave of each device.
abbrev pub place_devices : ImageHeader → (BlockType → Block) → BlockType → Block
place_devices hdr devices block_fs = record (devices block_fs) {
  start = hdr.fs_block_start % 2 ^ 32;
  size = hdr.fs_block_size % 2 ^ 32;
}
place_devices hdr devices block_swap = record (devices block_swap) {
  start = hdr.swap_block_start % 2 ^ 32;
  size = hdr.swap_block_size % 2 ^ 32;
}
place_devices hdr devices role = devices role

-- `memset` of one buffer.
abbrev pub clear_remainder : Block → Bytes → Bytes
clear_remainder b mem = memset mem b.remainder 0 block_sector_size

-- `hdr` is what the block on the heap holds after the first sector has been read; `none` is the
-- failed assertion. The devices and memory come back.
unfoldable pub init_block_devices :
    ImageHeader → (BlockType → Block) → Bytes → Option ((BlockType → Block) × Bytes)
unfolding memset
init_block_devices hdr devices mem =
    let cleared = clear_remainder (devices block_journal) (
      clear_remainder (devices block_swap)
        (clear_remainder (devices block_fs) (clear_remainder (devices block_kernel) mem))) in
    if hdr.magic == dunkos_magik then some (place_devices hdr devices, cleared) else none

unfoldable pub block_size : Block → ℕ
block_size b = b.size

-- The numbers of the first sector, of the whole sectors, and of the bytes behind these.
abbrev pub sector_start : Block → ℕ → ℕ
sector_start b start = (b.start + start) % 2 ^ 32

abbrev pub whole_sectors : ℕ → ℕ
whole_sectors bytes = bytes / block_sector_size % 2 ^ 32

abbrev pub rest_bytes : ℕ → ℕ
rest_bytes bytes = bytes % block_sector_size

-- The result is `BLOCK_SECTOR_SIZE - rem`, whatever the number of sectors.
unfoldable pub block_read : Ide → Block → ℕ → ℕ → ℕ → World → ℕ × World
block_read ide b dest start bytes w =
    let first = sector_start b start in
    let sectors = whole_sectors bytes in
    let rem = rest_bytes bytes in
    let w₁ = ide.ide_read_sectors first sectors dest w in
    let w₂ = ide.ide_read_sectors ((first + sectors) % 2 ^ 32) 1 b.remainder w₁ in
    (
      block_sector_size - rem,
      if not (rem == 0)
          then record w₂ {
            memory = memcpy w₂.memory (dest + sectors * block_sector_size) b.remainder rem;
          }
          else w₁,
    )

unfoldable pub block_write : Ide → Block → ℕ → ℕ → ℕ → World → ℕ × World
block_write ide b src start bytes w =
    let first = sector_start b start in
    let sectors = whole_sectors bytes in
    let rem = rest_bytes bytes in
    let w₁ = ide.ide_write_sectors first sectors src w in
    let w₂ = record w₁ {
      memory = memcpy w₁.memory b.remainder (src + sectors * block_sector_size) rem;
    } in
    (
      block_sector_size - rem,
      if not (rem == 0)
          then ide.ide_write_sectors ((first + sectors) % 2 ^ 32) 1 b.remainder w₂
          else w₁,
    )
