-- ===== src/Block/Transfer.antt =====
-- What block_read and block_write transfer as ide.c stands, where the transfers of sectors are empty.
use dunkos.Common.{ℕ, ◌+◌, ◌-◌, ◌*◌, ◌/◌, ◌%◌, ◌^◌, ◌<◌, ◌≤◌, ◌≡◌, ◌⊎◌, inl, inr, refl, ◌∙◌, arith}
use dunkos.Common.{◌&&◌, ◌==◌, ltb, leb, if◌then◌else◌, Bool-cases}
use dunkos.Strings.Copy.{memcpy_lem}
use dunkos.Block.Defs.{World, empty_ide, Block, block_read, block_write}

-- The areas of `n` bytes at `p` and of `m` bytes at `q` do not overlap.
abbrev pub Apart : ℕ → ℕ → ℕ → ℕ → Type 0
Apart p n q m = (p + n ≤ q) ⊎ (q + m ≤ p)

write_memory :
    (b : Block) (src start bytes : ℕ) (w : World) (q : ℕ)
    → bytes < 2 ^ 41
    → Apart src bytes b.remainder 512
    → let w' = (block_write empty_ide b src start bytes w).1 in
      (w'.disk ≡ w.disk)
      × (w'.memory q ≡ (
          if leb b.remainder q && ltb q (b.remainder + bytes % 512)
          then w.memory (src + bytes / 512 * 512 + (q - b.remainder))
          else w.memory q))
unfolding block_write empty_ide
write_memory b src start bytes w q few apart =
    let whole : bytes / 512 % 2 ^ 32 ≡ bytes / 512 = omega (arith, few) in
    elim (Bool-cases (bytes % 512 == 0)) [
      | inl e ↦ rw (whole, e) (refl, ground (arith, e))
      | inr e ↦
          rw (whole, e)
            (
              refl,
              ground (
                arith,
                memcpy_lem w.memory b.remainder (src + bytes / 512 * 512) (bytes % 512) q
                    (omega (arith, apart)),
              ),
            )
    ]

read_memory :
    (b : Block) (dest start bytes : ℕ) (w : World) (q : ℕ)
    → bytes < 2 ^ 41
    → Apart dest bytes b.remainder 512
    → let (n, w') = block_read empty_ide b dest start bytes w in
      (n ≡ 512 - bytes % 512)
      × (w'.disk ≡ w.disk)
      × (w'.memory q ≡ (
          if leb (dest + bytes / 512 * 512) q && ltb q (dest + bytes)
          then w.memory (b.remainder + (q - (dest + bytes / 512 * 512)))
          else w.memory q))
unfolding block_read empty_ide
read_memory b dest start bytes w q few apart =
    let whole : bytes / 512 % 2 ^ 32 ≡ bytes / 512 = omega (arith, few) in
    elim (Bool-cases (bytes % 512 == 0)) [
      | inl e ↦ rw (whole, e) (refl, refl, ground (arith, e))
      | inr e ↦
          rw (whole, e)
            (
              refl,
              refl,
              ground (
                arith,
                memcpy_lem w.memory (dest + bytes / 512 * 512) b.remainder (bytes % 512) q
                    (omega (arith, apart)),
              ),
            )
    ]

-- As ide.c stands, whose transfers of sectors are empty, bytes that are written to a partition never
-- reach the disk. Reading as many from anywhere in it afterwards leaves the whole sectors of the
-- destination as they were, gives it the bytes of the last write behind its last whole sector, out of
-- the partition's buffer, changes nothing else but the buffer, and returns 512 less the number of
-- those. (There are fewer than 2 ^ 41 bytes, and neither area is in the buffer.)
pub block_read-block_write :
    (b : Block) (src dest start start' bytes q : ℕ) (w : World)
    → bytes < 2 ^ 41
    → Apart src bytes b.remainder 512
    → Apart dest bytes b.remainder 512
    → Apart q 1 b.remainder 512
    → let w' = (block_write empty_ide b src start bytes w).1 in
      let (n, w'') = block_read empty_ide b dest start' bytes w' in
      (n ≡ 512 - bytes % 512)
      × (w''.disk ≡ w.disk)
      × (w''.memory q ≡ (
          if leb (dest + bytes / 512 * 512) q && ltb q (dest + bytes)
          then w.memory (src + (q - dest))
          else w.memory q))
block_read-block_write b src dest start start' bytes q w few from to out =
    let w' = (block_write empty_ide b src start bytes w).1 in
    let s = bytes / 512 * 512 in
    let (n, disk, read) = read_memory b dest start' bytes w' q few to in
    let (same, kept) = write_memory b src start bytes w q few from in
    let (_, buffer) = write_memory b src start bytes w (b.remainder + (q - (dest + s))) few from in
    (n, disk ∙ same, ground (arith, read, kept, buffer, place))
  where
    place :
        dest + bytes / 512 * 512 ≤ q
        → src + bytes / 512 * 512 + (b.remainder + (q - (dest + bytes / 512 * 512)) - b.remainder)
          ≡ src + (q - dest)
    place h = omega arith
