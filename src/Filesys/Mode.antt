-- ===== src/Filesys/Mode.antt =====
-- The mode of a file in the word of its inode.
use Prim.Native.Nat.{bit_and, bit_or}
use dunkos.Common.Memory.{load, load-lt, load-store, store}
use dunkos.Common.{ℕ, ◌+◌, ◌-◌, ◌*◌, ◌/◌, ◌%◌, ◌^◌, ◌<◌, ◌≡◌, refl, ap, ◌∙◌, arith}
use dunkos.Common.{false, some, ◌==◌, word_limit}
use dunkos.Common.{==-refl}
use dunkos.Common.Bits.Masks.{
  bit_and-div, bit_or-div, bit_and-shifted, bit_and-ones, bit_or-disjoint,
}
use dunkos.Filesys.State.{Fs, Inode, ◌>>=◌, set_memory, set_inode, release_inode}
use dunkos.Filesys.Files.{File, info_at, file_set_mode, file_get_mode, file_get_info, file_set_info}

-- Setting the mode changes the bits 8 to 16 of the word and no others.
mode_word :
    (info mode : ℕ)
    → bit_or (bit_and info (word_limit - 1 - 0x1FF00)) (mode * 2 ^ 8) / 2 ^ 8
      ≡ bit_or (bit_and (info / 2 ^ 8) (140737488355327 * 2 ^ 9)) mode
mode_word info mode =
    let shifted : mode * 2 ^ 8 / 2 ^ 8 ≡ mode = omega arith in
    bit_or-div 8 (bit_and info (word_limit - 1 - 0x1FF00)) (mode * 2 ^ 8)
    ∙ rw (shifted) (ap (λ w. bit_or w mode) (bit_and-div 8 info (word_limit - 1 - 0x1FF00)))

mode_field :
    (info mode : ℕ)
    → mode < 512
    → info < word_limit
    → bit_or (bit_and info (word_limit - 1 - 0x1FF00)) (mode * 2 ^ 8) / 2 ^ 8
      ≡ mode + 512 * (info / 2 ^ 17)
mode_field info mode few small =
    let kept : bit_and (info / 2 ^ 8) (140737488355327 * 2 ^ 9) ≡ info / 2 ^ 17 * 2 ^ 9 = omega (
      arith,
      bit_and-shifted 9 (info / 2 ^ 8) 140737488355327,
      bit_and-ones 47 (info / 2 ^ 8 / 2 ^ 9),
    ) in
    mode_word info mode
    ∙ ap (λ w. bit_or w mode) kept
    ∙ bit_or-disjoint 9 (info / 2 ^ 17) mode few
    ∙ omega arith

abbrev acquired : File → Fs → Fs
acquired f s =
    set_inode f.inode (record (s.inodes f.inode) { lock = (s.inodes f.inode).lock - 1 }) s

at_set : (a : ℕ) (i : Inode) (s : Fs) → (set_inode a i s).inodes a ≡ i
at_set a i s = rw (==-refl a) refl

acquired_info : (f : File) (s : Fs) → info_at f (acquired f s) ≡ info_at f s
acquired_info f s = ap (λ i. i.inode_data) (at_set f.inode _ s)

released_info : (f : File) (s : Fs) → info_at f (release_inode f.inode s) ≡ info_at f s
released_info f s = ap (λ i. i.inode_data) (at_set f.inode _ s)

released-free : (f : File) (s : Fs) → (((release_inode f.inode s).inodes f.inode).lock == 0) ≡ false
released-free f s = ap (λ i. i.lock == 0) (at_set f.inode _ s) ∙ ground arith

get_info_lem :
    (f : File) (s : Fs)
    → ((s.inodes f.inode).lock == 0) ≡ false
    → file_get_info f s
      ≡ some (load s.world.memory (info_at f s) 8, release_inode f.inode (acquired f s))
unfolding file_get_info
get_info_lem f s free =
    rw free refl
    ∙ ap (λ p. some (load s.world.memory p 8, release_inode f.inode (acquired f s)))
        (acquired_info f s)

set_info_lem :
    (f : File) (v : ℕ) (s : Fs)
    → ((s.inodes f.inode).lock == 0) ≡ false
    → file_set_info f v s
      ≡ some (
          release_inode f.inode
            (set_memory (store (info_at f s) 8 v s.world.memory) (acquired f s)))
unfolding file_set_info
set_info_lem f v s free =
    rw free refl
    ∙ ap
        (λ p. some (release_inode f.inode (set_memory (store p 8 v s.world.memory) (acquired f s))))
        (acquired_info f s)

-- Setting the mode of a file and reading it back gives the mode, but the bits of the word above the
-- nine of the mode come with it: the mode is not masked out of the word. Both calls end. (The mode
-- has nine bits, and nobody holds the inode's lock.)
pub get_mode-set_mode :
    (f : File) (mode : ℕ) (s : Fs)
    → mode < 512
    → ((s.inodes f.inode).lock == 0) ≡ false
    → (file_set_mode f mode s >>= λ s'. some (file_get_mode f s'))
      ≡ some ((mode + 512 * (load s.world.memory (info_at f s) 8 / 2 ^ 17)) % 2 ^ 32)
unfolding file_set_mode file_get_mode
get_mode-set_mode f mode s few free =
    let mem = s.world.memory in
    let at = info_at f s in
    let word = load mem at 8 in
    let word' = bit_or (bit_and word (word_limit - 1 - 0x1FF00)) (mode * 2 ^ 8) in
    let s₁ = release_inode f.inode (acquired f s) in
    let stored = set_memory (store (info_at f s₁) 8 word' mem) (acquired f s₁) in
    let kept : info_at f (release_inode f.inode stored) ≡ info_at f s₁ =
      released_info f stored ∙ acquired_info f s₁ in
    ap
      (λ o.
        (o >>= λ (all, s').
        file_set_info f (bit_or (bit_and all (word_limit - 1 - 0x1FF00)) (mode * 2 ^ 8)) s')
        >>= λ s'. some (file_get_mode f s'))
      (get_info_lem f s free)
    ∙ ap (λ o. o >>= λ s'. some (file_get_mode f s'))
        (set_info_lem f word' s₁ (released-free f (acquired f s)))
    ∙ ap (λ p. some (load (store (info_at f s₁) 8 word' mem) p 8 / 2 ^ 8 % 2 ^ 32)) kept
    ∙ ap (λ w. some (w / 2 ^ 8 % 2 ^ 32)) (load-store (info_at f s₁) 8 word' mem)
    ∙ ap some (read_mode word')
    ∙ ap (λ m. some (m % 2 ^ 32)) (mode_field word mode few (load-lt mem at 8))
  where
    read_mode : (w : ℕ) → w % 256 ^ 8 / 2 ^ 8 % 2 ^ 32 ≡ w / 2 ^ 8 % 2 ^ 32
    read_mode w = omega arith
