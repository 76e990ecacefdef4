-- ===== src/Stdio/Cut.antt =====
-- What a formatted write passes to `write`.
use dunkos.Common.{ℕ, suc, ◌+◌, ◌<◌, ◌≤◌, ◌≡◌, refl, ap, ◌∙◌, arith, if◌then◌else◌}
use dunkos.Common.{List, [], ◌∷◌, ◌++◌, ◌==◌, length, get_or, false}
use dunkos.Common.Memory.{zeroed}
use dunkos.Strings.{Bytes}
use dunkos.Stdio.Defs.{Program, bytes_at, write}
use dunkos.Stdio.Formatted.{Vsnprintf, dupformat, vdprintf}

-- vsnprintf as the C standard has it, for a format whose text is `text`: the result is the length of
-- the text; of a destination of `sz` bytes the text and a 0 behind it are written as far as they fit,
-- the last byte being the 0, and with `sz` 0 nothing is written.
pub record IsStandard (vsnprintf : Vsnprintf) (format : ℕ) (argv : List ℕ) (text : Bytes → List ℕ)
    : Type 0 where
  pub result :
      (dest sz : ℕ) (mem : Bytes) → (vsnprintf dest sz format argv mem).0 ≡ length (text mem)
  pub nothing : (dest : ℕ) (mem : Bytes) → (vsnprintf dest 0 format argv mem).1 ≡ mem
  pub byte :
      (dest sz : ℕ) (mem : Bytes) (k : ℕ)
      → k < sz
      → k ≤ length (text mem)
      → (vsnprintf dest sz format argv mem).1 (dest + k)
        ≡ (if k + 1 == sz then 0 else get_or (text mem) k 0)

-- A text with its last byte replaced by 0.
abbrev pub cut : List ℕ → List ℕ
cut [] = []
cut (x ∷ []) = 0 ∷ []
cut (x ∷ y ∷ xs) = x ∷ cut (y ∷ xs)

bytes_at-cut :
    (xs : List ℕ) (m : Bytes) (p : ℕ)
    → ((k : ℕ) → k < length xs → m (p + k) ≡ (if k + 1 == length xs then 0 else get_or xs k 0))
    → bytes_at m p (length xs) ≡ cut xs
unfolding bytes_at
bytes_at-cut [] m p h = refl
bytes_at-cut (x ∷ []) m p h = ap (λ v. v ∷ []) (ap m (omega arith) ∙ h 0 (omega arith))
bytes_at-cut (x ∷ y ∷ xs) m p h =
    let first : (0 + 1 == length (x ∷ y ∷ xs)) ≡ false = ground arith in
    let here : m p ≡ x = ap m (omega arith) ∙ h 0 (omega arith) ∙ rw first refl in
    let next : (k : ℕ) → get_or (x ∷ y ∷ xs) (k + 1) 0 ≡ get_or (y ∷ xs) k 0 =
      λ k. let succ : k + 1 ≡ suc k = omega arith in ap (λ i. get_or (x ∷ y ∷ xs) i 0) succ in
    ap (λ v. v ∷ bytes_at m (p + 1) (length (y ∷ xs))) here
    ∙ ap (λ vs. x ∷ vs)
        (bytes_at-cut (y ∷ xs) m (p + 1)
          (λ k lt. ap m (omega arith) ∙ h (k + 1) (omega (arith, lt)) ∙ ground (arith, next k)))

module _ (vsnprintf : Vsnprintf) (format : ℕ) (argv : List ℕ) (text : Bytes → List ℕ)
    (standard : IsStandard vsnprintf format argv text) (block : ℕ) (s : Program)
    (apart : text (zeroed block (length (text s.memory)) s.memory) ≡ text s.memory) where
  -- The second call of vsnprintf, for the size and memory that the first one leaves.
  printed : ℕ × Bytes → ℕ × Bytes
  printed (n, mem) = vsnprintf block n format argv (zeroed block n mem)

  measured : vsnprintf 0 0 format argv s.memory ≡ (length (text s.memory), s.memory)
  measured = λ i. (standard.result 0 0 s.memory i, standard.nothing 0 s.memory i)

  printed-argc : (printed (length (text s.memory), s.memory)).0 ≡ length (text s.memory)
  unfolding printed
  printed-argc =
      let n = length (text s.memory) in
      standard.result block n (zeroed block n s.memory) ∙ ap length apart

  printed-bytes :
      bytes_at (printed (length (text s.memory), s.memory)).1 block (length (text s.memory))
      ≡ cut (text s.memory)
  unfolding printed
  printed-bytes =
      let n = length (text s.memory) in
      let mem = zeroed block n s.memory in
      bytes_at-cut (text s.memory) (vsnprintf block n format argv mem).1 block (λ k lt.
        standard.byte block n mem k lt (ground (arith, lt, ap length apart))
        ∙ ap (λ t. if k + 1 == n then 0 else get_or t k 0) apart)

  -- With a vsnprintf as the C standard has it, and a block that does not overlap what is printed, a
  -- formatted write to a descriptor returns the length of the text, but in the one call of `write`
  -- that it makes the text's last byte is replaced by 0.
  pub vdprintf-cut :
      (fd : ℕ)
      → let (argc, u) = vdprintf vsnprintf block fd format argv s in
        (argc ≡ length (text s.memory))
        × (u.written ≡ s.written ++ ((fd, cut (text s.memory)) ∷ []))
  unfolding vdprintf dupformat write printed
  vdprintf-cut fd = (
    ap (λ r. (printed r).0) measured ∙ printed-argc,
    ap (λ r. s.written ++ ((fd, bytes_at (printed r).1 block r.0) ∷ [])) measured
        ∙ ap (λ bs. s.written ++ ((fd, bs) ∷ [])) printed-bytes,
  )
