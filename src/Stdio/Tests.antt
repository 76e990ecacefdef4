-- ===== src/Stdio/Tests.antt =====
-- A formatted write of "ok" by a vsnprintf for that text.
use dunkos.Common.{ℕ, ◌+◌, ◌-◌, ◌<◌, ◌≤◌, ◌≡◌, refl, arith, Bool, ◌&&◌, List, [], ◌∷◌}
use dunkos.Common.{◌==◌, ltb, leb, if◌then◌else◌, get_or, false, true}
use dunkos.Strings.{Bytes}
use dunkos.Stdio.Defs.{Program}
use dunkos.Stdio.Streams.{zero_file}
use dunkos.Stdio.Formatted.{Vsnprintf, vdprintf}
use dunkos.Stdio.Cut.{IsStandard, vdprintf-cut}

abbrev ok : List ℕ
ok = b'o' ∷ b'k' ∷ []

-- Whether the byte at `q` is written, for a destination of `sz` bytes.
abbrev is_written : ℕ → ℕ → ℕ → Bool
is_written dest sz q = leb dest q && (ltb q (dest + sz) && leb q (dest + 2))

abbrev print_ok : Vsnprintf
print_ok dest sz format argv mem = (
  2,
  λ q.
      if is_written dest sz q
      then (if (q - dest) + 1 == sz then 0 else get_or ok (q - dest) 0)
      else mem q,
)

nothing_written : (dest q : ℕ) → is_written dest 0 q ≡ false
nothing_written dest q = ground arith

unwritten : (dest q : ℕ) (mem : Bytes) → (print_ok dest 0 64 [] mem).1 q ≡ mem q
unwritten dest q mem = rw (nothing_written dest q) refl

place : (dest k : ℕ) → (dest + k) - dest ≡ k
place dest k = omega arith

inside : (dest sz k : ℕ) → k < sz → k ≤ 2 → is_written dest sz (dest + k) ≡ true
inside dest sz k lt le = ground arith

print_ok-IsStandard : IsStandard print_ok 64 [] (λ mem. ok)
print_ok-IsStandard = record {
  result = λ dest sz mem. refl;
  nothing = λ dest mem i q. unwritten dest q mem i;
  byte = λ dest sz mem k lt le. rw (inside dest sz k lt le, place dest k) refl;
}

abbrev program : Program
program = record { stream = zero_file; memory = λ q. 7; written = [] }

vdprintf-cut_example :
    let (argc, u) = vdprintf print_ok 4096 2 64 [] program in
    (argc ≡ 2) × (u.written ≡ (2, b'o' ∷ 0 ∷ []) ∷ [])
vdprintf-cut_example =
    vdprintf-cut print_ok 64 [] (λ mem. ok) print_ok-IsStandard 4096 program refl 2
