-- ===== src/Printf/Defs.antt =====
-- The functions of xprintf.c. The format and string arguments are read from memory. What is written
-- at `dest`, which overlaps none of them, is the list of bytes from there on. The arguments are the
-- 64-bit words that `va_arg` takes one after the other, and `junk` is an uninitialised variable or
-- an argument that is not there.
use dunkos.Common.{ℕ, zero, suc, ◌+◌, ◌-◌, ◌*◌, ◌/◌, ◌%◌, ◌^◌, Bool, true, false, not, ◌&&◌, ◌||◌}
use dunkos.Common.{Option, none, some, List, [], ◌∷◌, ◌++◌, get_or, ◌==◌, ltb, if◌then◌else◌}
use dunkos.Common.{word_limit, length}
use dunkos.Strings.{Bytes, strchr, strlen}
use dunkos.Printf.Conversion.{FormatArgInfo, fmt_defaults, is_right, read_format, fmtdata_int}
use dunkos.Printf.Conversion.{fmtdata_chr, fmtdata_str, fmtdata_flt, fmtdata_esc}

-- An `int` widened to 64 bits.
abbrev pub widen : ℕ → ℕ
widen a = let w = a % 2 ^ 32 in if ltb w (2 ^ 31) then w else w + (word_limit - 2 ^ 32)

-- The `value` that `write_int` takes from its argument.
unfoldable pub int_value : ℕ → FormatArgInfo → ℕ → ℕ
int_value junk f a =
    if f.szt || f.ptd
    then a
    else if f.size == 1
    then a % 256
    else if f.size == 2
    then a % 65536
    else if f.size == 4
    then widen a
    else if f.size == 8
    then a
    else if f.size == 16
    then a
    else junk

-- `isnegative(value, size)`: the value is `1 << (size * 8 - 1)`, an `int` for which the processor
-- takes the count modulo 32.
unfoldable pub isnegative : ℕ → ℕ → Bool
isnegative value size = value == widen (2 ^ ((size * 8 + 31) % 32))

-- "0123456789abcdef" and "0123456789ABCDEF"
abbrev pub digits : Bool → List ℕ
digits false =
    b'0' ∷ b'1' ∷ b'2' ∷ b'3' ∷ b'4' ∷ b'5' ∷ b'6' ∷ b'7' ∷ b'8' ∷ b'9' ∷ b'a' ∷ b'b' ∷ b'c' ∷ b'd'
    ∷ b'e' ∷ b'f' ∷ []
digits true =
    b'0' ∷ b'1' ∷ b'2' ∷ b'3' ∷ b'4' ∷ b'5' ∷ b'6' ∷ b'7' ∷ b'8' ∷ b'9' ∷ b'A' ∷ b'B' ∷ b'C' ∷ b'D'
    ∷ b'E' ∷ b'F' ∷ []

-- `while (value > 0 && prevint != (revint + 256))`, with `room` bytes of `revint` left
unfoldable pub digit_loop : ℕ → Bool → ℕ → ℕ → List ℕ
digit_loop zero upper base value = []
digit_loop (suc room) upper base value = elim (value == 0) [
  | true ↦ []
  | false ↦ get_or (digits upper) (value % base) 0 ∷ digit_loop room upper base (value / base)
]

-- The bytes of `revint` up to `prevint`.
unfoldable pub reverse_digits : Bool → ℕ → ℕ → List ℕ
unfolding digit_loop
reverse_digits upper base value =
    if not (value == 0) then digit_loop 256 upper base value else b'0' ∷ []

-- `while (npadchrs > 1) *dest++ = pad`
unfoldable pub pad_loop : ℕ → ℕ → List ℕ
pad_loop pad zero = []
pad_loop pad (suc n) = if n == 0 then [] else pad ∷ pad_loop pad n

-- `prevint--; while (nwrote--) *dest++ = *prevint--`
unfoldable pub put_reversed : List ℕ → List ℕ
put_reversed [] = []
put_reversed (x ∷ xs) = put_reversed xs ++ (x ∷ [])

-- The `switch` on the sign's padding.
unfoldable pub sign_char : FormatArgInfo → Bool → ℕ
sign_char f negative =
    if f.sign_pad == b' '
    then (if negative then b'-' else b' ')
    else if f.sign_pad == b'+'
    then (if negative then b'-' else b'+')
    else if negative
    then b'-'
    else f.pad

-- The number of padding characters before `npadchrs -= 2` is `width - nwrote`, at least 0. After that
-- it can be negative, which the test before the sign takes for true.
unfoldable pub put_int : FormatArgInfo → ℕ → List ℕ
unfolding isnegative reverse_digits pad_loop put_reversed sign_char
put_int f value =
    let negative = f.write_signed && isnegative value f.size in
    let revint = reverse_digits f.upper_digits f.base value in
    let npadchrs = f.width - length revint in
    let prefix = f.alternate_form && (f.base == 16) in
    let rest = if prefix then npadchrs - 2 else npadchrs in
    let signed = not (npadchrs == (if prefix then 2 else 0)) && f.write_signed in
    if is_right f.align
    then []
    else (if prefix then b'0' ∷ b'x' ∷ [] else [])
      ++ (pad_loop f.pad rest
          ++ ((if signed then sign_char f negative ∷ [] else []) ++ put_reversed revint))

-- `va_arg`
unfoldable pub next_arg : ℕ → List ℕ → ℕ × List ℕ
next_arg junk [] = (junk, [])
next_arg junk (a ∷ argv) = (a, argv)

unfoldable pub write_int : ℕ → FormatArgInfo → List ℕ → List ℕ × List ℕ
unfolding int_value put_int next_arg
write_int junk f argv = let (a, rest) = next_arg junk argv in (put_int f (int_value junk f a), rest)

-- `memcpy(dest, src, n)` to the output
unfoldable pub copy_out : Bytes → ℕ → ℕ → List ℕ
copy_out mem src zero = []
copy_out mem src (suc n) = mem src ∷ copy_out mem (src + 1) n

unfoldable pub write_format : ℕ → ℕ → Bytes → FormatArgInfo → List ℕ → Option (List ℕ × List ℕ)
unfolding write_int next_arg copy_out
write_format fuel junk mem f argv = elim (f.kind) [
  | fmtdata_int ↦ some (write_int junk f argv)
  | fmtdata_chr ↦ let (chr, rest) = next_arg junk argv in some ((chr % 256) ∷ [], rest)
  | fmtdata_str ↦
      let (str, rest) = next_arg junk argv in
      elim (strlen fuel mem str) [ none ↦ none | some len ↦ some (copy_out mem str len, rest) ]
  | fmtdata_flt ↦ some ([], argv)
  | fmtdata_esc ↦ some (b'%' ∷ [], argv)
]

infixl 5 ◌>>=◌
abbrev ◌>>=◌ {ℓ} : {A B : Type ℓ} → Option A → (A → Option B) → Option B
x >>= f = elim x [ none ↦ none | some a ↦ f a ]

-- The loop of `vsprintf` from `fmt_start` on and what follows it: the number of conversions and the
-- output with its terminator.
unfoldable pub vsprintf_loop :
    ℕ → ℕ → Bytes → ℕ → FormatArgInfo → List ℕ → ℕ → List ℕ → Option (ℕ × List ℕ)
vsprintf_loop zero junk mem fmt_start farg argv argc out = none
vsprintf_loop (suc fuel) junk mem fmt_start farg argv argc out =
    let rest = vsprintf_loop fuel junk mem in
    do
      fmt_end ← strchr (suc fuel) mem fmt_start b'%'
      elim (fmt_end == 0) [
        | true ↦ do
          end ← strlen (suc fuel) mem fmt_start
          some (argc, out ++ (copy_out mem fmt_start end ++ (0 ∷ [])))
        | false ↦ do
          (start, f) ← read_format (suc fuel) mem fmt_end (fmt_defaults farg)
          (written, argv') ← write_format (suc fuel) junk mem f argv
          rest start f argv' (argc + 1)
              (out ++ (copy_out mem fmt_start (fmt_end - fmt_start) ++ written))
      ]

-- `farg` is what the local variable holds at first.
unfoldable pub vsprintf : ℕ → ℕ → Bytes → ℕ → FormatArgInfo → List ℕ → Option (ℕ × List ℕ)
unfolding vsprintf_loop
vsprintf fuel junk mem format farg argv = vsprintf_loop fuel junk mem format farg argv 0 []
