-- ===== src/Printf/Digits.antt =====
-- The digits that are written for a number.
use dunkos.Common.{ℕ, zero, suc, ◌+◌, ◌-◌, ◌*◌, ◌/◌, ◌%◌, ◌^◌, ◌<◌, ◌≤◌, ◌≡◌, refl, arith, ap, ◌∙◌}
use dunkos.Common.{
  Bool, true, false, ◌&&◌, ◌||◌, ◌==◌, leb, ltb, if◌then◌else◌, Bool-cases, inl, inr, ◌⊎◌,
}
use dunkos.Common.{List, [], ◌∷◌, ◌++◌, get_or, word_limit, length}
use dunkos.Printf.Defs.{digits, digit_loop, reverse_digits, put_reversed, put_int}
use dunkos.Printf.Conversion.{FormatArgInfo}
use native.Mathlib.Nat.{pow-suc}
use dunkos.Printf.Defs.{pad_loop, write_int, int_value, next_arg}
use dunkos.Printf.Conversion.{is_right}

-- The digit that a character stands for.
abbrev pub digit_value : ℕ → ℕ
digit_value c = if ltb c 58 then c - 48 else if ltb c 97 then c - 55 else c - 87

-- The number that characters stand for, the most significant digit first.
abbrev pub number_from : ℕ → ℕ → List ℕ → ℕ
number_from base acc [] = acc
number_from base acc (c ∷ cs) = number_from base (acc * base + digit_value c) cs

abbrev pub number_of : ℕ → List ℕ → ℕ
number_of base cs = number_from base 0 cs

-- The test holds of every number below `n`.
every_below : ℕ → (ℕ → Bool) → Bool
every_below zero p = true
every_below (suc n) p = p n && every_below n p

every_below_sound : (n d : ℕ) (p : ℕ → Bool) → d < n → every_below n p ≡ true → p d ≡ true
unfolding every_below
every_below_sound zero d p lt h = absurd (omega arith)
every_below_sound (suc n) d p lt h = elim (Bool-cases (d == n)) [
  | inl e ↦ let e' : d ≡ n = ground arith in ap p e' ∙ ground arith
  | inr e ↦ every_below_sound n d p (ground arith) (ground arith)
]

digit_table : (upper : Bool) (d : ℕ) → d < 16 → digit_value (get_or (digits upper) d 0) ≡ d
unfolding every_below
digit_table true d lt =
    let h = every_below_sound 16 d (λ k. digit_value (get_or (digits true) k 0) == k) lt refl in
    ground arith
digit_table false d lt =
    let h = every_below_sound 16 d (λ k. digit_value (get_or (digits false) k 0) == k) lt refl in
    ground arith

number_from-snoc :
    (base acc c : ℕ) (cs : List ℕ)
    → number_from base acc (cs ++ (c ∷ [])) ≡ number_from base acc cs * base + digit_value c
number_from-snoc base acc c [] = refl
number_from-snoc base acc c (x ∷ cs) = number_from-snoc base (acc * base + digit_value x) c cs

-- The bases that conversions have.
abbrev pub IsBase : ℕ → Type 0
IsBase b = (b ≡ 8) ⊎ ((b ≡ 10) ⊎ (b ≡ 16))

base_step : (b v : ℕ) → IsBase b → (v / b * b + v % b ≡ v) × (v / b * 2 ≤ v) × (v % b < 16)
base_step b v (inl e) = rw e (omega arith, omega arith, omega arith)
base_step b v (inr (inl e)) = rw e (omega arith, omega arith, omega arith)
base_step b v (inr (inr e)) = rw e (omega arith, omega arith, omega arith)

-- With room for as many digits as the value has bits, the digits stand for the value.
digit_loop-number_of :
    (room : ℕ) (upper : Bool) (base value : ℕ)
    → IsBase base
    → value < 2 ^ room
    → number_of base (put_reversed (digit_loop room upper base value)) ≡ value
unfolding digit_loop put_reversed
digit_loop-number_of zero upper base value b h = omega arith
digit_loop-number_of (suc room) upper base value b h = elim (Bool-cases (value == 0)) [
  | inl e ↦ rw (e, digit_loop) (ground arith)
  | inr e ↦
      let (whole, half, small) = base_step base value b in
      let d = get_or (digits upper) (value % base) 0 in
      let rest = put_reversed (digit_loop room upper base (value / base)) in
      let lower : number_of base rest ≡ value / base =
        digit_loop-number_of room upper base (value / base) b
          (omega (arith, half, pow-suc 2 room)) in
      let last : digit_value d ≡ value % base = digit_table upper (value % base) small in
      rw (e, digit_loop) (number_from-snoc base 0 d rest ∙ rw (lower, last) whole)
]

reverse_digits-length :
    (upper : Bool) (base value : ℕ) → 0 < length (reverse_digits upper base value)
unfolding reverse_digits digit_loop
reverse_digits-length upper base value = elim (Bool-cases (value == 0)) [
  | inl e ↦ rw e (omega arith)
  | inr e ↦ rw (e, digit_loop) (omega arith)
]

-- For the width 1 that every conversion has, and neither right alignment nor the alternate form, the
-- output is the digits alone.
put_int_lem :
    (f : FormatArgInfo) (value : ℕ)
    → f.width ≡ 1
    → is_right f.align ≡ false
    → f.alternate_form ≡ false
    → put_int f value ≡ put_reversed (reverse_digits f.upper_digits f.base value)
unfolding put_int pad_loop
put_int_lem f value w al alt =
    let none : 1 - length (reverse_digits f.upper_digits f.base value) ≡ 0 =
      omega (arith, reverse_digits-length f.upper_digits f.base value) in
    rw (w, al, alt, none) refl

reverse_digits-number_of :
    (upper : Bool) (base value : ℕ)
    → IsBase base
    → value < 2 ^ 256
    → number_of base (put_reversed (reverse_digits upper base value)) ≡ value
unfolding reverse_digits put_reversed
reverse_digits-number_of upper base value b h = elim (Bool-cases (value == 0)) [
  | inl e ↦ rw e (ground arith)
  | inr e ↦ rw e (digit_loop-number_of 256 upper base value b h)
]

-- Whether a character is one of 0 to 9, or a letter that stands for a digit.
abbrev pub is_digit : Bool → ℕ → Bool
is_digit upper c =
    (leb b'0' c && leb c b'9')
    || (if upper then leb b'A' c && leb c b'F' else leb b'a' c && leb c b'f')

-- Every character is a digit of the base.
abbrev pub all_digits : Bool → ℕ → List ℕ → Bool
all_digits upper base [] = true
all_digits upper base (c ∷ cs) =
    (is_digit upper c && ltb (digit_value c) base) && all_digits upper base cs

all_digits-snoc :
    (upper : Bool) (base c : ℕ) (cs : List ℕ)
    → all_digits upper base (cs ++ (c ∷ []))
      ≡ (all_digits upper base cs && (is_digit upper c && ltb (digit_value c) base))
all_digits-snoc upper base c [] = ground arith
all_digits-snoc upper base c (x ∷ xs) = ground (arith, all_digits-snoc upper base c xs)

digit_of : (upper : Bool) (d : ℕ) → d < 16 → is_digit upper (get_or (digits upper) d 0) ≡ true
unfolding every_below
digit_of true d lt = every_below_sound 16 d (λ k. is_digit true (get_or (digits true) k 0)) lt refl
digit_of false d lt =
    every_below_sound 16 d (λ k. is_digit false (get_or (digits false) k 0)) lt refl

remainder-lt : (b v : ℕ) → IsBase b → v % b < b
remainder-lt b v (inl e) = rw e (omega arith)
remainder-lt b v (inr (inl e)) = rw e (omega arith)
remainder-lt b v (inr (inr e)) = rw e (omega arith)

digit_loop-digits :
    (room : ℕ) (upper : Bool) (base value : ℕ)
    → IsBase base
    → all_digits upper base (put_reversed (digit_loop room upper base value)) ≡ true
unfolding digit_loop put_reversed
digit_loop-digits zero upper base value b = refl
digit_loop-digits (suc room) upper base value b = elim (Bool-cases (value == 0)) [
  | inl e ↦ rw (e, digit_loop) refl
  | inr e ↦
      let d = get_or (digits upper) (value % base) 0 in
      let rest = put_reversed (digit_loop room upper base (value / base)) in
      let small = (base_step base value b).2 in
      let least : ltb (digit_value d) base ≡ true =
        rw (digit_table upper (value % base) small) (ground (arith, remainder-lt base value b)) in
      let kind = digit_of upper (value % base) small in
      let before = digit_loop-digits room upper base (value / base) b in
      rw (e, digit_loop) (all_digits-snoc upper base d rest ∙ rw (before, kind, least) refl)
]

reverse_digits-digits :
    (upper : Bool) (base value : ℕ)
    → IsBase base
    → all_digits upper base (put_reversed (reverse_digits upper base value)) ≡ true
unfolding reverse_digits put_reversed
reverse_digits-digits upper base value b = elim (Bool-cases (value == 0)) [
  | inl e ↦ rw e (ground (arith, remainder-lt base 0 b))
  | inr e ↦ rw e (digit_loop-digits 256 upper base value b)
]

-- An integer conversion in base 8, 10 or 16, with the width 1 and without right alignment and the
-- alternate form, takes one argument and writes digits of that base, in the conversion's case, and
-- nothing else, so never a sign; they stand for the value as an unsigned number, also for a signed
-- conversion. (The value is a word.)
pub write_int-number_of :
    (junk : ℕ) (f : FormatArgInfo) (a : ℕ) (argv : List ℕ)
    → f.width ≡ 1
    → is_right f.align ≡ false
    → f.alternate_form ≡ false
    → IsBase f.base
    → int_value junk f a < word_limit
    → let (out, rest) = write_int junk f (a ∷ argv) in
      (all_digits f.upper_digits f.base out ≡ true)
      × (number_of f.base out ≡ int_value junk f a)
      × (rest ≡ argv)
unfolding write_int next_arg
write_int-number_of junk f a argv w al alt b h = (
  rw (put_int_lem f (int_value junk f a) w al alt)
      (reverse_digits-digits f.upper_digits f.base (int_value junk f a) b),
  rw (put_int_lem f (int_value junk f a) w al alt)
      (reverse_digits-number_of f.upper_digits f.base (int_value junk f a) b (omega arith)),
  refl,
)
