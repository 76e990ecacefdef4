-- ===== src/Strings/Scan.antt =====
-- strlen, strchr and strncmp on C strings.
use dunkos.Common.{ℕ, zero, suc, ◌+◌, ◌-◌, ◌^◌, ◌<◌, ◌≡◌, ◌≢◌, arith, ap, ◌∙◌, some}
use dunkos.Common.{false, ◌||◌, ◌==◌, if◌then◌else◌}
use dunkos.Common.{List, [], ◌∷◌, length, has, word_limit}
use dunkos.Common.Int.{pos, ◌-ℤ◌, signed_char}
use dunkos.Strings.Defs.{Bytes, strlen_loop, strlen, strchr, strncmp_loop, strncmp}

-- At `s` memory holds the characters `cs`, none of them zero, and then a zero.
abbrev pub IsString : Bytes → ℕ → List ℕ → Type 0
IsString mem s [] = mem s ≡ 0
IsString mem s (c ∷ cs) = (mem s ≡ c) × (c ≢ 0) × IsString mem (s + 1) cs

strlen_loop_lem :
    (fuel : ℕ) (mem : Bytes) (s n : ℕ) (cs : List ℕ)
    → IsString mem s cs
    → length cs < fuel
    → n + length cs < word_limit
    → strlen_loop fuel mem s n ≡ some (n + length cs)
unfolding strlen_loop
strlen_loop_lem zero mem s n cs h f w = absurd (omega arith)
strlen_loop_lem (suc fuel) mem s n [] h f w = ground arith
strlen_loop_lem (suc fuel) mem s n (c ∷ cs) h f w =
    ground (arith, strlen_loop_lem fuel mem (s + 1) (n + 1) cs h.2)

-- With more rounds than the string has characters, strlen ends with their number, if that is a
-- word.
pub strlen_lem :
    (fuel : ℕ) (mem : Bytes) (s : ℕ) (cs : List ℕ)
    → IsString mem s cs
    → length cs < fuel
    → length cs < word_limit
    → strlen fuel mem s ≡ some (length cs)
unfolding strlen
strlen_lem fuel mem s cs h f w = ground (arith, strlen_loop_lem fuel mem s 0 cs h f)

-- The place of the first `c` in a list.
abbrev pub index_in : ℕ → List ℕ → ℕ
index_in c [] = 0
index_in c (x ∷ xs) = if x == c then 0 else suc (index_in c xs)

-- With more rounds than the string has characters, strchr ends with the first place of the byte,
-- the terminator included, or with `NULL` if the byte is not there.
pub strchr_lem :
    (fuel : ℕ) (mem : Bytes) (s chr : ℕ) (cs : List ℕ)
    → IsString mem s cs
    → length cs < fuel
    → strchr fuel mem s chr ≡ some (if has chr cs || (chr == 0) then s + index_in chr cs else 0)
unfolding strchr
strchr_lem zero mem s chr cs h f = absurd (omega arith)
strchr_lem (suc fuel) mem s chr [] h f = ground arith
strchr_lem (suc fuel) mem s chr (c ∷ cs) h f =
    ground (arith, strchr_lem fuel mem (s + 1) chr cs h.2)

same_char : (a b c : ℕ) → a ≡ c → b ≡ c → signed_char a -ℤ signed_char b ≡ pos 0
same_char a b c h k = ground arith

strncmp_same :
    (count : ℕ) (mem : Bytes) (left right : ℕ) (cs : List ℕ)
    → IsString mem left cs
    → IsString mem right cs
    → count < 2 ^ 31
    → strncmp_loop mem (pos 0) left right count ≡ pos (count - length cs)
unfolding strncmp_loop
strncmp_same zero mem left right cs h k w = ap pos (omega arith)
strncmp_same (suc count) mem left right [] h k w = rw (h, strncmp_loop) (ground arith)
strncmp_same (suc count) mem left right (c ∷ cs) h k w =
    let nonzero : (c == 0) ≡ false = ground arith in
    rw (h.0, k.0, nonzero, strncmp_loop)
      (rw (same_char (mem left) (mem right) c h.0 k.0) (
        strncmp_same count mem (left + 1) (right + 1) cs h.2 k.2 (omega arith)
        ∙ ap pos (omega arith)))

-- On two equal strings, and for a count below 2 ^ 31, strncmp returns the count that is left behind
-- their end.
pub strncmp_of_equal :
    (count : ℕ) (mem : Bytes) (left right : ℕ) (cs : List ℕ)
    → IsString mem left cs
    → IsString mem right cs
    → count < 2 ^ 31
    → strncmp mem left right count ≡ pos (count - length cs)
unfolding strncmp
strncmp_of_equal count mem left right cs h k w = strncmp_same count mem left right cs h k w
