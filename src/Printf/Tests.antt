-- ===== src/Printf/Tests.antt =====
-- The printf theorems on the conversion "%x".
use dunkos.Common.{◌≡◌, refl, arith, inr, true, false, [], ◌∷◌}
use dunkos.Common.Int.{negsuc}
use dunkos.Printf.Conversion.{FormatArgInfo, fmtalgn_left, fmtdata_int}
use dunkos.Printf.Defs.{write_int, int_value}
use dunkos.Printf.Digits.{all_digits, number_of, write_int-number_of}

abbrev hexadecimal : FormatArgInfo
hexadecimal = record {
  width = 1;
  precision = negsuc 0;
  pad = b' ';
  alternate_form = false;
  align = fmtalgn_left;
  kind = fmtdata_int;
  size = 8;
  base = 16;
  sign_pad = 0;
  szt = false;
  ptd = false;
  write_signed = false;
  upper_digits = false;
}

beef : (write_int 99 hexadecimal (0xBEEF ∷ [])).0 ≡ b'b' ∷ b'e' ∷ b'e' ∷ b'f' ∷ []
unfolding write_int
beef = refl

write_int-number_of_example :
    let (out, rest) = write_int 99 hexadecimal (0xBEEF ∷ []) in
    (all_digits false 16 out ≡ true) × (number_of 16 out ≡ 0xBEEF) × (rest ≡ [])
unfolding int_value
write_int-number_of_example =
    write_int-number_of 99 hexadecimal 0xBEEF [] refl refl refl (inr (inr refl)) (omega arith)
