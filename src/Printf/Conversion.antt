-- ===== src/Printf/Conversion.antt =====
-- How xprintf.c reads a conversion of a format from memory: flags, width, precision, size and kind.
use dunkos.Common.{ℕ, zero, suc, ◌+◌, Bool, true, false, not, ◌&&◌, ◌||◌}
use dunkos.Common.{Option, none, some, List, [], ◌∷◌, has, ◌==◌, if◌then◌else◌}
use dunkos.Common.Int.{ℤ, pos, negsuc}
use dunkos.Strings.{Bytes}

pub data FormatDataType : Type 0 where
  fmtdata_int fmtdata_chr fmtdata_str fmtdata_flt fmtdata_esc : FormatDataType

pub data FormatAlignment : Type 0 where
  fmtalgn_left fmtalgn_right : FormatAlignment

pub record FormatArgInfo : Type 0 where
  pub width : ℕ
  pub precision : ℤ
  pub pad : ℕ
  pub alternate_form : Bool
  pub align : FormatAlignment
  pub kind : FormatDataType
  pub size : ℕ
  pub base : ℕ
  pub sign_pad : ℕ
  pub szt : Bool
  pub ptd : Bool
  pub write_signed : Bool
  pub upper_digits : Bool

-- The other members keep what an earlier conversion has left in them.
unfoldable pub fmt_defaults : FormatArgInfo → FormatArgInfo
fmt_defaults out = record out {
  width = 1;
  precision = negsuc 0;
  pad = b' ';
  alternate_form = false;
  align = fmtalgn_left;
  kind = fmtdata_int;
  size = 0;
}

-- "#0- +"
abbrev pub flagspecs : List ℕ
flagspecs = b'#' ∷ b'0' ∷ b'-' ∷ b' ' ∷ b'+' ∷ []

-- "lhztjL"
abbrev pub sizespecs : List ℕ
sizespecs = b'l' ∷ b'h' ∷ b'z' ∷ b't' ∷ b'j' ∷ b'L' ∷ []

abbrev pub is_right : FormatAlignment → Bool
is_right fmtalgn_right = true
is_right fmtalgn_left = false

-- The `switch` on a flag; case '0' falls through to case '-'.
unfoldable pub apply_flag : ℕ → FormatArgInfo → FormatArgInfo
apply_flag chr f =
    if chr == b'#'
    then record f { alternate_form = true }
    else if chr == b'0'
    then record (if not (is_right f.align) then record f { pad = b'0' } else f) {
      pad = b' ';
      align = fmtalgn_right;
    }
    else if chr == b'-'
    then record f { pad = b' '; align = fmtalgn_right }
    else if chr == b' '
    then (if not (f.sign_pad == b'+') then record f { sign_pad = b' ' } else f)
    else if chr == b'+'
    then record f { sign_pad = b'+' }
    else f

-- `while (chr && strchr(flagspecs, chr))`, on fuel: the character that ends it, the pointer behind
-- that character, and the flags.
unfoldable pub flag_loop : ℕ → Bytes → ℕ → ℕ → FormatArgInfo → Option (ℕ × ℕ × FormatArgInfo)
unfolding apply_flag
flag_loop zero mem chr format f = none
flag_loop (suc fuel) mem chr format f = elim (not (chr == 0) && has chr flagspecs) [
  | true ↦ flag_loop fuel mem (mem format) (format + 1) (apply_flag chr f)
  | false ↦ some (chr, format, f)
]

-- `strchr(sizespecs, chr)` finds the terminator, too.
unfoldable pub read_size : Bytes → ℕ → ℕ → FormatArgInfo → ℕ × ℕ × FormatArgInfo
read_size mem chr format f =
    let (format', f') =
      if chr == b'l'
      then (if mem format == b'l'
          then (format + 1, record f { size = 16 })
          else (format, record f { size = 8 }))
      else if chr == b'h'
      then (if mem format == b'h'
          then (format + 1, record f { size = 1 })
          else (format, record f { size = 2 }))
      else if chr == b'z'
      then (format, record f { size = 8; szt = true })
      else if chr == b't'
      then (format, record f { size = 8; ptd = true })
      else if chr == b'L'
      then (format, record f { size = 16 })
      else (format, f) in
    if has chr sizespecs || (chr == 0) then (mem format', format' + 1, f') else (chr, format, f)

abbrev pub set_precision : ℤ → ℤ
set_precision (negsuc zero) = pos 1
set_precision p = p

-- What case 'i' and the end of the cases down to 'u' have in common.
abbrev pub as_integer : Bool → FormatArgInfo → FormatArgInfo
as_integer signed f = record f {
  kind = fmtdata_int;
  write_signed = signed;
  precision = set_precision f.precision;
  size = if f.size == 0 then 4 else f.size;
}

-- The last `switch`: 'p' falls through to 'X', that to 'x', and so on down to 'u'. There is no case
-- for 'd'.
unfoldable pub apply_conversion : ℕ → FormatArgInfo → FormatArgInfo
apply_conversion chr g =
    let f = record g { upper_digits = false; base = 10 } in
    if chr == b'p'
    then as_integer false (record f { alternate_form = true; upper_digits = true; base = 16 })
    else if chr == b'X'
    then as_integer false (record f { upper_digits = true; base = 16 })
    else if chr == b'x'
    then as_integer false (record f { base = 16 })
    else if chr == b'o'
    then as_integer false (record f { base = 8 })
    else if chr == b'u'
    then as_integer false f
    else if chr == b'i'
    then as_integer true (record f { base = 10 })
    else if chr == b'c'
    then record f { kind = fmtdata_chr }
    else if chr == b's'
    then record f { kind = fmtdata_str }
    else if chr == b'%'
    then record f { kind = fmtdata_esc }
    else f

-- `format` points at the '%'. The result is the pointer behind the conversion.
unfoldable pub read_format : ℕ → Bytes → ℕ → FormatArgInfo → Option (ℕ × FormatArgInfo)
unfolding flag_loop read_size apply_conversion
read_format fuel mem format f = elim (flag_loop fuel mem (mem (format + 1)) (format + 2) f) [
  | none ↦ none
  | some (chr, format', f') ↦
      let (chr', format'', f'') = read_size mem chr format' f' in
      some (format'', apply_conversion chr' f'')
]
