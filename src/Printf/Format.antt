-- ===== src/Printf/Format.antt =====
-- Format strings: text without conversions, and the conversion of `%d`.
use dunkos.Common.{ℕ, suc, ◌+◌, ◌<◌, ◌≡◌, refl, sym, ◌∙◌, some, false}
use dunkos.Common.{List, [], ◌∷◌, ◌++◌, ◌∉◌, length, word_limit}
use mathlib.Core.Path.{subst}
use dunkos.Strings.{Bytes, strchr}
use dunkos.Strings.Scan.{IsString, strlen_lem, strchr_lem}
use dunkos.Printf.Conversion.{FormatArgInfo, fmt_defaults, read_format, flag_loop, read_size}
use dunkos.Printf.Defs.{int_value, copy_out, vsprintf, vsprintf_loop}
use dunkos.Printf.Conversion.{apply_conversion}

copy_out_lem :
    (mem : Bytes) (s : ℕ) (cs : List ℕ) → IsString mem s cs → copy_out mem s (length cs) ≡ cs
unfolding copy_out
copy_out_lem mem s [] h = refl
copy_out_lem mem s (c ∷ cs) h = rw (h.0, copy_out_lem mem (s + 1) cs h.2)

no_percent :
    (fuel : ℕ) (mem : Bytes) (s : ℕ) (cs : List ℕ)
    → IsString mem s cs
    → b'%' ∉ cs
    → length cs < fuel
    → strchr fuel mem s b'%' ≡ some 0
no_percent fuel mem s cs h out room = strchr_lem fuel mem s b'%' cs h room ∙ rw out

-- vsprintf of a format without '%', whose length is a word, ends: it writes the format and a zero
-- behind it, whatever the arguments are, and returns 0.
pub vsprintf_plain :
    (fuel junk : ℕ) (mem : Bytes) (format : ℕ) (farg : FormatArgInfo) (argv cs : List ℕ)
    → IsString mem format cs
    → b'%' ∉ cs
    → length cs < word_limit
    → length cs < suc fuel
    → vsprintf (suc fuel) junk mem format farg argv ≡ some (0, cs ++ (0 ∷ []))
unfolding vsprintf vsprintf_loop
vsprintf_plain fuel junk mem format farg argv cs h out word room =
    rw
      (
        no_percent (suc fuel) mem format cs h out room,
        strlen_lem (suc fuel) mem format cs h room word,
        copy_out_lem mem format cs h,
      )
      refl

module _ (mem : Bytes) (chr p : ℕ) (f : FormatArgInfo) (d : chr ≡ b'd') where
  no_flag : (fuel : ℕ) → flag_loop (suc fuel) mem chr p f ≡ some (chr, p, f)
  unfolding flag_loop
  no_flag fuel = subst (λ c. flag_loop (suc fuel) mem c p f ≡ some (c, p, f)) (sym d) refl

  no_size : read_size mem chr p f ≡ (chr, p, f)
  unfolding read_size
  no_size = subst (λ c. read_size mem c p f ≡ (c, p, f)) (sym d) refl

  no_conversion : apply_conversion chr f ≡ record f { upper_digits = false; base = 10 }
  unfolding apply_conversion
  no_conversion = rw (d, apply_conversion) refl

-- The conversion that read_format makes of "%d" has no size, so what is then written for it is an
-- uninitialised value, whatever the argument is. (No earlier conversion of the format has been one of
-- 'z' or 't', whose marks would still be there.)
pub read_format-unsized :
    (fuel junk : ℕ) (mem : Bytes) (format a : ℕ) (farg : FormatArgInfo)
    → mem (format + 1) ≡ b'd'
    → farg.szt ≡ false
    → farg.ptd ≡ false
    → (f : FormatArgInfo) × (read_format (suc fuel) mem format (fmt_defaults farg)
        ≡ some (format + 2, f))
      × (int_value junk f a ≡ junk)
unfolding read_format fmt_defaults int_value
read_format-unsized fuel junk mem format a farg d z t =
    let chr = mem (format + 1) in
    let f = fmt_defaults farg in
    (
      record f { upper_digits = false; base = 10 },
      rw
          (
            no_flag mem chr (format + 2) f d fuel,
            no_size mem chr (format + 2) f d,
            no_conversion mem chr (format + 2) f d,
            read_format,
          )
          refl,
      rw (z, t) refl,
    )
