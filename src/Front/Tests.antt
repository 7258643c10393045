-- ===== src/Front/Tests.antt =====
-- Runs of the front end.
use nanoprintf.Base.{ℕ, ◌+◌, ◌≡◌, refl, none, some, List, [], ◌∷◌, map, replicate, arith}
use nanoprintf.Base.Bytes.{codes}
use nanoprintf.Samples.{full, blank}
use nanoprintf.Args.{Arg}
use nanoprintf.Parse.{parse_format_spec_end}
use nanoprintf.Convert
use nanoprintf.Printf.{parse_at}
use nanoprintf.Printf.Needs.{
  Takes, format_needs, directive_needs, star_needs, conversion_needs, integer_needs, real_needs,
}
use nanoprintf.Snprintf.{Outcome, vsnprintf}
use nanoprintf.Front.{
  MacroArg, float, passed, wrap, promote, rseq, token_number, narg, npf_snprintf,
}
use nanoprintf.Front.LongDouble.{IsRealDirective, npf_snprintf_long_double}
use nanoprintf.Front.Generic.{CType, npf_snprintf_generic}
use nanoprintf.Front.Generic.Agree.{values, wrapped, npf_snprintf_generic-single}
use nanoprintf.Spec.{LengthModifier, FormatSpec, index}
use nanoprintf.Printf.Natural.{real_spec}
use nanoprintf.Front.Narrow.{round_shift, narrow}
use nanoprintf.Front.Single.{single_build}
use nanoprintf.Front.Wrap.{format_arg, npf_snprintf-single}

-- A tie goes to the even float, and a double past the floats to infinity.
narrow_tie : narrow 0x3ff0_0000_1000_0000 ≡ 0x3f80_0000
unfolding narrow round_shift
narrow_tie = refl

narrow_tie_up : narrow 0x3ff0_0000_3000_0000 ≡ 0x3f80_0002
unfolding narrow round_shift
narrow_tie_up = refl

narrow_overflow : narrow 0xffef_ffff_ffff_ffff ≡ 0xff80_0000
unfolding narrow round_shift
narrow_overflow = refl

narrow_least : narrow 0x3690_0000_0000_0001 ≡ 1
unfolding narrow round_shift
narrow_least = refl

narg_three : narg {A = ℕ} (7 ∷ 8 ∷ 9 ∷ []) ≡ some 3
unfolding narg token_number rseq
narg_three = refl

-- "%.1f %d" with 1.5f and 7.
abbrev mixed : List MacroArg
mixed = float 0x3fc0_0000 ∷ passed (Arg.word32 7) ∷ []

mixed_fits : Takes (format_needs full (1 + 7) (codes "%.1f %d")) (map promote mixed) []
unfolding format_needs directive_needs star_needs conversion_needs integer_needs real_needs
    Convert.is_word64 parse_at parse_format_spec_end promote
mixed_fits = (tt, (tt, refl))

npf_snprintf-single_example :
    (out : Outcome) × (npf_snprintf
        (single_build full)
        blank
        (some (replicate 16 0))
        16
        (format_arg (codes "%.1f %d") ∷ mixed)
      ≡ some out)
    × (vsnprintf
          (single_build full)
          blank
          (some (replicate 16 0))
          16
          (codes "%.1f %d")
          (map wrap mixed)
        ≡ some out)
npf_snprintf-single_example =
    npf_snprintf-single full blank (some (replicate 16 0)) 16 (codes "%.1f %d") mixed refl
      (
        omega arith,
        (
          omega arith,
          (omega arith, (omega arith, (omega arith, (omega arith, (omega arith, tt))))),
        ),
      )
      (omega arith) (tt, (tt, tt)) mixed_fits

-- "%Lf %d" with a long double and a char.
abbrev typed : List (CType × MacroArg)
typed =
    (CType.long_double, passed (Arg.long_real 0x3ff8_0000_0000_0000))
    ∷ (CType.char, passed (Arg.word32 65))
    ∷ []

typed_fits : Takes (format_needs full (1 + 6) (codes "%Lf %d")) (map promote (values typed)) []
unfolding format_needs directive_needs star_needs conversion_needs integer_needs real_needs
    Convert.is_word64 parse_at parse_format_spec_end promote
typed_fits = (tt, (tt, refl))

npf_snprintf_generic-single_example :
    (out : Outcome) × (npf_snprintf_generic
        (single_build full)
        blank
        (some (replicate 16 0))
        16
        ((CType.const_char_pointer, format_arg (codes "%Lf %d")) ∷ typed)
      ≡ some out)
    × (vsnprintf
          (single_build full)
          blank
          (some (replicate 16 0))
          16
          (codes "%Lf %d")
          (map wrapped (values typed))
        ≡ some out)
npf_snprintf_generic-single_example =
    npf_snprintf_generic-single full blank (some (replicate 16 0)) 16 (codes "%Lf %d") typed refl
      (omega arith, (omega arith, (omega arith, (omega arith, (omega arith, (omega arith, tt))))))
      (omega arith) (tt, (tt, tt)) typed_fits

-- What the parser stores for "%Lf", and the text behind it.
abbrev long_spec : FormatSpec
long_spec = record (real_spec 0) { length_modifier = LengthModifier.long_double }

parse_long : parse_at (single_build full) (codes "%Lf!") blank ≡ some (long_spec, codes "!")
unfolding parse_at parse_format_spec_end
parse_long = refl

long_spec-IsRealDirective : IsRealDirective full long_spec
unfolding index
long_spec-IsRealDirective = (refl, refl, refl)

npf_snprintf_long_double_example :
    npf_snprintf
      (single_build full)
      blank
      none
      0
      (format_arg (codes "%Lf!") ∷ passed (Arg.long_real 0x3ff8_0000_0000_0000) ∷ [])
    ≡ none
npf_snprintf_long_double_example =
    npf_snprintf_long_double full blank long_spec none 0 0x3ff8_0000_0000_0000 (codes "%Lf!")
      (codes "!") [] refl (omega arith, (omega arith, (omega arith, (omega arith, tt))))
      (omega arith) parse_long long_spec-IsRealDirective
