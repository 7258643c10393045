-- ===== src/Parse/Tests.antt =====
-- Runs of the parser.
use Prim.Native.Nat.{min}
use nanoprintf.Base.{◌≡◌, ◌<◌, refl, false, some, ◌++◌, length, arith}
use nanoprintf.Base.Bytes.{codes}
use nanoprintf.Spec.{Opt, LengthModifier, ConvSpec}
use nanoprintf.Samples.{full, blank}
use nanoprintf.Parse.Number.{IsDigit, value, fmt_num-min}
use nanoprintf.Parse.Suffix.{Within, parse_format_spec_end-Within}
use nanoprintf.Parse.{fixed_digits, lm_of}
use nanoprintf.Parse.FixedWidth.{SpellsWidth, fixed_digits-SpellsWidth}
use nanoprintf.Parse.{fmt_num, is_digit, parse_format_spec_end, parse_format_spec}

parse_mixed :
    parse_format_spec_end full (codes "%-+#12.5llx!") blank
    ≡ some (
      record {
        field_width = 12;
        prec = 5;
        prec_opt = Opt.literal;
        field_width_opt = Opt.none;
        left_justified = b'-';
        leading_zero_pad = 0;
        prepend = b'+';
        alt_form = b'#';
        case_adjust = 32;
        length_modifier = LengthModifier.large_long_long;
        conv_spec = ConvSpec.hex_int;
      },
      codes "!",
    )
unfolding parse_format_spec_end
parse_mixed = refl

parse_fails : parse_format_spec full (codes "%y") blank ≡ 0
unfolding parse_format_spec
parse_fails = refl

parse_long :
    parse_format_spec_end full (codes "%ld.") blank
    ≡ some (
      record blank {
        length_modifier = LengthModifier.long;
        conv_spec = ConvSpec.signed_int;
        case_adjust = 32;
      },
      codes ".",
    )
unfolding parse_format_spec_end
parse_long = refl

parse_format_spec_end-Within_example :
    Within (codes "ld.") (codes ".") × (length (codes ".") < length (codes "ld."))
parse_format_spec_end-Within_example =
    parse_format_spec_end-Within full (codes "ld.") blank parse_long

nine : IsDigit b'9'
nine = (omega arith, omega arith)

letter : is_digit b'd' ≡ false
unfolding is_digit
letter = refl

fmt_num-min_example :
    let (m, cur) = fmt_num (codes "99999999999" ++ codes "d") in
    (min m 65280 ≡ min (value 0 (codes "99999999999")) 65280) × (cur ≡ codes "d")
fmt_num-min_example =
    fmt_num-min (codes "99999999999") (codes "d") 65280
      (nine, (nine, (nine, (nine, (nine, (nine, (nine, (nine, (nine, (nine, (nine, tt)))))))))))
      letter (omega arith)

sixteen : fixed_digits full false (codes "16d") ≡ some (LengthModifier.short, codes "d")
unfolding fixed_digits lm_of
sixteen = refl

fixed_digits-SpellsWidth_example : SpellsWidth (codes "16d") (LengthModifier.short, codes "d")
fixed_digits-SpellsWidth_example =
    fixed_digits-SpellsWidth full (codes "16d") (LengthModifier.short, codes "d") sixteen
