-- ===== src/Float/Tests.antt =====
-- Runs of the float conversions; the fixed ones are cases of tests/unit_ftoa_rev.cc and
-- tests/unit_ftoa_rev_32.cc.
use nanoprintf.Base.{ℕ, ◌-◌, ◌^◌, ◌≡◌, refl, reverse}
use nanoprintf.Base.Bytes.{codes}
use nanoprintf.Spec.{FormatSpec}
use nanoprintf.Samples.{full, blank}
use nanoprintf.Utoa.{utoa_rev, wide_digits, narrow_digits, digit_step, digit_char}
use nanoprintf.Float.Shift.{bin_shr, bin_shl, shr_loop, shl_loop}
use nanoprintf.Float.{
  Converted, number, special, ftoa_special, special_text, man_bits, exp_bias, exp_values, bin_bits,
  shift_bits,
}
use nanoprintf.Float.Fixed.{
  ftoa_rev, ftoa_finite, whole_part, finish, frac_part, round_up, frac_start, print_frac,
  scale_frac, print_int, emit_int, write, int_part, scale_int, fifth,
}
use nanoprintf.Base.{◌≤◌, ◌++◌, some, length, replicate, arith}
use nanoprintf.Base.Bytes.{Bytes}
use nanoprintf.Float.Length.{ftoa_finite_end}
use nanoprintf.Float.Hex.Reader.{read_hex}
use nanoprintf.Float.Hex.Nearest.{nearest}
use nanoprintf.Float.Hex.RoundTrip.{significand, hex_places, biased_exponent, read_hex-atoa_rev}
use nanoprintf.Float.HexLength.{length-atoa_rev}
use nanoprintf.Float.Hex.{atoa_rev, drop_nibbles, nibbles, hex_exponent}

hex_one :
    reverse (atoa_rev full (record blank { prec = 13; case_adjust = 32 }) 0x3ff0_0000_0000_0000)
    ≡ codes "1.0000000000000p+0"
unfolding atoa_rev drop_nibbles nibbles hex_exponent utoa_rev wide_digits narrow_digits digit_step
    digit_char
hex_one = refl

hex_short :
    reverse (atoa_rev full (record blank { prec = 1 }) 0x4009_21fb_5444_2d18) ≡ codes "1.9P+1"
unfolding atoa_rev drop_nibbles nibbles hex_exponent utoa_rev wide_digits narrow_digits digit_step
    digit_char
hex_short = refl

fixed : ℕ → ℕ → Converted
unfolding bin_shr bin_shl shr_loop shl_loop ftoa_rev ftoa_finite whole_part finish frac_part
    round_up frac_start print_frac scale_frac print_int emit_int write int_part scale_int fifth
    utoa_rev wide_digits narrow_digits digit_step digit_char man_bits exp_bias exp_values bin_bits
    shift_bits ftoa_special special_text
fixed prec f = ftoa_rev full blank prec f

fixed_tie : fixed 0 0x4021_0000_0000_0000 ≡ number (codes "8")
unfolding fixed
fixed_tie = refl

fixed_tie_up : fixed 0 0x4058_e000_0000_0000 ≡ number (codes "001")
unfolding fixed
fixed_tie_up = refl

fixed_quarter : fixed 1 0x3fd0_0000_0000_0000 ≡ number (reverse (codes "0.2"))
unfolding fixed
fixed_quarter = refl

fixed_wide : fixed 1 0x41f0_0000_0090_0000 ≡ number (reverse (codes "4294967310.0"))
unfolding fixed
fixed_wide = refl

fixed_two_thirds :
    fixed 32 0x3fe5_5555_5555_5555 ≡ number (reverse (codes "0.66666666679084300994873046875000"))
unfolding fixed
fixed_two_thirds = refl

fixed_max : fixed 0 0x7fef_ffff_ffff_ffff ≡ special (reverse (codes "ERR"))
unfolding fixed
fixed_max = refl

fixed_inf : fixed 0 0x7ff0_0000_0000_0000 ≡ special (reverse (codes "INF"))
unfolding fixed
fixed_inf = refl

abbrev quarter : Bytes
quarter = codes "2.0" ++ replicate 61 0

quarter_finite : ftoa_finite full blank 1 1021 0 ≡ some (3, quarter)
unfolding fixed
quarter_finite = refl

ftoa_finite_end_example : (3 ≤ 64) × (length quarter ≡ 64)
ftoa_finite_end_example =
    ftoa_finite_end full blank 1 1021 0 3 quarter (omega arith) (omega arith) quarter_finite

length-atoa_rev_example :
    length (atoa_rev full (record blank { prec = 20 }) 0x0000_0000_0000_0001) ≤ 21
length-atoa_rev_example = length-atoa_rev full (record blank { prec = 20 }) 0x0000_0000_0000_0001

-- Pi, with one digit behind the point.
abbrev one_place : FormatSpec
one_place = record blank { prec = 1 }

read_hex-atoa_rev_example :
    read_hex one_place.case_adjust (atoa_rev full one_place 0x4009_21fb_5444_2d18)
    ≡ some (record {
      sig = nearest (significand 0x4009_21fb_5444_2d18) (16 ^ (13 - hex_places full one_place));
      places = hex_places full one_place;
      biased = biased_exponent 0x4009_21fb_5444_2d18;
    })
read_hex-atoa_rev_example =
    read_hex-atoa_rev full one_place 0x4009_21fb_5444_2d18 (λ e. omega (arith, e))
