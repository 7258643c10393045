-- ===== src/Float/Sci/Tests.antt =====
-- Runs of `npf_etoa_rev`, cases of tests/unit_eg.inc and tests/unit_etoa_rev.cc.
use nanoprintf.Base.{
  ℕ, ◌+◌, ◌-◌, ◌/◌, ◌%◌, ◌^◌, ◌≤◌, ◌<◌, ◌≡◌, refl, reverse, ◌++◌, replicate, length, true, false,
  Option, some, none, [], arith,
}
use nanoprintf.Base.Bytes.{Bytes, codes}
use nanoprintf.Base.Ints.{pos, negsuc, ◌+ℤ◌, ◌-ℤ◌}
use nanoprintf.Spec.{ConvSpec, FormatSpec, index}
use nanoprintf.Samples.{full_sci, blank}
use nanoprintf.Utoa.{utoa_rev, wide_digits, narrow_digits, digit_step, digit_char}
use nanoprintf.Float.Shift.{bin_shr, bin_shl, shr_loop, shl_loop}
use nanoprintf.Float.{
  Converted, number, special, ftoa_special, special_text, man_bits, exp_bias, exp_values, bin_bits,
  shift_bits,
}
use nanoprintf.Float.Fixed.{frac_start, emit_int, write, fifth}
use nanoprintf.Float.Sci.{
  Mode, unpack, etoa_rev, etoa_finite, shortest, exponent_of, digits_of, mode_of, fixed_mode,
}
use nanoprintf.Float.Sci.Fits.{etoa_finite_end}
use nanoprintf.Float.Sci.Outcome.{SciOutcome, etoa_rev-sci}
use nanoprintf.Float.Sci.Whole.{
  whole_step, scale_whole, whole_sci, move_up, top_digits, print_whole,
}
use nanoprintf.Float.Sci.Tail.{
  tail_step, is_full, scale_tail, print_tail, tail_digits, tail_part, generate,
}
use nanoprintf.Float.Sci.Strip.{Left, strip_zeros_lem}
use nanoprintf.Float.Sci.Round.{
  Digits, or_zero, all_zero, excess, drop_digits, carry_up, rounded, strip_zeros,
}
use nanoprintf.Float.Sci.Compose.{
  fill, copy, has_point, compose_fixed, copy_frac, put_exponent, compose_sci,
}

converted : FormatSpec → ℕ → Converted
unfolding bin_shr bin_shl shr_loop shl_loop unpack etoa_rev etoa_finite shortest exponent_of
    digits_of mode_of fixed_mode whole_step scale_whole whole_sci move_up top_digits tail_step
    is_full scale_tail print_tail tail_digits tail_part generate or_zero all_zero excess drop_digits
    carry_up rounded strip_zeros fill copy has_point print_whole compose_fixed copy_frac
    put_exponent compose_sci frac_start emit_int write fifth utoa_rev wide_digits narrow_digits
    digit_step digit_char man_bits exp_bias exp_values bin_bits shift_bits ftoa_special special_text
    index ◌+ℤ◌ ◌-ℤ◌
converted fs f = etoa_rev full_sci fs f

abbrev sci_spec : ℕ → FormatSpec
sci_spec prec = record blank { prec = prec; case_adjust = 32; conv_spec = ConvSpec.float_sci }

abbrev short_spec : ℕ → FormatSpec
short_spec prec = record (sci_spec prec) { conv_spec = ConvSpec.float_shortest }

abbrev fixed_spec : ℕ → FormatSpec
fixed_spec prec = record (sci_spec prec) { conv_spec = ConvSpec.float_dec }

abbrev spelt : Bytes → Converted
spelt cs = number (reverse cs)

sci_zero : converted (sci_spec 6) 0 ≡ spelt (codes "0.000000e+00")
unfolding converted
sci_zero = refl

sci_tie : converted (sci_spec 0) 0x4023_0000_0000_0000 ≡ spelt (codes "1e+01")
unfolding converted
sci_tie = refl

sci_third : converted (sci_spec 6) 0x3fd5_5555_5555_5555 ≡ spelt (codes "3.333333e-01")
unfolding converted
sci_third = refl

sci_widest :
    converted (sci_spec 56) 0x3ff0_0000_0000_0000
    ≡ spelt (codes "1." ++ replicate 56 b'0' ++ codes "e+00")
unfolding converted
sci_widest = refl

sci_too_wide : converted (sci_spec 57) 0x3ff0_0000_0000_0000 ≡ special (reverse (codes "err"))
unfolding converted
sci_too_wide = refl

sci_large : converted (sci_spec 2) 0x54b2_49ad_2594_c37d ≡ spelt (codes "1.00e+100")
unfolding converted
sci_large = refl

sci_tiny : converted (sci_spec 0) 0x0000_0000_0000_0001 ≡ spelt (codes "0e+00")
unfolding converted
sci_tiny = refl

sci_nan : converted (sci_spec 6) 0x7ff8_0000_0000_0000 ≡ special (reverse (codes "nan"))
unfolding converted
sci_nan = refl

short_third : converted (short_spec 6) 0x3fd5_5555_5555_5555 ≡ spelt (codes "0.333333")
unfolding converted
short_third = refl

short_million : converted (short_spec 6) 0x412e_8480_0000_0000 ≡ spelt (codes "1e+06")
unfolding converted
short_million = refl

short_hundred : converted (short_spec 6) 0x4059_0000_0000_0000 ≡ spelt (codes "100")
unfolding converted
short_hundred = refl

short_alt :
    converted (record (short_spec 6) { alt_form = b'#' }) 0x4059_0000_0000_0000
    ≡ spelt (codes "100.000")
unfolding converted
short_alt = refl

dec_pi : converted (fixed_spec 2) 0x4009_21fb_5444_2d18 ≡ spelt (codes "3.14")
unfolding converted
dec_pi = refl

dec_small : converted (fixed_spec 2) 0x3f1a_36e2_eb1c_432d ≡ spelt (codes "0.00")
unfolding converted
dec_small = refl

dec_round : converted (fixed_spec 0) 0x4058_e000_0000_0000 ≡ spelt (codes "100")
unfolding converted
dec_round = refl

-- The concrete instances.
abbrev third_mode : Mode
third_mode = record {
  prec = 6;
  nsig_max = 7;
  fmode = false;
  g = false;
  strip = true;
  dstop = negsuc (2 ^ 31 - 1);
}

third_mode_of : mode_of full_sci (sci_spec 6) ≡ some third_mode
unfolding mode_of index
third_mode_of = refl

third_finite : Option (ℕ × Bytes)
unfolding converted
third_finite = etoa_finite full_sci (sci_spec 6) third_mode 1021 0x5_5555_5555_5555

third_buffer : Bytes
unfolding converted third_finite
third_buffer = elim third_finite [ none ↦ [] | some r ↦ r.1 ]

third_end :
    etoa_finite full_sci (sci_spec 6) third_mode 1021 0x5_5555_5555_5555 ≡ some (12, third_buffer)
unfolding converted third_finite third_buffer
third_end = refl

etoa_finite_end_example : (12 ≤ 64) × (length third_buffer ≡ 64)
unfolding exp_values
etoa_finite_end_example =
    etoa_finite_end full_sci (omega arith) (omega arith) (omega arith) (sci_spec 6) third_mode 1021
      0x5_5555_5555_5555 12 third_buffer (omega arith) third_mode_of third_end

third_exponent :
    0x3fd5_5555_5555_5555 / 2 ^ man_bits full_sci % exp_values full_sci + 1 < exp_values full_sci
unfolding man_bits exp_values
third_exponent = omega arith

etoa_rev-sci_example : SciOutcome full_sci (sci_spec 6) 0x3fd5_5555_5555_5555
etoa_rev-sci_example =
    etoa_rev-sci full_sci (omega arith) (omega arith) (omega arith) (sci_spec 6)
      0x3fd5_5555_5555_5555 refl refl third_exponent

-- 300, as the digits "003" from their end.
abbrev hundreds : Digits
hundreds = record { buf = replicate 61 0 ++ codes "003"; end = 61; dec = pos 0 }

strip_zeros_lem_example :
    ((k : ℕ) × Left 3 hundreds k)
    × (exponent_of full_sci (strip_zeros 3 hundreds) ≡ exponent_of full_sci hundreds)
strip_zeros_lem_example = strip_zeros_lem full_sci hundreds (omega arith)
