-- ===== src/Directive/Tests.antt =====
-- Runs of the stages before a conversion.
use nanoprintf.Base.{◌≡◌, ◌≤◌, ◌-◌, ◌^◌, refl, some, [], ◌∷◌, arith}
use nanoprintf.Config.{fmt_num_max}
use nanoprintf.Spec.{Opt, ConvSpec, FormatSpec, index}
use nanoprintf.Samples.{full, blank}
use nanoprintf.Args.{Args, word32, arg_word32}
use nanoprintf.Directive.{
  star_width, cap_width, take_width, star_prec, cap_prec, take_prec, default_prec, drop_zero_flag,
  prepare,
}
use nanoprintf.Directive.Ceiling.{prepare_bounded}

abbrev starred : FormatSpec
starred = record blank {
  field_width_opt = Opt.star;
  prec_opt = Opt.star;
  conv_spec = ConvSpec.signed_int;
}

-- INT_MIN as a width and a huge precision.
abbrev extremes : Args
extremes = word32 (2 ^ 31) ∷ word32 (2 ^ 31 - 1) ∷ []

abbrev pinned : FormatSpec
pinned = record starred { field_width = 65280; prec = 65280; left_justified = 1 }

prepare-extremes : prepare full starred extremes ≡ some (pinned, [])
unfolding prepare take_width star_width cap_width take_prec star_prec cap_prec default_prec
    drop_zero_flag fmt_num_max arg_word32 index
prepare-extremes = refl

prepare_bounded_example : (65280 ≤ fmt_num_max full) × (65280 ≤ fmt_num_max full)
prepare_bounded_example =
    prepare_bounded full (omega arith) starred extremes {fs' = pinned} {args' = []} refl refl
      (omega arith, (omega arith, tt)) (omega arith) (omega arith) prepare-extremes
