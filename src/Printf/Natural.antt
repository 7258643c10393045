-- ===== src/Printf/Natural.antt =====
-- Whole calls with one 'f' directive and a natural number.
use mathlib.Core.List.{append-nil, reverse-append}
use nanoprintf.Base.{
  ℕ, ◌-◌, ◌/◌, ◌%◌, ◌^◌, ◌≡◌, refl, false, some, [], ◌∷◌, ◌++◌, foldl, reverse, length, ◌==◌,
  if◌then◌else◌, Bool-cases, inl, inr, arith,
}
use nanoprintf.Base.Bytes.{Bytes, codes}
use nanoprintf.Samples.{full}
use nanoprintf.Spec.{Opt, LengthModifier, ConvSpec, FormatSpec, index}
use nanoprintf.Args.{Args, real, arg_real}
use nanoprintf.Parse.{parse_format_spec_end}
use nanoprintf.Directive.{
  star_width, cap_width, take_width, star_prec, cap_prec, take_prec, default_prec, drop_zero_flag,
  prepare,
}
use nanoprintf.Config.{fmt_num_max, use_sci}
use nanoprintf.Utoa.Numeral.{numeral}
use nanoprintf.Float.{sign_pos}
use nanoprintf.Float.Naturals.{HasValue}
use nanoprintf.Float.Naturals.Text.{ftoa_rev-natural}
use nanoprintf.Convert.{reversed, cbuf_len, Piece, take_real, convert_real, float_piece, convert}
use nanoprintf.Emit.{pad_char, prec_zeros, field_blanks}
use nanoprintf.Emit.Layout.{
  layout, blanks, zeros, zero_filled, sign_text, prefix_text, payload_text,
}
use nanoprintf.Printf.{parse_at, vpprintf}
use nanoprintf.Printf.Whole.{vpprintf_whole}

pub no_padding : (n : ℕ) → 0 - n ≡ 0
no_padding n = omega arith

-- What the parser stores for "%f", and the default precision.
abbrev pub real_spec : ℕ → FormatSpec
real_spec prec = record {
  field_width = 0;
  prec = prec;
  prec_opt = Opt.none;
  field_width_opt = Opt.none;
  left_justified = 0;
  leading_zero_pad = 0;
  prepend = 0;
  alt_form = 0;
  case_adjust = 32;
  length_modifier = LengthModifier.none;
  conv_spec = ConvSpec.float_dec;
}

parse_real : (fs : FormatSpec) → parse_at full (codes "%f") fs ≡ some (real_spec 0, [])
unfolding parse_at parse_format_spec_end
parse_real fs = refl

prepare-real : (args : Args) → prepare full (real_spec 0) args ≡ some (real_spec 6, args)
unfolding prepare take_width star_width cap_width take_prec star_prec cap_prec default_prec
    drop_zero_flag fmt_num_max index
prepare-real args = refl

abbrev real_piece : ℕ → ℕ → Piece
real_piece v sign = record {
  fs = real_spec 6;
  payload = reversed (codes "000000." ++ numeral 10 0 64 v);
  sign_c = sign;
  need_0x = 0;
  zero_value = false;
}

abbrev pub sign_of : ℕ → ℕ
sign_of f = if f / 2 ^ 63 == 0 then 0 else b'-'

convert-real :
    (f v n : ℕ) (args : Args)
    → HasValue full f v
    → convert full (real_spec 6) n (real f ∷ args) ≡ some (real_piece v (sign_of f), args, [])
unfolding convert convert_real float_piece take_real arg_real index use_sci sign_pos
convert-real f v n args h =
    let e = ftoa_rev-natural full (real_spec 6) 6 (omega arith) (omega arith) (omega arith) f v h in
    rw e refl

-- The text of a double that is a natural number, or the negation of one.
abbrev pub natural_digits : ℕ → ℕ → Bytes
natural_digits f v =
    (if f / 2 ^ 63 == 0 then [] else b'-' ∷ []) ++ (reverse (numeral 10 0 64 v) ++ codes ".000000")

zeros-real : (v sign : ℕ) → zeros full (real_piece v sign) ≡ []
unfolding zeros zero_filled pad_char prec_zeros field_blanks cbuf_len fmt_num_max index
zeros-real v sign = refl

blanks-real : (v sign : ℕ) → blanks full (real_piece v sign) ≡ []
unfolding blanks zero_filled pad_char prec_zeros field_blanks cbuf_len fmt_num_max index
blanks-real v sign = rw no_padding refl

layout-real : (f v : ℕ) → layout full (real_piece v (sign_of f)) ≡ natural_digits f v
unfolding layout sign_text prefix_text payload_text
layout-real f v =
    rw (zeros-real, blanks-real, append-nil, reverse-append (codes "000000.") (numeral 10 0 64 v))
      (elim (Bool-cases (f / 2 ^ 63 == 0)) [ inl t ↦ rw t refl | inr t ↦ rw t refl ])

module _ {ℓ} {S : Type ℓ} (pc : S → ℕ → S) where
  -- In the configuration Samples.full, for every callback and whatever the struct held: a call with the
  -- format "%f" and a double whose magnitude is a natural number below 2^32 gives the callback the
  -- number's decimal digits and ".000000", a '-' before them exactly if the sign bit is set, stores
  -- nothing, and returns the length of that text.
  pub vpprintf-natural :
      (fs : FormatSpec) (ctx : S) (f v : ℕ) (args : Args)
      → HasValue full f v
      → vpprintf pc full fs ctx (codes "%f") (real f ∷ args)
        ≡ some (record {
          ctx = foldl pc ctx (natural_digits f v);
          fs = real_spec 6;
          npf_n = length (natural_digits f v) % 2 ^ 32;
          args = args;
          stores = [];
        })
  vpprintf-natural fs ctx f v args h =
      vpprintf_whole pc full fs ctx (codes "f") (real f ∷ args) (parse_real fs)
        (prepare-real (real f ∷ args)) (convert-real f v 0 args h) (layout-real f v)
