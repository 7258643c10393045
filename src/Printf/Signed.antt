-- ===== src/Printf/Signed.antt =====
-- Whole calls with one 'd' directive.
use mathlib.Core.List.{append-nil}
use nanoprintf.Base.{
  Bool, ℕ, ◌-◌, ◌%◌, ◌^◌, ◌<◌, ◌≡◌, refl, ◌∙◌, true, false, some, [], ◌∷◌, ◌++◌, foldl, reverse,
  length, ◌==◌, if◌then◌else◌, arith, Bool-cases, inl, inr,
}
use nanoprintf.Base.Bytes.{Bytes, codes}
use nanoprintf.Samples.{full}
use nanoprintf.Spec.{Opt, LengthModifier, ConvSpec, FormatSpec, index}
use nanoprintf.Args.{Args, word32}
use nanoprintf.Parse.{parse_format_spec_end}
use nanoprintf.Directive.{
  star_width, cap_width, take_width, star_prec, cap_prec, take_prec, default_prec, drop_zero_flag,
  prepare,
}
use nanoprintf.Config.{fmt_num_max}
use nanoprintf.Utoa.{utoa_rev}
use nanoprintf.Utoa.Numeral.{numeral, utoa_rev-numeral}
use nanoprintf.Convert.{reversed, cbuf_len, narrow_bits, is_word64, Piece, int_piece, convert}
use nanoprintf.Convert.Integer.{is_negative, magnitude, convert_signed-magnitude}
use nanoprintf.Emit.{pad_char, prec_zeros, field_blanks}
use nanoprintf.Emit.Layout.{
  layout, blanks, zeros, zero_filled, sign_text, prefix_text, payload_text,
}
use nanoprintf.Printf.{parse_at, vpprintf}
use nanoprintf.Printf.Whole.{vpprintf_whole}

-- What the parser stores for "%d".
abbrev decimal : FormatSpec
decimal = record {
  field_width = 0;
  prec = 0;
  prec_opt = Opt.none;
  field_width_opt = Opt.none;
  left_justified = 0;
  leading_zero_pad = 0;
  prepend = 0;
  alt_form = 0;
  case_adjust = 32;
  length_modifier = LengthModifier.none;
  conv_spec = ConvSpec.signed_int;
}

parse_decimal : (fs : FormatSpec) → parse_at full (codes "%d") fs ≡ some (decimal, [])
unfolding parse_at parse_format_spec_end
parse_decimal fs = refl

prepare-decimal : (args : Args) → prepare full decimal args ≡ some (decimal, args)
unfolding prepare take_width star_width cap_width take_prec star_prec cap_prec default_prec
    drop_zero_flag fmt_num_max index
prepare-decimal args = refl

-- The text of an int in decimal.
abbrev pub decimal_text : ℕ → Bytes
decimal_text v =
    (if is_negative 32 v then b'-' ∷ [] else []) ++ reverse (numeral 10 32 64 (magnitude 32 v))

-- The locals of "%d" for a magnitude and a sign.
abbrev decimal_piece : ℕ → ℕ → Piece
decimal_piece m sign = record {
  fs = decimal;
  payload = reversed (utoa_rev full m 10 32);
  sign_c = sign;
  need_0x = 0;
  zero_value = m == 0;
}

int_piece-decimal : (m sign : ℕ) → int_piece full decimal m 10 sign ≡ decimal_piece m sign
unfolding int_piece index
int_piece-decimal m sign = elim (Bool-cases (m == 0)) [ inl e ↦ rw e refl | inr e ↦ rw e refl ]

no_padding : (n : ℕ) → 0 - n ≡ 0
no_padding n = omega arith

zeros-decimal : (m sign : ℕ) → zeros full (decimal_piece m sign) ≡ []
unfolding zeros zero_filled pad_char prec_zeros field_blanks cbuf_len fmt_num_max index
zeros-decimal m sign = rw no_padding refl

blanks-decimal : (m sign : ℕ) → blanks full (decimal_piece m sign) ≡ []
unfolding blanks zero_filled pad_char prec_zeros field_blanks cbuf_len fmt_num_max index
blanks-decimal m sign = rw no_padding refl

layout-decimal :
    (m sign : ℕ)
    → layout full (decimal_piece m sign)
      ≡ (if sign == 0 then [] else sign ∷ []) ++ reverse (utoa_rev full m 10 32)
unfolding layout sign_text prefix_text payload_text
layout-decimal m sign = rw (zeros-decimal, blanks-decimal, append-nil) refl

convert-decimal :
    (v n : ℕ) (args : Args)
    → v < 2 ^ 32
    → convert full decimal n (word32 v ∷ args)
      ≡ some (decimal_piece (magnitude 32 v) (if is_negative 32 v then b'-' else 0), args, [])
unfolding convert index narrow_bits is_word64
convert-decimal v n args h =
    let (e, _) = convert_signed-magnitude full decimal v args (omega arith) in
    rw (e refl) (rw int_piece-decimal refl)

-- The sign of an int, 0 for none.
abbrev sign_of : Bool → ℕ
sign_of b = if b then b'-' else 0

sign_decimal :
    (b : Bool) → (if sign_of b == 0 then [] else sign_of b ∷ []) ≡ (if b then b'-' ∷ [] else [])
sign_decimal true = refl
sign_decimal false = refl

text_decimal :
    (v : ℕ)
    → v < 2 ^ 32
    → layout full (decimal_piece (magnitude 32 v) (if is_negative 32 v then b'-' else 0))
      ≡ decimal_text v
text_decimal v h =
    let small : magnitude 32 v < 2 ^ 64 = ground arith in
    layout-decimal (magnitude 32 v) (sign_of (is_negative 32 v))
    ∙ rw
        (
          sign_decimal (is_negative 32 v),
          utoa_rev-numeral full (magnitude 32 v) 10 32 (inr (inl refl)) small,
        )
        refl

module _ {ℓ} {S : Type ℓ} (pc : S → ℕ → S) where
  -- In the configuration Samples.full, for every callback and whatever the struct held: a call with the
  -- format "%d" and an int gives the callback the int's decimal text, a '-' before it exactly if the
  -- int is negative, stores nothing, and returns that text's length.
  pub vpprintf-decimal :
      (fs : FormatSpec) (ctx : S) (v : ℕ) (args : Args)
      → v < 2 ^ 32
      → vpprintf pc full fs ctx (codes "%d") (word32 v ∷ args)
        ≡ some (record {
          ctx = foldl pc ctx (decimal_text v);
          fs = decimal;
          npf_n = length (decimal_text v) % 2 ^ 32;
          args = args;
          stores = [];
        })
  vpprintf-decimal fs ctx v args h =
      vpprintf_whole pc full fs ctx (codes "d") (word32 v ∷ args) (parse_decimal fs)
        (prepare-decimal (word32 v ∷ args)) (convert-decimal v 0 args h) (text_decimal v h)
