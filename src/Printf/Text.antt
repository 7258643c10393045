-- ===== src/Printf/Text.antt =====
-- Whole calls with one 's' directive.
use mathlib.Core.List.{append-nil}
use nanoprintf.Base.{
  ℕ, ◌-◌, ◌%◌, ◌^◌, ◌<◌, ◌≡◌, ◌≢◌, refl, false, some, [], ◌∷◌, ◌++◌, foldl, length, All, arith,
}
use nanoprintf.Base.Bytes.{Bytes, codes}
use nanoprintf.Samples.{full}
use nanoprintf.Spec.{Opt, LengthModifier, ConvSpec, FormatSpec, index}
use nanoprintf.Args.{Args, text, arg_text}
use nanoprintf.Parse.{parse_format_spec_end}
use nanoprintf.Directive.{
  star_width, cap_width, take_width, star_prec, cap_prec, take_prec, default_prec, drop_zero_flag,
  prepare,
}
use nanoprintf.Config.{fmt_num_max}
use nanoprintf.Convert.{string, cbuf_len, Piece, convert_string, convert}
use nanoprintf.Convert.Text.{string_of-kept}
use nanoprintf.Emit.{pad_char, prec_zeros, field_blanks}
use nanoprintf.Emit.Layout.{
  layout, blanks, zeros, zero_filled, sign_text, prefix_text, payload_text,
}
use nanoprintf.Printf.{parse_at, vpprintf}
use nanoprintf.Printf.Fetch.{counted_lem}
use nanoprintf.Printf.Whole.{vpprintf_whole}

-- What the parser stores for "%s".
abbrev pub string_spec : FormatSpec
string_spec = record {
  field_width = 0;
  prec = 0;
  prec_opt = Opt.none;
  field_width_opt = Opt.none;
  left_justified = 0;
  leading_zero_pad = 0;
  prepend = 0;
  alt_form = 0;
  case_adjust = 32;
  length_modifier = LengthModifier.none;
  conv_spec = ConvSpec.string;
}

parse_string : (fs : FormatSpec) → parse_at full (codes "%s") fs ≡ some (string_spec, [])
unfolding parse_at parse_format_spec_end
parse_string fs = refl

prepare-string : (args : Args) → prepare full string_spec args ≡ some (string_spec, args)
unfolding prepare take_width star_width cap_width take_prec star_prec cap_prec default_prec
    drop_zero_flag fmt_num_max index
prepare-string args = refl

abbrev string_piece : Bytes → Piece
string_piece cs = record {
  fs = string_spec;
  payload = string cs;
  sign_c = 0;
  need_0x = 0;
  zero_value = false;
}

no_filling : (n : ℕ) → 0 - n ≡ 0
no_filling n = omega arith

zeros-string : (cs : Bytes) → zeros full (string_piece cs) ≡ []
unfolding zeros zero_filled pad_char prec_zeros field_blanks cbuf_len fmt_num_max index
zeros-string cs = refl

blanks-string : (cs : Bytes) → blanks full (string_piece cs) ≡ []
unfolding blanks zero_filled pad_char prec_zeros field_blanks cbuf_len fmt_num_max index
blanks-string cs = rw no_filling refl

layout-string : (cs : Bytes) → layout full (string_piece cs) ≡ cs
unfolding layout sign_text prefix_text payload_text
layout-string cs = rw (zeros-string, blanks-string, append-nil) refl

convert-string :
    (cs tail : Bytes) (n : ℕ) (args : Args)
    → All (λ c. c ≢ 0) cs
    → length cs < 2 ^ 31
    → convert full string_spec n (text (some (cs ++ 0 ∷ tail)) ∷ args)
      ≡ some (string_piece cs, args, [])
unfolding convert convert_string arg_text index
convert-string cs tail n args h small =
    let (e, _) = string_of-kept full string_spec cs tail h in rw (e, counted_lem cs small) refl

module _ {ℓ} {S : Type ℓ} (pc : S → ℕ → S) where
  -- In the configuration Samples.full, for every callback and whatever the struct held: a call with the
  -- format "%s" and a pointer to a terminated string of fewer than 2^31 bytes gives the callback the bytes before the
  -- terminator, stores nothing, and returns their number modulo 2^32.
  pub vpprintf-string :
      (fs : FormatSpec) (ctx : S) (cs tail : Bytes) (args : Args)
      → All (λ c. c ≢ 0) cs
      → length cs < 2 ^ 31
      → vpprintf pc full fs ctx (codes "%s") (text (some (cs ++ 0 ∷ tail)) ∷ args)
        ≡ some (record {
          ctx = foldl pc ctx cs;
          fs = string_spec;
          npf_n = length cs % 2 ^ 32;
          args = args;
          stores = [];
        })
  vpprintf-string fs ctx cs tail args h small =
      vpprintf_whole pc full fs ctx (codes "s") (text (some (cs ++ 0 ∷ tail)) ∷ args)
        (parse_string fs) (prepare-string (text (some (cs ++ 0 ∷ tail)) ∷ args))
        (convert-string cs tail 0 args h small) (layout-string cs)
