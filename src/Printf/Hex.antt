-- ===== src/Printf/Hex.antt =====
-- Whole calls with one 'a' directive.
use mathlib.Core.Option
use mathlib.Core.List.{append-nil, reverse-reverse}
use nanoprintf.Base.{
  ℕ, ◌&&◌, ◌+◌, ◌/◌, ◌%◌, ◌^◌, ◌<◌, ◌≡◌, ◌≢◌, refl, ap, false, Option, some, none, [], ◌∷◌, ◌++◌,
  foldl, reverse, length, ◌==◌, if◌then◌else◌, Bool-cases, inl, inr, arith,
}
use nanoprintf.Base.Bytes.{Bytes, codes}
use nanoprintf.Samples.{full}
use nanoprintf.Spec.{Opt, LengthModifier, ConvSpec, FormatSpec, index}
use nanoprintf.Args.{Args, real, arg_real}
use nanoprintf.Parse.{parse_format_spec_end}
use nanoprintf.Directive.{
  star_width, cap_width, take_width, star_prec, cap_prec, take_prec, default_prec, drop_zero_flag,
  prepare,
}
use nanoprintf.Config.{fmt_num_max, use_sci}
use nanoprintf.Float.{sign_pos}
use nanoprintf.Float.Hex.{atoa_rev}
use nanoprintf.Float.Hex.Reader.{before_sign, read_significand, read_hex}
use nanoprintf.Float.Hex.RoundTrip.{bits_of, bits_of-atoa_rev, hex_places}
use nanoprintf.Convert.{reversed, cbuf_len, Piece, take_real, convert_real, float_piece, convert}
use nanoprintf.Emit.{pad_char, prec_zeros, field_blanks}
use nanoprintf.Emit.Layout.{
  layout, blanks, zeros, zero_filled, sign_text, prefix_text, payload_text,
}
use nanoprintf.Printf.{parse_at, vpprintf}
use nanoprintf.Printf.Natural.{no_padding, sign_of}
use nanoprintf.Printf.Whole.{vpprintf_whole}

-- What the parser stores for "%a", and the default precision.
abbrev pub hex_spec : ℕ → FormatSpec
hex_spec prec = record {
  field_width = 0;
  prec = prec;
  prec_opt = Opt.none;
  field_width_opt = Opt.none;
  left_justified = 0;
  leading_zero_pad = 0;
  prepend = 0;
  alt_form = 0;
  case_adjust = 32;
  length_modifier = LengthModifier.none;
  conv_spec = ConvSpec.float_hex;
}

parse_hex : (fs : FormatSpec) → parse_at full (codes "%a") fs ≡ some (hex_spec 0, [])
unfolding parse_at parse_format_spec_end
parse_hex fs = refl

prepare-hex : (args : Args) → prepare full (hex_spec 0) args ≡ some (hex_spec 13, args)
unfolding prepare take_width star_width cap_width take_prec star_prec cap_prec default_prec
    drop_zero_flag fmt_num_max index
prepare-hex args = refl

abbrev pub exponent_of : ℕ → ℕ
exponent_of f = f / 2 ^ 52 % 2048

atoa_rev_bits :
    (f : ℕ)
    → exponent_of f ≢ 2047
    → Option.map bits_of (read_hex 32 (atoa_rev full (hex_spec 13) f)) ≡ some (f % 2 ^ 63)
atoa_rev_bits f h = bits_of-atoa_rev full (hex_spec 13) f h (unfold hex_places in refl)

length_full : (xs : Bytes) → xs ≢ [] → (length xs == 0) ≡ false
length_full [] h = absurd (h refl)
length_full (x ∷ xs) h = ground arith

unread : Option.map bits_of (read_hex 32 []) ≡ none
unfolding read_hex before_sign read_significand
unread = refl

-- A text that is read back is not empty.
atoa_rev-full : (f : ℕ) → exponent_of f ≢ 2047 → atoa_rev full (hex_spec 13) f ≢ []
atoa_rev-full f h e = let r = atoa_rev_bits f h in let u = unread in cc

abbrev hex_piece : ℕ → Piece
hex_piece f = record {
  fs = hex_spec 13;
  payload = reversed (atoa_rev full (hex_spec 13) f);
  sign_c = sign_of f;
  need_0x = b'x';
  zero_value = false;
}

convert-hex :
    (f n : ℕ) (args : Args)
    → exponent_of f ≢ 2047
    → convert full (hex_spec 13) n (real f ∷ args) ≡ some (hex_piece f, args, [])
unfolding convert convert_real float_piece take_real arg_real index use_sci sign_pos
convert-hex f n args h = rw (length_full (atoa_rev full (hex_spec 13) f) (atoa_rev-full f h)) refl

-- The text of "%a".
abbrev pub hex_text : ℕ → Bytes
hex_text f =
    (if f / 2 ^ 63 == 0 then [] else b'-' ∷ [])
    ++ (codes "0x" ++ reverse (atoa_rev full (hex_spec 13) f))

zeros-hex : (f : ℕ) → zeros full (hex_piece f) ≡ []
unfolding zeros zero_filled pad_char prec_zeros field_blanks cbuf_len fmt_num_max index
zeros-hex f = refl

blanks-hex : (f : ℕ) → blanks full (hex_piece f) ≡ []
unfolding blanks zero_filled pad_char prec_zeros field_blanks cbuf_len fmt_num_max index
blanks-hex f = rw no_padding refl

layout-hex : (f : ℕ) → layout full (hex_piece f) ≡ hex_text f
unfolding layout sign_text prefix_text payload_text
layout-hex f =
    rw (zeros-hex, blanks-hex, append-nil)
      (elim (Bool-cases (f / 2 ^ 63 == 0)) [ inl t ↦ rw t refl | inr t ↦ rw t refl ])

-- A reader of such texts: the bit pattern of the double that they stand for.
unfoldable pub read_magnitude : Bytes → Option ℕ
read_magnitude (c ∷ d ∷ cs) =
    if c == b'0' && d == b'x' then Option.map bits_of (read_hex 32 (reverse cs)) else none
read_magnitude _ = none

unfoldable pub read_double : Bytes → Option ℕ
read_double [] = none
read_double (c ∷ cs) =
    if c == b'-' then Option.map (λ b. 2 ^ 63 + b) (read_magnitude cs) else read_magnitude (c ∷ cs)

read_double-hex_text :
    (f : ℕ) → exponent_of f ≢ 2047 → f < 2 ^ 64 → read_double (hex_text f) ≡ some f
unfolding read_double read_magnitude
read_double-hex_text f h s =
    let r = atoa_rev_bits f h in
    elim (Bool-cases (f / 2 ^ 63 == 0)) [
      | inl t ↦ rw (t, reverse-reverse (atoa_rev full (hex_spec 13) f), r) (ap some (ground arith))
      | inr t ↦ rw (t, reverse-reverse (atoa_rev full (hex_spec 13) f), r) (ap some (ground arith))
    ]

module _ {ℓ} {S : Type ℓ} (pc : S → ℕ → S) where
  -- In the configuration Samples.full, for every callback and whatever the struct held: a call with the
  -- format "%a" and a finite double gives the callback one text, from which the bits of the double,
  -- its sign among them, are read back, stores nothing, and returns the length of that text.
  pub vpprintf-hex :
      (fs : FormatSpec) (ctx : S) (f : ℕ) (args : Args)
      → exponent_of f ≢ 2047
      → f < 2 ^ 64
      → (vpprintf pc full fs ctx (codes "%a") (real f ∷ args)
          ≡ some (record {
            ctx = foldl pc ctx (hex_text f);
            fs = hex_spec 13;
            npf_n = length (hex_text f) % 2 ^ 32;
            args = args;
            stores = [];
          }))
        × (read_double (hex_text f) ≡ some f)
  vpprintf-hex fs ctx f args h s = (
    vpprintf_whole pc full fs ctx (codes "a") (real f ∷ args) (parse_hex fs)
        (prepare-hex (real f ∷ args)) (convert-hex f 0 args h) (layout-hex f),
    read_double-hex_text f h s,
  )
