-- ===== src/Convert/Fresh.antt =====
-- The conversions do not read what the parser has not stored.
use nanoprintf.Base.{
  ℕ, ◌*◌, ◌+◌, ◌/◌, ◌%◌, ◌^◌, ◌≡◌, refl, ap, false, not, ◌&&◌, ◌||◌, Option, some, none, [], ◌∷◌,
  List, leb, ltb, ◌==◌, if◌then◌else◌, Bool-cases, Option-cases, inl, inr, arith,
}
use nanoprintf.Base.Bytes.{Bytes}
use nanoprintf.Base.Both.{Both}
use nanoprintf.Config.{Config, use_sci}
use nanoprintf.Spec.{FormatSpec, LengthModifier, ConvSpec, is_none, index}
use nanoprintf.Args.{Args, arg_text, arg_pointer, arg_word32}
use nanoprintf.Directive.Fresh.{Ready}
use nanoprintf.Float.{sign_pos, dec_prec, Converted, number, special}
use nanoprintf.Float.Hex.{atoa_rev, widen}
use nanoprintf.Float.Fixed.{ftoa_rev}
use nanoprintf.Float.Sci.{etoa_rev}
use nanoprintf.Float.Fresh.{atoa_rev-Ready, ftoa_rev-Ready, etoa_rev-Ready}
use nanoprintf.Convert.Alike.{SamePiece, AlikePiece, AlikeConvert, storeless-Both, taken}
use nanoprintf.Convert.{
  Payload, Store, take_signed, take_unsigned, int_piece, convert_signed, convert_unsigned, span,
  string_of, counted, convert_string, convert_char, convert_writeback, take_real, convert_real,
  float_piece, convert, base_of, sign_extend, writeback_size,
}

module _ (cfg : Config) (a b : FormatSpec) (h : Ready cfg a b) where
  int_piece-Same :
      (val base s t : ℕ)
      → s ≡ t
      → SamePiece cfg (int_piece cfg a val base s) (int_piece cfg b val base t)
  unfolding int_piece
  int_piece-Same val base s t e = ground arith

  take_signed-Ready : (args : Args) → take_signed a args ≡ take_signed b args
  unfolding take_signed
  take_signed-Ready args = rw h.modifier refl

  take_unsigned-Ready : (args : Args) → take_unsigned a args ≡ take_unsigned b args
  unfolding take_unsigned
  take_unsigned-Ready args = rw h.modifier refl

  end_agrees :
      (len : ℕ)
      → (not cfg.precisions || is_none a.prec_opt || ltb len a.prec)
        ≡ (not cfg.precisions || is_none b.prec_opt || ltb len b.prec)
  end_agrees len = ground arith

  span-Ready : (len : ℕ) (cs : Bytes) → span cfg a len cs ≡ span cfg b len cs
  unfolding span
  span-Ready len [] = rw (end_agrees len) refl
  span-Ready len (c ∷ cs) = rw (end_agrees len, span-Ready (len + 1) cs) refl

  string_of-Ready : (p : Option Bytes) → string_of cfg a p ≡ string_of cfg b p
  unfolding string_of
  string_of-Ready none = refl
  string_of-Ready (some cs) = span-Ready 0 cs

  plain_piece :
      (cs : Payload)
      → SamePiece cfg
          (record { fs = a; payload = cs; sign_c = 0; need_0x = 0; zero_value = false })
          (record { fs = b; payload = cs; sign_c = 0; need_0x = 0; zero_value = false })
  plain_piece cs = record {
    ready = h;
    payload = refl;
    sign_c = refl;
    need_0x = refl;
    zero_value = refl;
  }

  float_piece-Same :
      (s : ℕ) (hex : Bytes) (text : Converted)
      → SamePiece cfg (float_piece cfg a s hex text) (float_piece cfg b s hex text)
  unfolding float_piece
  float_piece-Same s hex (number cs) = ground arith
  float_piece-Same s hex (special cs) = ground arith

  convert_signed-Same :
      (args : Args) → Both (AlikePiece cfg) (convert_signed cfg a args) (convert_signed cfg b args)
  unfolding convert_signed
  convert_signed-Same args = rw (take_signed-Ready args) (
      taken cfg (take_signed b args) _ _
        (λ v. int_piece-Same _ 10 _ _ (ap (λ x. if leb (2 ^ 63) v then b'-' else x) h.prepend)))

  convert_unsigned-Same :
      (args : Args)
      → Both (AlikePiece cfg) (convert_unsigned cfg a args) (convert_unsigned cfg b args)
  unfolding convert_unsigned
  convert_unsigned-Same args =
      let test = ap (λ c. index c == index ConvSpec.pointer) h.conv in
      rw test (elim (Bool-cases (index b.conv_spec == index ConvSpec.pointer)) [
        | inl t ↦ rw t (taken cfg (arg_pointer args) _ _ (λ p. int_piece-Same p 16 0 0 refl))
        | inr t ↦
            rw (t, take_unsigned-Ready args)
              (taken cfg (take_unsigned b args) _ _ (λ v.
                let base : base_of a.conv_spec ≡ base_of b.conv_spec = ap base_of h.conv in
                rw base (int_piece-Same v (base_of b.conv_spec) 0 0 refl)))
      ])

  convert_string-Same :
      (args : Args) → Both (AlikePiece cfg) (convert_string cfg a args) (convert_string cfg b args)
  unfolding convert_string
  convert_string-Same args = elim (Option-cases (arg_text args)) [
    | inl e ↦ rw e tt
    | inr ((p, x), e) ↦ elim (Option-cases (string_of cfg b p)) [
      | inl f ↦ rw (e, string_of-Ready p, f) tt
      | inr (cs, f) ↦ elim (Option-cases (counted cs)) [
        | inl g ↦ rw (e, string_of-Ready p, f, g) tt
        | inr (r, g) ↦ rw (e, string_of-Ready p, f, g) (plain_piece (Payload.string r), refl)
      ]
    ]
  ]

  convert_char-Same :
      (args : Args) → Both (AlikePiece cfg) (convert_char a args) (convert_char b args)
  unfolding convert_char
  convert_char-Same args =
      let test = ap (λ c. index c == index ConvSpec.char) h.conv in
      rw test (elim (Bool-cases (index b.conv_spec == index ConvSpec.char)) [
        | inl t ↦
            rw t (
              taken cfg (arg_word32 args) _ _
                (λ v. plain_piece (Payload.reversed (v % 2 ^ 8 ∷ []))))
        | inr t ↦ rw t (plain_piece (Payload.reversed (b'%' ∷ [])), refl)
      ])

  take_real-Ready : (args : Args) → take_real cfg a args ≡ take_real cfg b args
  unfolding take_real
  take_real-Ready args = rw h.modifier refl

  abbrev sign_of_real : ℕ → FormatSpec → ℕ
  sign_of_real v fs = if v / 2 ^ sign_pos cfg == 0 then fs.prepend else b'-'

  abbrev hex_of_real : ℕ → FormatSpec → Bytes
  hex_of_real v fs =
      if cfg.float_hex && index fs.conv_spec == index ConvSpec.float_hex
      then atoa_rev cfg fs (if cfg.single_precision then widen v else v)
      else []

  abbrev text_of_real : ℕ → FormatSpec → Converted
  text_of_real v fs = if use_sci cfg then etoa_rev cfg fs v else ftoa_rev cfg fs (dec_prec cfg fs) v

  hex_agrees : (v : ℕ) → hex_of_real v a ≡ hex_of_real v b
  hex_agrees v =
      let test = ap (λ c. cfg.float_hex && index c == index ConvSpec.float_hex) h.conv in
      rw (test, atoa_rev-Ready cfg a b h) refl

  text_agrees : (v : ℕ) → text_of_real v a ≡ text_of_real v b
  text_agrees v = rw (etoa_rev-Ready cfg a b h v, ftoa_rev-Ready cfg a b h v) refl

  real_agrees :
      (v : ℕ)
      → SamePiece cfg
          (float_piece cfg a (sign_of_real v a) (hex_of_real v a) (text_of_real v a))
          (float_piece cfg b (sign_of_real v b) (hex_of_real v b) (text_of_real v b))
  real_agrees v =
      let sign : sign_of_real v a ≡ sign_of_real v b =
        ap (λ x. if v / 2 ^ sign_pos cfg == 0 then x else b'-') h.prepend in
      rw (hex_agrees v, text_agrees v, sign) (float_piece-Same _ _ _)

  convert_real-Same :
      (args : Args) → Both (AlikePiece cfg) (convert_real cfg a args) (convert_real cfg b args)
  unfolding convert_real float_piece
  convert_real-Same args =
      rw (take_real-Ready args) (taken cfg (take_real cfg b args) _ _ (λ v. real_agrees v))

  abbrev stores_of : ℕ → ℕ → LengthModifier → List Store
  stores_of n p m =
      if writeback_size m == 0
      then []
      else record {
        address = p;
        size = writeback_size m;
        content = sign_extend 32 n % 2 ^ (8 * writeback_size m);
      }
        ∷ []

  convert_writeback-Same :
      (n : ℕ) (args : Args)
      → Both (AlikeConvert cfg) (convert_writeback a n args) (convert_writeback b n args)
  unfolding convert_writeback
  convert_writeback-Same n args = elim (Option-cases (arg_pointer args)) [
    | inl e ↦ rw e tt
    | inr ((p, x), e) ↦
        rw e (plain_piece (Payload.reversed []), refl, ap (stores_of n p) h.modifier)
  ]

  -- The conversions give the same for two structs that hold the same directive.
  pub convert-Same :
      (n : ℕ) (args : Args) → Both (AlikeConvert cfg) (convert cfg a n args) (convert cfg b n args)
  unfolding convert
  convert-Same n args =
      let c = index b.conv_spec in
      rw (ap index h.conv) (elim (Bool-cases (cfg.floats && leb (index ConvSpec.float_dec) c)) [
        | inl t ↦ rw t (storeless-Both cfg _ _ (convert_real-Same args))
        | inr t ↦ elim (Bool-cases (cfg.writeback && c == index ConvSpec.writeback)) [
          | inl u ↦ rw (t, u) (convert_writeback-Same n args)
          | inr u ↦ elim (Bool-cases (leb (index ConvSpec.signed_int) c)) [
            | inl v ↦ elim (Bool-cases (c == index ConvSpec.signed_int)) [
              | inl w ↦ rw (t, u, v, w) (storeless-Both cfg _ _ (convert_signed-Same args))
              | inr w ↦ rw (t, u, v, w) (storeless-Both cfg _ _ (convert_unsigned-Same args))
            ]
            | inr v ↦ elim (Bool-cases (c == index ConvSpec.string)) [
              | inl w ↦ rw (t, u, v, w) (storeless-Both cfg _ _ (convert_string-Same args))
              | inr w ↦ rw (t, u, v, w) (storeless-Both cfg _ _ (convert_char-Same args))
            ]
          ]
        ]
      ])
