-- ===== src/Emit/Standard.antt =====
-- The output half of a directive against the text that C describes.
use nanoprintf.Base.{
  ℕ, zero, suc, ◌+◌, ◌-◌, ◌≡◌, refl, ap, ◌∙◌, Bool, true, false, not, ◌&&◌, [], ◌∷◌, ◌++◌, ◌==◌,
  leb, if◌then◌else◌, replicate, length, length-append, length-replicate, Bool-cases, inl, inr,
  arith,
}
use mathlib.Core.List.{append-nil, append_assoc}
use nanoprintf.Base.Bytes.{Bytes}
use nanoprintf.Config.{Config}
use nanoprintf.Spec.{ConvSpec, index}
use nanoprintf.Convert.{Piece}
use nanoprintf.Emit.{pad_char, prec_zeros, bare_len, field_blanks}
use nanoprintf.Emit.Layout.{
  layout, blanks, zeros, zero_filled, sign_text, prefix_text, payload_text,
}
use nanoprintf.Emit.Text.{filler, takes_digits, digits_text, fills_zeros, standard_text}
use nanoprintf.Emit.Length.{length-payload_text, length-sign_text, length-prefix_text}

pub if_equal : {A : Type 0} (b : Bool) (x : A) → (if b then x else x) ≡ x
if_equal true x = refl
if_equal false x = refl

-- Without field widths there are no blanks, and none where the field is filled with zeros.
pub no_blanks : (cfg : Config) (p : Piece) → cfg.field_widths ≡ false → blanks cfg p ≡ []
unfolding blanks
no_blanks cfg p f =
    let e : field_blanks cfg p ≡ 0 = unfold field_blanks in rw f refl in rw (e, if_equal) refl

no_fill : (cfg : Config) (p : Piece) → zero_filled cfg p ≡ true → blanks cfg p ≡ []
unfolding blanks
no_fill cfg p z = rw z refl

replicate_plus :
    {A : Type 0} (m n : ℕ) (x : A) → replicate (m + n) x ≡ replicate m x ++ replicate n x
replicate_plus zero n x = ap (λ k. replicate k x) (omega arith)
replicate_plus (suc m) n x =
    let s : suc m + n ≡ suc (m + n) = omega arith in
    ap (λ k. replicate k x) s ∙ ap (λ r. x ∷ r) (replicate_plus m n x)

replicate_comm : {A : Type 0} (m n : ℕ) (x : A) → replicate (m + n) x ≡ replicate (n + m) x
replicate_comm m n x = ap (λ k. replicate k x) (omega arith)

takes_digits_lem :
    (cfg : Config) (c : ConvSpec)
    → takes_digits cfg c ≡ (
        not (index c == index ConvSpec.string)
        && not (cfg.floats && leb (index ConvSpec.float_dec) (index c)))
unfolding takes_digits index
takes_digits_lem cfg ConvSpec.none = ground arith
takes_digits_lem cfg ConvSpec.percent = ground arith
takes_digits_lem cfg ConvSpec.char = ground arith
takes_digits_lem cfg ConvSpec.string = ground arith
takes_digits_lem cfg ConvSpec.signed_int = ground arith
takes_digits_lem cfg ConvSpec.binary = ground arith
takes_digits_lem cfg ConvSpec.octal = ground arith
takes_digits_lem cfg ConvSpec.hex_int = ground arith
takes_digits_lem cfg ConvSpec.unsigned_int = ground arith
takes_digits_lem cfg ConvSpec.pointer = ground arith
takes_digits_lem cfg ConvSpec.writeback = ground arith
takes_digits_lem cfg ConvSpec.float_dec = ground arith
takes_digits_lem cfg ConvSpec.float_hex = ground arith
takes_digits_lem cfg ConvSpec.float_sci = ground arith
takes_digits_lem cfg ConvSpec.float_shortest = ground arith

module _ (cfg : Config) (p : Piece) where
  prec_zeros_lem : prec_zeros cfg p ≡ (
      if cfg.precisions && takes_digits cfg p.fs.conv_spec
      then p.fs.prec - length (payload_text p.payload)
      else 0)
  unfolding prec_zeros
  prec_zeros_lem =
      ground (arith, takes_digits_lem cfg p.fs.conv_spec, length-payload_text p.payload)

  digits_zeros : digits_text cfg p ≡ replicate (prec_zeros cfg p) b'0' ++ payload_text p.payload
  unfolding digits_text filler
  digits_zeros = elim (Bool-cases (cfg.precisions && takes_digits cfg p.fs.conv_spec)) [
    | inl e ↦ rw (prec_zeros_lem, e) refl
    | inr e ↦ rw (prec_zeros_lem, e) refl
  ]

  length_body : length ((sign_text p ++ prefix_text p) ++ digits_text cfg p) ≡ bare_len cfg p
  unfolding bare_len
  length_body =
      let l = length-payload_text p.payload in
      let z = length-replicate {A = ℕ} (prec_zeros cfg p) b'0' in
      rw (digits_zeros, length-append, length-append, length-append)
        (omega (arith, l, z, length-sign_text cfg p, length-prefix_text cfg p))

  blanks_lem :
      zero_filled cfg p ≡ false
      → cfg.field_widths ≡ true
      → blanks cfg p
        ≡ filler p.fs.field_width b' ' ((sign_text p ++ prefix_text p) ++ digits_text cfg p)
  unfolding blanks field_blanks filler
  blanks_lem z f = rw (z, length_body) (rw f refl)

  fills_zeros_lem :
      cfg.field_widths ≡ true
      → (p.fs.left_justified == 0) ≡ true
      → fills_zeros cfg p ≡ zero_filled cfg p
  unfolding fills_zeros zero_filled pad_char
  fills_zeros_lem f l = ground arith

  zeros_plain : zero_filled cfg p ≡ false → zeros cfg p ≡ replicate (prec_zeros cfg p) b'0'
  unfolding zeros
  zeros_plain z = rw z refl

  field_blanks_lem :
      cfg.field_widths ≡ true → field_blanks cfg p ≡ p.fs.field_width - bare_len cfg p
  unfolding field_blanks
  field_blanks_lem f = ground arith

  zeros_field :
      zero_filled cfg p ≡ true
      → cfg.field_widths ≡ true
      → zeros cfg p
        ≡ filler p.fs.field_width b'0' ((sign_text p ++ prefix_text p) ++ digits_text cfg p)
          ++ replicate (prec_zeros cfg p) b'0'
  unfolding zeros filler
  zeros_field z f =
      rw (z, field_blanks_lem f, length_body, replicate_comm (prec_zeros cfg p), replicate_plus)
        refl

  no_zeros : cfg.field_widths ≡ false → zero_filled cfg p ≡ false
  unfolding zero_filled
  no_zeros f = rw f refl

  not_left : (p.fs.left_justified == 0) ≡ false → zero_filled cfg p ≡ false
  unfolding zero_filled pad_char
  not_left l = ground arith

  standard_none :
      cfg.field_widths ≡ false
      → standard_text cfg p ≡ (sign_text p ++ prefix_text p) ++ digits_text cfg p
  unfolding standard_text
  standard_none f = rw f refl

  standard_left :
      cfg.field_widths ≡ true
      → (p.fs.left_justified == 0) ≡ false
      → let body = (sign_text p ++ prefix_text p) ++ digits_text cfg p in
        standard_text cfg p ≡ body ++ filler p.fs.field_width b' ' body
  unfolding standard_text
  standard_left f l = rw (l, f) refl

  standard_zero :
      cfg.field_widths ≡ true
      → (p.fs.left_justified == 0) ≡ true
      → fills_zeros cfg p ≡ true
      → let head = sign_text p ++ prefix_text p in
        let digits = digits_text cfg p in
        standard_text cfg p ≡ head ++ (filler p.fs.field_width b'0' (head ++ digits) ++ digits)
  unfolding standard_text
  standard_zero f l w = rw (w, l, f) refl

  standard_right :
      cfg.field_widths ≡ true
      → (p.fs.left_justified == 0) ≡ true
      → fills_zeros cfg p ≡ false
      → let body = (sign_text p ++ prefix_text p) ++ digits_text cfg p in
        standard_text cfg p ≡ filler p.fs.field_width b' ' body ++ body
  unfolding standard_text
  standard_right f l w = rw (w, l, f) refl

  layout_none : cfg.field_widths ≡ false → layout cfg p ≡ standard_text cfg p
  unfolding layout
  layout_none f =
      rw (standard_none f, no_blanks cfg p f, zeros_plain (no_zeros f))
        (rw (digits_zeros, if_equal {A = Bytes}) (simp (append_assoc, append-nil) refl))

  layout_left :
      cfg.field_widths ≡ true
      → (p.fs.left_justified == 0) ≡ false
      → layout cfg p ≡ standard_text cfg p
  unfolding layout
  layout_left f l =
      let z = not_left l in
      rw (standard_left f l, l, zeros_plain z, blanks_lem z f)
        (rw digits_zeros (simp append_assoc refl))

  layout_right :
      cfg.field_widths ≡ true
      → (p.fs.left_justified == 0) ≡ true
      → zero_filled cfg p ≡ false
      → layout cfg p ≡ standard_text cfg p
  unfolding layout
  layout_right f l z =
      rw (standard_right f l (fills_zeros_lem f l ∙ z), l, zeros_plain z, blanks_lem z f)
        (rw digits_zeros (simp (append_assoc, append-nil) refl))

  layout_zero :
      cfg.field_widths ≡ true
      → (p.fs.left_justified == 0) ≡ true
      → zero_filled cfg p ≡ true
      → layout cfg p ≡ standard_text cfg p
  unfolding layout
  layout_zero f l z =
      rw (standard_zero f l (fills_zeros_lem f l ∙ z), l, no_fill cfg p z, zeros_field z f)
        (rw digits_zeros (simp (append_assoc, append-nil) refl))

  pub layout-standard_text : layout cfg p ≡ standard_text cfg p
  layout-standard_text = elim (Bool-cases cfg.field_widths) [
    | inr f ↦ layout_none f
    | inl f ↦ elim (Bool-cases (p.fs.left_justified == 0)) [
      | inr l ↦ layout_left f l
      | inl l ↦ elim (Bool-cases (zero_filled cfg p)) [
        | inl z ↦ layout_zero f l z
        | inr z ↦ layout_right f l z
      ]
    ]
  ]
