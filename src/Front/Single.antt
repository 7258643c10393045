-- ===== src/Front/Single.antt =====
-- What a format asks for in a single-precision build, next to the same build without it.
use nanoprintf.Base.{
  if_true, if_false, if◌then◌else◌, ℕ, zero, suc, ◌≡◌, refl, ap, sym, ◌∙◌, inl, inr, true, false,
  ◌&&◌, Option, none, some, List, [], ◌∷◌, ◌++◌, map, ◌==◌, Bool-cases, Option-cases,
}
use nanoprintf.Base.Bytes.{Bytes, peek, advance}
use nanoprintf.Config.{Config}
use nanoprintf.Spec.{LengthModifier, ConvSpec, FormatSpec, is_star}
use nanoprintf.Samples.{blank}
use nanoprintf.Convert.{is_word64}
use nanoprintf.Parse.{
  flag, flags, clear_flags, parse_width, parse_prec, parse_modifier, parse_conversion,
  parse_format_spec_end,
}
use nanoprintf.Printf.{parse_at}
use nanoprintf.Printf.Needs.{
  Kind, star_needs, integer_needs, real_needs, conversion_needs, directive_needs, format_needs,
}

-- The build with NANOPRINTF_USE_FLOAT_SINGLE_PRECISION.
abbrev pub single_build : Config → Config
single_build cfg = record cfg { single_precision = true }

-- A double or a long double is asked for as an `npf_float_t`.
abbrev pub single_kind : Kind → Kind
single_kind Kind.double = Kind.single
single_kind Kind.long_double = Kind.single
single_kind k = k

map-append :
    (ks ls : List Kind) → map single_kind (ks ++ ls) ≡ map single_kind ks ++ map single_kind ls
map-append [] ls = refl
map-append (k ∷ ks) ls = ap (λ l. single_kind k ∷ l) (map-append ks ls)

module _ (cfg : Config) (double : cfg.single_precision ≡ false) where
  flag-single : (c : ℕ) (out : FormatSpec) → flag (single_build cfg) c out ≡ flag cfg c out
  unfolding flag
  flag-single c out = refl

  flags-single :
      (cs : Bytes) (out : FormatSpec) → flags (single_build cfg) cs out ≡ flags cfg cs out
  unfolding flags
  flags-single [] out = refl
  flags-single (c ∷ cs) out = elim (Option-cases (flag cfg c out)) [
    | inl e ↦ rw (flags, flag-single c out, e) refl
    | inr (out', e) ↦ rw (flags, flag-single c out, e) (flags-single cs out')
  ]

  parse_end-single :
      (cur : Bytes) (fs : FormatSpec)
      → parse_format_spec_end (single_build cfg) cur fs ≡ parse_format_spec_end cfg cur fs
  unfolding parse_format_spec_end
  parse_end-single cur fs =
      ap
        (λ r.
          let (out2, cur2) = parse_width cfg r.0 r.1 in
          let (out3, cur3) = parse_prec cfg out2 cur2 in
          elim (parse_modifier cfg cur3) as (λ x. Option (FormatSpec × Bytes)) [
            | none ↦ none
            | some (m, cur4) ↦ parse_conversion cfg (record out3 { length_modifier = m }) cur4
          ])
        (flags-single (advance cur) (clear_flags cfg fs))

  parse_at-single :
      (cur : Bytes) (fs : FormatSpec) → parse_at (single_build cfg) cur fs ≡ parse_at cfg cur fs
  unfolding parse_at
  parse_at-single cur fs = rw (parse_end-single cur fs) refl

  real_needs-single :
      (m : LengthModifier) → real_needs (single_build cfg) m ≡ map single_kind (real_needs cfg m)
  unfolding real_needs
  real_needs-single LengthModifier.long_double = rw double refl
  real_needs-single m = rw double refl

  integer_needs-single : (m : LengthModifier) → integer_needs m ≡ map single_kind (integer_needs m)
  unfolding integer_needs
  integer_needs-single m = elim (Bool-cases (is_word64 m)) [ inl e ↦ rw e refl | inr e ↦ rw e refl ]

  float_needs-single :
      (m : LengthModifier)
      → (if cfg.floats then real_needs (single_build cfg) m else integer_needs m)
        ≡ map single_kind (if cfg.floats then real_needs cfg m else integer_needs m)
  float_needs-single m = elim (Bool-cases cfg.floats) [
    | inl e ↦ if_true _ _ e ∙ real_needs-single m ∙ ap (map single_kind) (sym (if_true _ _ e))
    | inr e ↦ if_false _ _ e ∙ integer_needs-single m ∙ ap (map single_kind) (sym (if_false _ _ e))
  ]

  conversion_needs-single :
      (cs : ConvSpec) (m : LengthModifier)
      → conversion_needs (single_build cfg) cs m ≡ map single_kind (conversion_needs cfg cs m)
  unfolding conversion_needs
  conversion_needs-single ConvSpec.none m = refl
  conversion_needs-single ConvSpec.percent m = refl
  conversion_needs-single ConvSpec.char m = refl
  conversion_needs-single ConvSpec.string m = refl
  conversion_needs-single ConvSpec.pointer m = refl
  conversion_needs-single ConvSpec.writeback m = elim (Bool-cases cfg.writeback) [
    | inl e ↦ rw e refl
    | inr e ↦ rw e (integer_needs-single m)
  ]
  conversion_needs-single ConvSpec.float_dec m = float_needs-single m
  conversion_needs-single ConvSpec.float_hex m = float_needs-single m
  conversion_needs-single ConvSpec.float_sci m = float_needs-single m
  conversion_needs-single ConvSpec.float_shortest m = float_needs-single m
  conversion_needs-single cs m = integer_needs-single m

  directive_needs-single :
      (fs : FormatSpec)
      → directive_needs (single_build cfg) fs ≡ map single_kind (directive_needs cfg fs)
  unfolding directive_needs star_needs
  directive_needs-single fs =
      let c = conversion_needs-single fs.conv_spec fs.length_modifier in
      elim (Bool-cases (cfg.field_widths && is_star fs.field_width_opt)) [
        | inl a ↦ elim (Bool-cases (cfg.precisions && is_star fs.prec_opt)) [
          | inl b ↦ rw (a, b) (ap (λ ks. Kind.int ∷ Kind.int ∷ ks) c)
          | inr b ↦ rw (a, b) (ap (λ ks. Kind.int ∷ ks) c)
        ]
        | inr a ↦ elim (Bool-cases (cfg.precisions && is_star fs.prec_opt)) [
          | inl b ↦ rw (a, b) (ap (λ ks. Kind.int ∷ ks) c)
          | inr b ↦ rw (a, b) c
        ]
      ]

  pub format_needs-single :
      (fuel : ℕ) (cur : Bytes)
      → format_needs (single_build cfg) fuel cur ≡ map single_kind (format_needs cfg fuel cur)
  unfolding format_needs
  format_needs-single zero cur = refl
  format_needs-single (suc fuel) cur = elim (Bool-cases (peek cur == 0)) [
    | inl z ↦ rw (format_needs, z) refl
    | inr z ↦ elim (Option-cases (parse_at cfg cur blank)) [
      | inl e ↦
          rw (format_needs, z, parse_at-single cur blank, e)
            (format_needs-single fuel (advance cur))
      | inr ((fs, end), e) ↦
          rw
            (
              format_needs,
              z,
              parse_at-single cur blank,
              e,
              directive_needs-single fs,
              format_needs-single fuel end,
              map-append,
            )
            refl
    ]
  ]
