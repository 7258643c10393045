-- ===== src/Parse/Fresh.antt =====
-- The parser does not look at what the struct held before.
use nanoprintf.Base.{
  ℕ, ◌≡◌, refl, true, false, Option, some, none, [], ◌∷◌, ◌==◌, arith, Bool-cases, Option-cases,
  inl, inr,
}
use nanoprintf.Base.Bytes.{Bytes, peek, advance}
use Prim.Native.Nat.{bit_and}
use nanoprintf.Config.{Config}
use nanoprintf.Spec.{LengthModifier, ConvSpec, FormatSpec, is_star, index}
use nanoprintf.Parse.{
  flag, flags, clear_flags, parse_width, parse_point, parse_prec, parse_modifier, conversion,
  parse_conversion, parse_format_spec_end,
}

-- Two structs have the same flags, as far as a configuration has them.
pub record SameFlags (cfg : Config) (a b : FormatSpec) : Type 0 where
  pub prepend : a.prepend ≡ b.prepend
  pub left : cfg.field_widths ≡ true → a.left_justified ≡ b.left_justified
  pub zero_pad : cfg.field_widths ≡ true → a.leading_zero_pad ≡ b.leading_zero_pad
  pub alt : cfg.alt_forms ≡ true → a.alt_form ≡ b.alt_form

clear_flags-SameFlags :
    (cfg : Config) (a b : FormatSpec) → SameFlags cfg (clear_flags cfg a) (clear_flags cfg b)
unfolding clear_flags
clear_flags-SameFlags cfg a b = ground arith

-- A flag ends the run for both, or for neither.
abbrev SameFlag : Config → Option FormatSpec → Option FormatSpec → Type 0
SameFlag cfg none none = Unit
SameFlag cfg (some a) (some b) = SameFlags cfg a b
SameFlag cfg none (some b) = ⊥
SameFlag cfg (some a) none = ⊥

flag-SameFlag :
    (cfg : Config) (c : ℕ) (a b : FormatSpec)
    → SameFlags cfg a b
    → SameFlag cfg (flag cfg c a) (flag cfg c b)
unfolding flag
flag-SameFlag cfg c a b h = ground arith

flags-SameFlags :
    (cfg : Config) (cur : Bytes) (a b : FormatSpec)
    → SameFlags cfg a b
    → SameFlags cfg (flags cfg cur a).0 (flags cfg cur b).0
      × ((flags cfg cur a).1 ≡ (flags cfg cur b).1)
unfolding flags
flags-SameFlags cfg [] a b h = (h, refl)
flags-SameFlags cfg (c ∷ cs) a b h =
    let k = flag-SameFlag cfg c a b h in
    elim (Option-cases (flag cfg c a)) [
      | inl e ↦ elim (Option-cases (flag cfg c b)) [
        | inl f ↦ rw (e, f, flags) (h, refl)
        | inr (b', f) ↦ absurd (rw (e, f) at k)
      ]
      | inr (a', e) ↦ elim (Option-cases (flag cfg c b)) [
        | inl f ↦ absurd (rw (e, f) at k)
        | inr (b', f) ↦ rw (e, f, flags) (flags-SameFlags cfg cs a' b' (rw (e, f) at k))
      ]
    ]

-- Two structs hold the same width, as far as a configuration has one.
pub record SameWidth (cfg : Config) (a b : FormatSpec) : Type 0 where
  pub width_flags : SameFlags cfg a b
  pub width_opt : cfg.field_widths ≡ true → a.field_width_opt ≡ b.field_width_opt
  pub width :
      cfg.field_widths ≡ true → is_star a.field_width_opt ≡ false → a.field_width ≡ b.field_width

parse_width-SameWidth :
    (cfg : Config) (x y : Bytes) (a b : FormatSpec)
    → SameFlags cfg a b × (x ≡ y)
    → SameWidth cfg (parse_width cfg a x).0 (parse_width cfg b y).0
      × ((parse_width cfg a x).1 ≡ (parse_width cfg b y).1)
unfolding parse_width
parse_width-SameWidth cfg x y a b (h, e) = rw e (ground arith)

-- Two structs hold the same precision too.
pub record SamePrec (cfg : Config) (a b : FormatSpec) : Type 0 where
  pub prec_width : SameWidth cfg a b
  pub prec_opt : cfg.precisions ≡ true → a.prec_opt ≡ b.prec_opt
  pub prec : cfg.precisions ≡ true → a.prec ≡ b.prec

parse_prec-SamePrec :
    (cfg : Config) (x y : Bytes) (a b : FormatSpec)
    → SameWidth cfg a b × (x ≡ y)
    → SamePrec cfg (parse_prec cfg a x).0 (parse_prec cfg b y).0
      × ((parse_prec cfg a x).1 ≡ (parse_prec cfg b y).1)
unfolding parse_prec parse_point
parse_prec-SamePrec cfg x y a b (h, e) = rw e (ground arith)

-- Two structs hold the same directive. A star width is not yet stored.
pub record Same (cfg : Config) (a b : FormatSpec) : Type 0 where
  pub same_prec : SamePrec cfg a b
  pub modifier : a.length_modifier ≡ b.length_modifier
  pub conv : a.conv_spec ≡ b.conv_spec
  pub adjust : a.case_adjust ≡ b.case_adjust

-- The results of two runs of the parser: both refuse, or both accept with the same directive.
abbrev pub SameResult : Config → Option (FormatSpec × Bytes) → Option (FormatSpec × Bytes) → Type 0
SameResult cfg none none = Unit
SameResult cfg (some (a, x)) (some (b, y)) = Same cfg a b × (x ≡ y)
SameResult cfg none (some b) = ⊥
SameResult cfg (some a) none = ⊥

-- The modifier and the conversion that are stored last.
abbrev finish : FormatSpec → LengthModifier → ConvSpec → ℕ → FormatSpec
finish out m cs adjust = record out { length_modifier = m; conv_spec = cs; case_adjust = adjust }

finish-Same :
    (cfg : Config) (a b : FormatSpec) (m : LengthModifier) (cs : ConvSpec) (adjust : ℕ)
    → SamePrec cfg a b
    → Same cfg (finish a m cs adjust) (finish b m cs adjust)
finish-Same cfg a b m cs adjust h =
    let w = h.prec_width in
    let f = w.width_flags in
    let f' : SameFlags cfg (finish a m cs adjust) (finish b m cs adjust) = record {
      prepend = f.prepend;
      left = f.left;
      zero_pad = f.zero_pad;
      alt = f.alt;
    } in
    record {
      same_prec = record {
        prec_width = record { width_flags = f'; width_opt = w.width_opt; width = w.width };
        prec_opt = h.prec_opt;
        prec = h.prec;
      };
      modifier = refl;
      conv = refl;
      adjust = refl;
    }

parse_conversion-Same :
    (cfg : Config) (cur : Bytes) (m : LengthModifier) (a b : FormatSpec)
    → SamePrec cfg a b
    → SameResult cfg
        (parse_conversion cfg (record a { length_modifier = m }) cur)
        (parse_conversion cfg (record b { length_modifier = m }) cur)
unfolding parse_conversion
parse_conversion-Same cfg cur m a b h = elim (Bool-cases (index (conversion cfg (peek cur)) == 0)) [
  | inl e ↦ rw e tt
  | inr e ↦ rw e (finish-Same cfg a b m (conversion cfg (peek cur)) (bit_and (peek cur) 32) h, refl)
]

-- The stages behind the precision.
abbrev pub tail : Config → FormatSpec → Bytes → Option (FormatSpec × Bytes)
tail cfg out cur = elim (parse_modifier cfg cur) [
  | none ↦ none
  | some (m, cur') ↦ parse_conversion cfg (record out { length_modifier = m }) cur'
]

tail-SameResult :
    (cfg : Config) (x y : Bytes) (a b : FormatSpec)
    → SamePrec cfg a b × (x ≡ y)
    → SameResult cfg (tail cfg a x) (tail cfg b y)
tail-SameResult cfg x y a b (h, e) = elim (Option-cases (parse_modifier cfg y)) [
  | inl n ↦ rw (e, n, tail) tt
  | inr ((m, cur), n) ↦ rw (e, n, tail) (parse_conversion-Same cfg cur m a b h)
]

-- What the parser answers does not depend on what the struct held before: both runs refuse, or both
-- accept, end at the same byte and store the same directive, as far as the configuration reads it.
pub parse_format_spec_end-SameResult :
    (cfg : Config) (format : Bytes) (a b : FormatSpec)
    → SameResult cfg (parse_format_spec_end cfg format a) (parse_format_spec_end cfg format b)
unfolding parse_format_spec_end
parse_format_spec_end-SameResult cfg format a b = tail-SameResult cfg _ _ _ _ (
    parse_prec-SamePrec cfg _ _ _ _ (
      parse_width-SameWidth cfg _ _ _ _
        (flags-SameFlags cfg (advance format) _ _ (clear_flags-SameFlags cfg a b))))
