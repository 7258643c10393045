-- ===== src/Directive/Fresh.antt =====
-- The stages before a conversion do not read what the parser has not stored.
use nanoprintf.Base.{
  ℕ, ap, ◌∙◌, ◌>>=◌, ◌≡◌, refl, true, false, Option, some, Bool-cases, inl, inr, arith,
}
use nanoprintf.Base.Both.{Both, Both-refl, >>=-Both}
use nanoprintf.Config.{Config}
use nanoprintf.Spec.{FormatSpec, is_star}
use nanoprintf.Args.{Args, arg_word32}
use nanoprintf.Parse.Fresh.{Same}
use nanoprintf.Directive.{
  star_width, cap_width, take_width, star_prec, cap_prec, take_prec, default_prec, drop_zero_flag,
  prepare,
}

-- Two structs hold the same directive with its width stored, as far as a configuration reads them.
pub record Ready (cfg : Config) (a b : FormatSpec) : Type 0 where
  pub prepend : a.prepend ≡ b.prepend
  pub modifier : a.length_modifier ≡ b.length_modifier
  pub conv : a.conv_spec ≡ b.conv_spec
  pub adjust : a.case_adjust ≡ b.case_adjust
  pub alt : cfg.alt_forms ≡ true → a.alt_form ≡ b.alt_form
  pub left : cfg.field_widths ≡ true → a.left_justified ≡ b.left_justified
  pub zero_pad : cfg.field_widths ≡ true → a.leading_zero_pad ≡ b.leading_zero_pad
  pub width : cfg.field_widths ≡ true → a.field_width ≡ b.field_width
  pub prec_opt : cfg.precisions ≡ true → a.prec_opt ≡ b.prec_opt
  pub prec : cfg.precisions ≡ true → a.prec ≡ b.prec

-- Two runs of a stage: both without a result, or both with structs alike and the same arguments left.
abbrev pub Alike : Config → FormatSpec × Args → FormatSpec × Args → Type 0
Alike cfg (a, x) (b, y) = Ready cfg a b × (x ≡ y)

abbrev pub SameReady : Config → Option (FormatSpec × Args) → Option (FormatSpec × Args) → Type 0
SameReady cfg x y = Both (Alike cfg) x y

-- A width or a precision from an argument.
module _ (cfg : Config) (fs : FormatSpec) (args : Args) where
  take_width_star :
      cfg.field_widths ≡ true
      → is_star fs.field_width_opt ≡ true
      → take_width cfg fs args
        ≡ (do (v, args') ← arg_word32 args; some (cap_width cfg (star_width cfg fs v), args'))
  unfolding take_width
  take_width_star f s = rw (f, s) refl

  take_width_stored :
      cfg.field_widths ≡ true
      → is_star fs.field_width_opt ≡ false
      → take_width cfg fs args ≡ some (cap_width cfg fs, args)
  unfolding take_width
  take_width_stored f s = rw (f, s) refl

  take_width_none : cfg.field_widths ≡ false → take_width cfg fs args ≡ some (fs, args)
  unfolding take_width
  take_width_none f = rw f refl

  take_prec_none : cfg.precisions ≡ false → take_prec cfg fs args ≡ some (fs, args)
  unfolding take_prec
  take_prec_none p = rw p refl

  take_prec_stored :
      cfg.precisions ≡ true
      → is_star fs.prec_opt ≡ false
      → take_prec cfg fs args ≡ some (cap_prec cfg fs, args)
  unfolding take_prec
  take_prec_stored p s = rw (p, s) refl

  take_prec_star :
      cfg.precisions ≡ true
      → is_star fs.prec_opt ≡ true
      → take_prec cfg fs args
        ≡ (do (v, args') ← arg_word32 args; some (cap_prec cfg (star_prec fs v), args'))
  unfolding take_prec
  take_prec_star p s = rw (p, s) refl

module _ (cfg : Config) (a b : FormatSpec) where
  star_width-Ready :
      (v : ℕ)
      → Same cfg a b
      → Ready cfg (cap_width cfg (star_width cfg a v)) (cap_width cfg (star_width cfg b v))
  unfolding cap_width star_width
  star_width-Ready v h = ground arith

  cap_width-Ready :
      Same cfg a b
      → cfg.field_widths ≡ true
      → is_star a.field_width_opt ≡ false
      → Ready cfg (cap_width cfg a) (cap_width cfg b)
  unfolding cap_width
  cap_width-Ready h f s = ground arith

  no_width-Ready : Same cfg a b → cfg.field_widths ≡ false → Ready cfg a b
  no_width-Ready h f = ground arith

  width_star_eq :
      Same cfg a b → cfg.field_widths ≡ true → is_star a.field_width_opt ≡ is_star b.field_width_opt
  width_star_eq h f = ap is_star (h.same_prec.prec_width.width_opt f)

  width_argument :
      (args : Args)
      → Same cfg a b
      → SameReady cfg
          (do (v, args') ← arg_word32 args; some (cap_width cfg (star_width cfg a v), args'))
          (do (v, args') ← arg_word32 args; some (cap_width cfg (star_width cfg b v), args'))
  width_argument args h =
      >>=-Both (λ x y. x ≡ y) (Alike cfg) (arg_word32 args) (arg_word32 args) _ _
        (Both-refl (λ x y. x ≡ y) (λ x. refl) (arg_word32 args))
        (λ (v, x) (w, y) e. rw e (star_width-Ready _ h, refl))

  take_width-Ready :
      (args : Args) → Same cfg a b → SameReady cfg (take_width cfg a args) (take_width cfg b args)
  take_width-Ready args h = elim (Bool-cases cfg.field_widths) [
    | inr f ↦
        rw (take_width_none cfg a args f, take_width_none cfg b args f) (no_width-Ready h f, refl)
    | inl f ↦ elim (Bool-cases (is_star b.field_width_opt)) [
      | inr s ↦
          rw
            (
              take_width_stored cfg a args f (width_star_eq h f ∙ s),
              take_width_stored cfg b args f s,
            )
            (cap_width-Ready h f (width_star_eq h f ∙ s), refl)
      | inl s ↦
          rw (take_width_star cfg a args f (width_star_eq h f ∙ s), take_width_star cfg b args f s)
            (width_argument args h)
    ]
  ]

  star_prec-Ready :
      (v : ℕ)
      → Ready cfg a b
      → Ready cfg (cap_prec cfg (star_prec a v)) (cap_prec cfg (star_prec b v))
  unfolding cap_prec star_prec
  star_prec-Ready v h = ground arith

  cap_prec-Ready : Ready cfg a b → Ready cfg (cap_prec cfg a) (cap_prec cfg b)
  unfolding cap_prec
  cap_prec-Ready h = ground arith

  default_prec-Ready : Ready cfg a b → Ready cfg (default_prec cfg a) (default_prec cfg b)
  unfolding default_prec
  default_prec-Ready h = ground arith

  drop_zero_flag-Ready : Ready cfg a b → Ready cfg (drop_zero_flag cfg a) (drop_zero_flag cfg b)
  unfolding drop_zero_flag
  drop_zero_flag-Ready h = ground arith

  prec_star_eq : Ready cfg a b → cfg.precisions ≡ true → is_star a.prec_opt ≡ is_star b.prec_opt
  prec_star_eq h p = ap is_star (h.prec_opt p)

  prec_argument :
      (args : Args)
      → Ready cfg a b
      → SameReady cfg
          (do (v, args') ← arg_word32 args; some (cap_prec cfg (star_prec a v), args'))
          (do (v, args') ← arg_word32 args; some (cap_prec cfg (star_prec b v), args'))
  prec_argument args h =
      >>=-Both (λ x y. x ≡ y) (Alike cfg) (arg_word32 args) (arg_word32 args) _ _
        (Both-refl (λ x y. x ≡ y) (λ x. refl) (arg_word32 args))
        (λ (v, x) (w, y) e. rw e (star_prec-Ready _ h, refl))

  take_prec-Ready :
      (args : Args) → Ready cfg a b → SameReady cfg (take_prec cfg a args) (take_prec cfg b args)
  take_prec-Ready args h = elim (Bool-cases cfg.precisions) [
    | inr p ↦ rw (take_prec_none cfg a args p, take_prec_none cfg b args p) (h, refl)
    | inl p ↦ elim (Bool-cases (is_star b.prec_opt)) [
      | inr s ↦
          rw (take_prec_stored cfg a args p (prec_star_eq h p ∙ s), take_prec_stored cfg b args p s)
            (cap_prec-Ready h, refl)
      | inl s ↦
          rw (take_prec_star cfg a args p (prec_star_eq h p ∙ s), take_prec_star cfg b args p s)
            (prec_argument args h)
    ]
  ]

-- The stages before a conversion give the same for two structs that hold the same directive.
pub prepare-Ready :
    (cfg : Config) (a b : FormatSpec) (args : Args)
    → Same cfg a b
    → SameReady cfg (prepare cfg a args) (prepare cfg b args)
unfolding prepare
prepare-Ready cfg a b args h =
    >>=-Both (Alike cfg) (Alike cfg) (take_width cfg a args) (take_width cfg b args) _ _
      (take_width-Ready cfg a b args h)
      (λ (a1, x) (b1, y) (r, e). rw e (
        >>=-Both (Alike cfg) (Alike cfg) (take_prec cfg a1 y) (take_prec cfg b1 y) _ _
          (take_prec-Ready cfg a1 b1 y r)
          (λ (a2, x) (b2, y) (r, e).
            (drop_zero_flag-Ready cfg _ _ (default_prec-Ready cfg a2 b2 r), e))))
