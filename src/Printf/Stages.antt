-- ===== src/Printf/Stages.antt =====
-- The stages before a conversion, given the arguments that its stars ask for.
use nanoprintf.Base.{◌≡◌, refl, ◌∙◌, ◌&&◌, some, arith, Bool-cases, inl, inr}
use nanoprintf.Config.{Config}
use nanoprintf.Spec.{FormatSpec, is_star}
use nanoprintf.Args.{Args}
use nanoprintf.Directive.{
  take_width, take_prec, prepare, star_width, cap_width, star_prec, cap_prec, default_prec,
  drop_zero_flag,
}
use nanoprintf.Printf.Needs.{Takes, Takes-append, star_needs, conversion_needs, directive_needs}
use nanoprintf.Printf.Fetch.{take_int}

-- What the stages before the conversion leave alone.
abbrev pub Keeps : FormatSpec → FormatSpec → Type 0
Keeps a b = (b.conv_spec ≡ a.conv_spec) × (b.length_modifier ≡ a.length_modifier)

Keeps-trans : (a b c : FormatSpec) → Keeps a b → Keeps b c → Keeps a c
Keeps-trans a b c (e, f) (g, h) = (g ∙ e, h ∙ f)

Keeps-needs :
    (cfg : Config) (a b : FormatSpec) (args rest : Args)
    → Keeps a b
    → Takes (conversion_needs cfg a.conv_spec a.length_modifier) args rest
    → Takes (conversion_needs cfg b.conv_spec b.length_modifier) args rest
Keeps-needs cfg a b args rest (e, f) h = rw (e, f) h

cap_width-Keeps :
    (cfg : Config) (fs : FormatSpec)
    → Keeps fs (cap_width cfg fs) × ((cap_width cfg fs).prec_opt ≡ fs.prec_opt)
unfolding cap_width
cap_width-Keeps cfg fs = ground arith

cap_prec-Keeps : (cfg : Config) (fs : FormatSpec) → Keeps fs (cap_prec cfg fs)
unfolding cap_prec
cap_prec-Keeps cfg fs = ground arith

drop_zero_flag-Keeps : (cfg : Config) (fs : FormatSpec) → Keeps fs (drop_zero_flag cfg fs)
unfolding drop_zero_flag
drop_zero_flag-Keeps cfg fs = ground arith

default_prec-Keeps : (cfg : Config) (fs : FormatSpec) → Keeps fs (default_prec cfg fs)
unfolding default_prec
default_prec-Keeps cfg fs = ground arith

take_width_defined :
    (cfg : Config) (fs : FormatSpec) (args rest : Args)
    → Takes (star_needs (cfg.field_widths && is_star fs.field_width_opt)) args rest
    → (fs' : FormatSpec) × (take_width cfg fs args ≡ some (fs', rest))
      × Keeps fs fs'
      × (fs'.prec_opt ≡ fs.prec_opt)
unfolding take_width star_needs star_width
take_width_defined cfg fs args rest h = elim (Bool-cases cfg.field_widths) [
  | inr f ↦ (fs, rw (f, rw f at h) refl, (refl, refl), refl)
  | inl f ↦ elim (Bool-cases (is_star fs.field_width_opt)) [
    | inr s ↦
        let (k, o) = cap_width-Keeps cfg fs in
        (cap_width cfg fs, rw (f, s, rw (f, s) at h) refl, k, o)
    | inl s ↦
        let (v, e) = take_int args rest (rw (f, s) at h) in
        let (k, o) = cap_width-Keeps cfg (star_width cfg fs v) in
        (cap_width cfg (star_width cfg fs v), rw (f, s, e) refl, k, o)
  ]
]

take_prec_defined :
    (cfg : Config) (fs : FormatSpec) (args rest : Args)
    → Takes (star_needs (cfg.precisions && is_star fs.prec_opt)) args rest
    → (fs' : FormatSpec) × (take_prec cfg fs args ≡ some (fs', rest)) × Keeps fs fs'
unfolding take_prec star_needs star_prec
take_prec_defined cfg fs args rest h = elim (Bool-cases cfg.precisions) [
  | inr f ↦ (fs, rw (f, rw f at h) refl, (refl, refl))
  | inl f ↦ elim (Bool-cases (is_star fs.prec_opt)) [
    | inr s ↦ (cap_prec cfg fs, rw (f, s, rw (f, s) at h) refl, cap_prec-Keeps cfg fs)
    | inl s ↦
        let (v, e) = take_int args rest (rw (f, s) at h) in
        (cap_prec cfg (star_prec fs v), rw (f, s, e) refl, cap_prec-Keeps cfg (star_prec fs v))
  ]
]

-- The stages take the arguments of the stars.
pub prepare_stars :
    (cfg : Config) (fs : FormatSpec) (args mid1 mid2 : Args)
    → Takes (star_needs (cfg.field_widths && is_star fs.field_width_opt)) args mid1
    → Takes (star_needs (cfg.precisions && is_star fs.prec_opt)) mid1 mid2
    → (fs' : FormatSpec) × (prepare cfg fs args ≡ some (fs', mid2)) × Keeps fs fs'
unfolding prepare
prepare_stars cfg fs args mid1 mid2 t1 t2 =
    let (fs1, e1, k1, o) = take_width_defined cfg fs args mid1 t1 in
    let (fs2, e2, k2) = take_prec_defined cfg fs1 mid1 mid2 (rw o t2) in
    let fs3 = default_prec cfg fs2 in
    let fs4 = drop_zero_flag cfg fs3 in
    let k : Keeps fs fs4 = Keeps-trans fs fs1 fs4 k1 (
      Keeps-trans fs1 fs2 fs4 k2
        (Keeps-trans fs2 fs3 fs4 (default_prec-Keeps cfg fs2) (drop_zero_flag-Keeps cfg fs3))) in
    (fs4, rw (e1, e2) refl, k)

pub prepare_defined :
    (cfg : Config) (fs : FormatSpec) (args rest : Args)
    → Takes (directive_needs cfg fs) args rest
    → (fs' : FormatSpec) × (mid : Args) × (prepare cfg fs args ≡ some (fs', mid))
      × Takes (conversion_needs cfg fs'.conv_spec fs'.length_modifier) mid rest
unfolding directive_needs
prepare_defined cfg fs args rest h =
    let stars = star_needs (cfg.field_widths && is_star fs.field_width_opt) in
    let (mid1, t1, h1) = Takes-append stars _ args rest h in
    let (mid2, t2, h2) =
      Takes-append (star_needs (cfg.precisions && is_star fs.prec_opt)) _ mid1 rest h1 in
    let (fs4, e, k) = prepare_stars cfg fs args mid1 mid2 t1 t2 in
    (fs4, mid2, e, Keeps-needs cfg fs fs4 mid2 rest k h2)
