-- ===== src/Float/Fresh.antt =====
-- The float conversions do not read what the parser has not stored.
use Prim.Native.Nat.{min}
use nanoprintf.Base.{
  ℕ, ◌/◌, ◌%◌, ◌^◌, ◌≡◌, refl, not, ◌&&◌, ◌==◌, ◌>>=◌, if◌then◌else◌, Option-cases, inl, inr, arith,
}
use mathlib.Core.Path.{fun_ext}
use nanoprintf.Base.Bytes.{Bytes}
use nanoprintf.Base.Ints.{ℤ}
use nanoprintf.Config.{Config}
use nanoprintf.Spec.{FormatSpec}
use nanoprintf.Directive.Fresh.{Ready}
use nanoprintf.Float.{man_bits, exp_values, dec_prec}
use nanoprintf.Float.Hex.{atoa_rev}
use nanoprintf.Float.Fixed.{ftoa_finite, ftoa_rev}
use nanoprintf.Float.Sci.{mode_of, shortest, etoa_finite, etoa_rev, Mode}
use nanoprintf.Float.Sci.Round.{Digits}
use nanoprintf.Float.Sci.Compose.{has_point, compose_fixed, put_exponent, compose_sci}

module _ (cfg : Config) (a b : FormatSpec) (h : Ready cfg a b) where
  dec_prec-Ready : dec_prec cfg a ≡ dec_prec cfg b
  unfolding dec_prec
  dec_prec-Ready = ground arith

  alt-Ready : (cfg.alt_forms && not (a.alt_form == 0)) ≡ (cfg.alt_forms && not (b.alt_form == 0))
  alt-Ready = ground arith

  hex_prec-Ready :
      (if cfg.precisions then min a.prec 13 else 13)
      ≡ (if cfg.precisions then min b.prec 13 else 13)
  hex_prec-Ready = ground arith

  pub atoa_rev-Ready : (f : ℕ) → atoa_rev cfg a f ≡ atoa_rev cfg b f
  unfolding atoa_rev
  atoa_rev-Ready f = rw (hex_prec-Ready, alt-Ready, h.adjust) refl

  ftoa_finite-Ready :
      (prec e0 man : ℕ) → ftoa_finite cfg a prec e0 man ≡ ftoa_finite cfg b prec e0 man
  unfolding ftoa_finite
  ftoa_finite-Ready prec e0 man = rw alt-Ready refl

  pub ftoa_rev-Ready :
      (f : ℕ) → ftoa_rev cfg a (dec_prec cfg a) f ≡ ftoa_rev cfg b (dec_prec cfg b) f
  unfolding ftoa_rev
  ftoa_rev-Ready f =
      let prec = dec_prec cfg b in
      let e0 = f / 2 ^ man_bits cfg % exp_values cfg in
      let man = f % 2 ^ man_bits cfg in
      rw (dec_prec-Ready, ftoa_finite-Ready prec e0 man)
        (elim (Option-cases (ftoa_finite cfg b prec e0 man)) [
          | inl e ↦ rw (e, ftoa_rev) (rw h.adjust refl)
          | inr (r, e) ↦ rw (e, ftoa_rev) (rw h.adjust refl)
        ])

  has_point-Ready : (prec : ℕ) → has_point cfg a prec ≡ has_point cfg b prec
  unfolding has_point
  has_point-Ready prec = rw alt-Ready refl

  compose_fixed-Ready :
      (prec : ℕ) (s : Digits) → compose_fixed cfg a prec s ≡ compose_fixed cfg b prec s
  unfolding compose_fixed
  compose_fixed-Ready prec s = rw has_point-Ready refl

  mode_of-Ready : mode_of cfg a ≡ mode_of cfg b
  unfolding mode_of
  mode_of-Ready = rw (dec_prec-Ready, h.conv, alt-Ready) refl

  put_exponent-Ready : (x : ℤ) (buf : Bytes) → put_exponent cfg a x buf ≡ put_exponent cfg b x buf
  unfolding put_exponent
  put_exponent-Ready x buf = rw h.adjust refl

  compose_sci-Ready :
      (pe : ℕ) (x : ℤ) (s : Digits) → compose_sci cfg a pe x s ≡ compose_sci cfg b pe x s
  unfolding compose_sci
  compose_sci-Ready pe x s = rw (put_exponent-Ready, has_point-Ready) refl

  fixed_path : compose_fixed cfg a ≡ compose_fixed cfg b
  fixed_path = fun_ext (λ prec. fun_ext (λ s. compose_fixed-Ready prec s))

  sci_path : compose_sci cfg a ≡ compose_sci cfg b
  sci_path = fun_ext (λ pe. fun_ext (λ x. fun_ext (λ s. compose_sci-Ready pe x s)))

  shortest-Ready : shortest cfg a ≡ shortest cfg b
  unfolding shortest
  shortest-Ready = fun_ext (λ m.
      fun_ext
        (λ bin. fun_ext (λ neg. fun_ext (λ e. fun_ext (λ s. rw (fixed_path, sci_path) refl)))))

  etoa_finite-Ready :
      (m : Mode) (e0 man : ℕ) → etoa_finite cfg a m e0 man ≡ etoa_finite cfg b m e0 man
  unfolding etoa_finite
  etoa_finite-Ready m e0 man = rw (shortest-Ready, fixed_path, sci_path) refl

  finite_path : etoa_finite cfg a ≡ etoa_finite cfg b
  finite_path = fun_ext (λ m. fun_ext (λ e0. fun_ext (λ man. etoa_finite-Ready m e0 man)))

  pub etoa_rev-Ready : (f : ℕ) → etoa_rev cfg a f ≡ etoa_rev cfg b f
  unfolding etoa_rev
  etoa_rev-Ready f =
      let e0 = f / 2 ^ man_bits cfg % exp_values cfg in
      let man = f % 2 ^ man_bits cfg in
      rw (mode_of-Ready, finite_path)
        (elim (Option-cases (mode_of cfg b >>= λ m. etoa_finite cfg b m e0 man)) [
          | inl e ↦ rw (e, etoa_rev) (rw h.adjust refl)
          | inr (r, e) ↦ rw (e, etoa_rev) (rw h.adjust refl)
        ])
