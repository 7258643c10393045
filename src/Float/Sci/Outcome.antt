-- ===== src/Float/Sci/Outcome.antt =====
-- 'e' as a whole: its text for every finite number, and when it reports an error.
use nanoprintf.Base.{
  take, ℕ, ◌+◌, ◌-◌, ◌/◌, ◌%◌, ◌^◌, ◌≤◌, ◌<◌, ◌≡◌, refl, ap, ◌∙◌, true, false, ◌&&◌, not, some,
  none, ltb, leb, ◌==◌, if◌then◌else◌, leb→le, ◌⊎◌, Bool-cases, inl, inr, arith, length-replicate,
  replicate,
}
use nanoprintf.Base.Bytes.{Bytes}
use nanoprintf.Base.Ints.{negsuc, pos_part, neg_part}
use nanoprintf.Config.{Config}
use nanoprintf.Spec.{ConvSpec, FormatSpec, index}
use nanoprintf.Float.{man_bits, exp_values}
use nanoprintf.Float.Sci.Round.{Digits}
use nanoprintf.Float.Sci.Compose.{compose_sci}
use nanoprintf.Float.Sci.Extent.{length_digits}
use nanoprintf.Float.Sci.{Mode, mode_of, digits_of, exponent_of, unpack, etoa_finite, etoa_rev}
use nanoprintf.Float.Sci.Bounds.{mode_of-IsMode, digits_of-IsRounded, exponent_of_small}
use nanoprintf.Float.Sci.Text.{sci_text, compose_sci-layout}
use nanoprintf.Float.Sci.Fits.{exponent_range}
use native.Mathlib.Nat.{mod-eq_of_lt}
use nanoprintf.Float.{dec_prec, number, Special, ftoa_special}

-- The mode of 'e'.
abbrev pub sci_mode : Config → FormatSpec → Mode
sci_mode cfg fs = record {
  prec = dec_prec cfg fs;
  nsig_max = dec_prec cfg fs + 1;
  fmode = false;
  g = false;
  strip = not (cfg.alt_forms && not (fs.alt_form == 0));
  dstop = negsuc (2 ^ 31 - 1);
}

mode_of-sci :
    (cfg : Config) (fs : FormatSpec)
    → cfg.float_sci ≡ true
    → fs.conv_spec ≡ ConvSpec.float_sci
    → mode_of cfg fs ≡ (
        if ltb (cfg.conversion_buffer_size - 2) (dec_prec cfg fs)
        then none
        else if ltb (cfg.conversion_buffer_size - 7) (dec_prec cfg fs + 1)
        then none
        else some (sci_mode cfg fs))
unfolding mode_of index
mode_of-sci cfg fs a b =
    let fmode : (index fs.conv_spec == 11) ≡ false = rw b refl in
    let other : (index fs.conv_spec == 14) ≡ false = rw b refl in
    let g : (cfg.float_shortest
          && (if cfg.float_sci then index fs.conv_spec == 14 else not (index fs.conv_spec == 11)))
        ≡ false =
      ground arith in
    rw (g, fmode) refl

-- The outcome of 'e': the text of the digits that generation and rounding leave, at least one and at
-- most one more than the precision, or the text of the error.
abbrev pub SciOutcome : Config → FormatSpec → ℕ → Type 0
SciOutcome cfg fs f =
    let size = cfg.conversion_buffer_size in
    let prec = dec_prec cfg fs in
    let (bin, neg, e) = unpack cfg (f / 2 ^ man_bits cfg % exp_values cfg) (f % 2 ^ man_bits cfg) in
    ((prec + 8 ≤ size)
      × (s : Digits) × (digits_of cfg (sci_mode cfg fs) bin neg e (replicate size 0) ≡ some s)
      × (s.end < size)
      × (size ≤ s.end + (prec + 1))
      × (etoa_rev cfg fs f ≡ number (sci_text cfg fs prec (exponent_of cfg s) s)))
    ⊎ ((size < prec + 8) × (etoa_rev cfg fs f ≡ ftoa_special fs.case_adjust Special.err))

etoa_rev_number :
    (cfg : Config) (fs : FormatSpec) (f : ℕ) (m : Mode) (r : ℕ × Bytes)
    → f / 2 ^ man_bits cfg % exp_values cfg + 1 < exp_values cfg
    → mode_of cfg fs ≡ some m
    → etoa_finite cfg fs m (f / 2 ^ man_bits cfg % exp_values cfg) (f % 2 ^ man_bits cfg) ≡ some r
    → etoa_rev cfg fs f ≡ number (take r.0 r.1)
unfolding etoa_rev
etoa_rev_number cfg fs f m r fin md e =
    let normal : ((f / 2 ^ man_bits cfg % exp_values cfg + 1) % exp_values cfg == 0) ≡ false =
      rw (mod-eq_of_lt fin) (ground arith) in
    rw (normal, md, e) refl

etoa_finite_sci :
    (cfg : Config) (fs : FormatSpec) (e0 man : ℕ) (s : Digits)
    → (let (bin, neg, e) = unpack cfg e0 man in
        digits_of cfg (sci_mode cfg fs) bin neg e (replicate cfg.conversion_buffer_size 0) ≡ some s)
    → etoa_finite cfg fs (sci_mode cfg fs) e0 man
      ≡ some (compose_sci cfg fs (dec_prec cfg fs) (exponent_of cfg s) s)
unfolding etoa_finite
etoa_finite_sci cfg fs e0 man s q = rw q refl

module _ (cfg : Config) (big : 23 ≤ cfg.conversion_buffer_size)
    (wide : 8 ≤ cfg.conversion_float_bits) (narrow : cfg.conversion_float_bits ≤ 64) where
  -- With a conversion buffer of at least 23 bytes and a conversion type of 8 to 64 bits, for 'e' and
  -- every finite number: either the precision leaves room for eight more bytes, and generation and
  -- rounding end in at least one digit and at most one more than the precision, of which the result
  -- is the text "d.<digits and zeros>e+xx"; or it leaves no such room, and the result is the text of
  -- the error.
  pub etoa_rev-sci :
      (fs : FormatSpec) (f : ℕ)
      → cfg.float_sci ≡ true
      → fs.conv_spec ≡ ConvSpec.float_sci
      → f / 2 ^ man_bits cfg % exp_values cfg + 1 < exp_values cfg
      → SciOutcome cfg fs f
  unfolding etoa_rev
  etoa_rev-sci fs f a b fin =
      let size = cfg.conversion_buffer_size in
      let prec = dec_prec cfg fs in
      let e0 = f / 2 ^ man_bits cfg % exp_values cfg in
      let man = f % 2 ^ man_bits cfg in
      let (bin, neg, e) = unpack cfg e0 man in
      let normal : ((e0 + 1) % exp_values cfg == 0) ≡ false =
        rw (mod-eq_of_lt fin) (ground arith) in
      let md = mode_of-sci cfg fs a b in
      elim (Bool-cases (leb (prec + 8) size)) [
        | inl y ↦
            let h : prec + 8 ≤ size = leb→le _ size y in
            let t1 : ltb (size - 2) prec ≡ false = ground arith in
            let t2 : ltb (size - 7) (prec + 1) ≡ false = ground arith in
            let md' : mode_of cfg fs ≡ some (sci_mode cfg fs) = md ∙ rw (t1, t2) refl in
            let i = mode_of-IsMode cfg big wide narrow fs (sci_mode cfg fs) md' in
            let (s, q, r) =
              digits_of-IsRounded cfg big wide narrow (sci_mode cfg fs) bin neg e (replicate size 0)
                i (exponent_range cfg big wide narrow e0 man fin)
                (length-replicate {A = ℕ} size 0) in
            let (few, lt) = r.wanted in
            let x = exponent_of cfg s in
            let r0 = compose_sci cfg fs prec x s in
            let three =
              length_digits cfg fs (pos_part x + neg_part x)
                (exponent_of_small cfg big wide narrow false prec (prec + 1) s r) in
            let l = compose_sci-layout cfg fs prec x s three r.held lt few h in
            inl (
              h,
              s,
              q,
              lt,
              few,
              etoa_rev_number cfg fs f _ r0 fin md' (etoa_finite_sci cfg fs e0 man s q)
                  ∙ ap number l,
            )
        | inr n ↦
            let h : size < prec + 8 = ground arith in
            let md' : mode_of cfg fs ≡ none = md ∙ ground arith in inr (h, rw (normal, md') refl)
      ]
