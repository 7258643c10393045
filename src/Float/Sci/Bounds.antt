-- ===== src/Float/Sci/Bounds.antt =====
-- The modes of `npf_etoa_rev`: generation and rounding succeed, and the exponent has three digits.
use mathlib.Core.Path.{subst}
use nanoprintf.Base.{
  ℕ, ◌+◌, ◌-◌, ◌^◌, ◌≤◌, ◌<◌, ◌≡◌, refl, Bool, true, false, ◌&&◌, not, some, ltb, ◌==◌,
  if◌then◌else◌, Bool-cases, inl, inr, arith, length, eq_of_some,
}
use nanoprintf.Base.Bytes.{Bytes}
use nanoprintf.Base.Ints.{
  ℤ, pos, negsuc, pos_part, neg_part, ◌+ℤ◌, ◌-ℤ◌, ◌≤ℤ◌, +ℤ_parts, -ℤ_parts, pos_part_le,
  neg_part_le, parts_le,
}
use nanoprintf.Config.{Config}
use nanoprintf.Spec.{ConvSpec, FormatSpec, index}
use nanoprintf.Float.Bounds.{none-ne}
use nanoprintf.Float.Sci.Round.{Digits}
use nanoprintf.Float.Sci.Reach.{generate_defined}
use nanoprintf.Float.Sci.Settle.{IsRounded, Stopped, rounded-IsRounded}
use nanoprintf.Float.Sci.{Mode, fixed_mode, mode_of, digits_of, exponent_of}

-- A mode as `npf_etoa_rev` sets it: the digits wanted fit the buffer with what goes around them.
pub record IsMode (cfg : Config) (m : Mode) : Type 0 where
  pub much : 0 < m.nsig_max
  pub low : m.dstop ≤ℤ pos 0
  pub stop : m.fmode ≡ true → m.dstop ≡ negsuc m.prec
  pub room : m.fmode ≡ false → m.nsig_max + 7 ≤ cfg.conversion_buffer_size
  pub kept : m.g ≡ false → m.fmode ≡ false → m.prec + 8 ≤ cfg.conversion_buffer_size
  pub g_prec : m.g ≡ true → m.prec ≡ m.nsig_max
  pub g_fmode : m.g ≡ true → m.fmode ≡ false

module _ (cfg : Config) (big : 23 ≤ cfg.conversion_buffer_size)
    (wide : 8 ≤ cfg.conversion_float_bits) (narrow : cfg.conversion_float_bits ≤ 64) where
  pub fixed_mode-IsMode : (prec : ℕ) (strip : Bool) → IsMode cfg (fixed_mode cfg prec strip)
  unfolding fixed_mode
  fixed_mode-IsMode prec strip = record {
    much = omega (arith, big);
    low = omega arith;
    stop = λ h. refl;
    room = λ h. cc;
    kept = λ g h. cc;
    g_prec = λ h. cc;
    g_fmode = λ h. cc;
  }

  pub mode_of-IsMode : (fs : FormatSpec) (m : Mode) → mode_of cfg fs ≡ some m → IsMode cfg m
  unfolding mode_of
  mode_of-IsMode fs m h =
      let size = cfg.conversion_buffer_size in
      let prec = if cfg.precisions then fs.prec else 6 in
      let fmode = index fs.conv_spec == index ConvSpec.float_dec in
      let g =
        cfg.float_shortest
        && (if cfg.float_sci then index fs.conv_spec == index ConvSpec.float_shortest else true) in
      let strip = not (cfg.alt_forms && not (fs.alt_form == 0)) in
      let gprec = if prec == 0 then 1 else prec in
      let nsig_max = if g then gprec else prec + 1 in
      elim (Bool-cases (ltb (size - 2) prec)) [
        | inl a ↦ absurd (none-ne (rw a at h))
        | inr a ↦ elim (Bool-cases fmode) [
          | inl b ↦ subst (IsMode cfg) (eq_of_some (rw (a, b) at h)) (fixed_mode-IsMode prec strip)
          | inr b ↦ elim (Bool-cases (ltb (size - 7) nsig_max)) [
            | inl c ↦ absurd (none-ne (rw (a, b, c) at h))
            | inr c ↦ subst (IsMode cfg) (eq_of_some (rw (a, b, c) at h)) (record {
              much = ground arith;
              low = omega arith;
              stop = λ k. cc;
              room = λ k. ground arith;
              kept = λ k k'. ground arith;
              g_prec = λ k. ground arith;
              g_fmode = λ k. refl;
            })
          ]
        ]
      ]

  Stopped-at :
      (fmode : Bool) (prec : ℕ) (dstop dec : ℤ)
      → (fmode ≡ true → dstop ≡ negsuc prec)
      → dstop ≤ℤ dec
      → Stopped cfg fmode prec dec
  Stopped-at true prec dstop dec h k = subst (λ x. x ≤ℤ dec) (h refl) k
  Stopped-at false prec dstop dec h k = tt

  pub digits_of-IsRounded :
      (m : Mode) (bin : ℕ) (neg : Bool) (e : ℕ) (buf : Bytes)
      → IsMode cfg m
      → e ≤ 1023
      → length buf ≡ cfg.conversion_buffer_size
      → (s : Digits) × (digits_of cfg m bin neg e buf ≡ some s)
        × IsRounded cfg m.fmode m.prec m.nsig_max s
  unfolding digits_of
  digits_of-IsRounded m bin neg e buf i h l =
      let (d, q, near, above) =
        generate_defined cfg wide narrow m.fmode m.nsig_max m.dstop bin neg e buf big h i.low l in
      let stopped = Stopped-at m.fmode m.prec m.dstop d.dec i.stop above in
      rw q (_, refl, rounded-IsRounded cfg m.fmode m.prec m.nsig_max d big i.much near stopped)

  -- An exponent that rounding leaves has at most three digits.
  pub exponent_of_small :
      (fmode : Bool) (prec nsig_max : ℕ) (s : Digits)
      → IsRounded cfg fmode prec nsig_max s
      → pos_part (exponent_of cfg s) + neg_part (exponent_of cfg s) < 10 ^ 3
  unfolding exponent_of
  exponent_of_small fmode prec nsig_max s i =
      let size = cfg.conversion_buffer_size in
      let x = s.dec +ℤ pos (size - s.end) -ℤ pos 1 in
      let p = pos_part_le x 601 (
        omega (
          arith,
          i.high,
          +ℤ_parts s.dec (pos (size - s.end)),
          -ℤ_parts (s.dec +ℤ pos (size - s.end)) (pos 1),
        )) in
      let n = neg_part_le x 601 (
        omega (
          arith,
          i.low,
          +ℤ_parts s.dec (pos (size - s.end)),
          -ℤ_parts (s.dec +ℤ pos (size - s.end)) (pos 1),
        )) in
      let b : pos_part x + neg_part x ≤ 601 = parts_le x 601 p n in omega (arith, b)
