-- ===== src/Float/Naturals.antt =====
-- Floats and doubles that are natural numbers, and the parts that `npf_ftoa_rev` takes of them.
pub mod Text
use native.Mathlib.Nat.{mul-mod_left, mul-div_cancel, mul_assoc, mul_comm, pow-suc, mod-eq_of_lt}
use nanoprintf.Base.{
  ℕ, zero, suc, ◌+◌, ◌-◌, ◌*◌, ◌/◌, ◌%◌, ◌^◌, ◌≤◌, ◌<◌, ◌≡◌, refl, sym, ap, ◌∙◌, Bool, false, not,
  ◌&&◌, ◌||◌, some, ◌>>=◌, ltb, ◌==◌, Bool-cases, inl, inr, arith,
}
use nanoprintf.Base.Bytes.{Bytes}
use nanoprintf.Config.{Config}
use nanoprintf.Spec.{FormatSpec}
use nanoprintf.Float.{man_bits, exp_bias, exp_values, bin_bits, shift_bits}
use nanoprintf.Float.Bounds.{pow-pos}
use nanoprintf.Float.Shift.Direct.{bin_shift_lem}
use nanoprintf.Float.Exact.{frac_start_zero}
use nanoprintf.Float.Fixed.{scale_int, int_part, frac_start, whole_part}

pub pow_add : (a b : ℕ) → 2 ^ a * 2 ^ b ≡ 2 ^ (a + b)
pow_add zero b = let e : 0 + b ≡ b = omega arith in rw e (omega arith)
pow_add (suc a) b =
    let e : suc a + b ≡ suc (a + b) = omega arith in
    let twice : 2 ^ a * 2 * 2 ^ b ≡ 2 ^ a * 2 ^ b * 2 =
      mul_assoc (2 ^ a) 2 (2 ^ b)
      ∙ (ap (λ x. 2 ^ a * x) (mul_comm 2 (2 ^ b)) ∙ sym (mul_assoc (2 ^ a) (2 ^ b) 2)) in
    rw (e, pow-suc 2 a, pow-suc 2 (a + b), twice, pow_add a b) refl

-- A product with a power of two, halved but once.
div_pow : (v k : ℕ) → v * 2 ^ suc k / 2 ^ k ≡ v * 2
div_pow v k =
    let e : v * 2 ^ suc k ≡ v * 2 * 2 ^ k =
      rw (pow-suc 2 k, mul_comm (2 ^ k) 2) (sym (mul_assoc v 2 (2 ^ k))) in
    rw e (mul-div_cancel (v * 2) (pow-pos k))

-- A point is written: there are digits behind it, or the '#' asks for it.
abbrev pub shows_point : Config → FormatSpec → ℕ → Bool
shows_point cfg fs prec = not (prec == 0) || (cfg.alt_forms && not (fs.alt_form == 0))

-- The bit pattern `f` without its sign is that of the natural number `v`: it is 0, or its exponent is
-- at most that of the conversion's type, and its significand has no fraction.
pub data HasValue (cfg : Config) (f : ℕ) : ℕ → Type 0 where
  zero_value :
      f / 2 ^ man_bits cfg % exp_values cfg ≡ 0 → f % 2 ^ man_bits cfg ≡ 0 → HasValue cfg f 0
  whole_value :
      (e v : ℕ)
      → e ≤ shift_bits cfg
      → f / 2 ^ man_bits cfg % exp_values cfg ≡ exp_bias cfg + e
      → f % 2 ^ man_bits cfg + 2 ^ man_bits cfg ≡ v * 2 ^ (man_bits cfg - e)
      → HasValue cfg f v

module _ (cfg : Config) where
  pub fields_fit :
      (man_bits cfg < bin_bits cfg)
      × (shift_bits cfg ≤ man_bits cfg)
      × (man_bits cfg ≤ 52)
      × (exp_bias cfg + man_bits cfg + 1 < exp_values cfg)
      × (1 < exp_bias cfg)
      × (shift_bits cfg ≤ cfg.conversion_float_bits - 1)
  unfolding man_bits bin_bits shift_bits exp_bias exp_values
  fields_fit = ground arith

  -- The significand of a natural number, scaled by its exponent.
  pub whole_part-natural :
      (v e dec : ℕ) (buf : Bytes)
      → e ≤ shift_bits cfg
      → v < 2 ^ cfg.conversion_float_bits
      → v * 2 ^ (man_bits cfg - e) < 2 ^ bin_bits cfg
      → whole_part cfg (v * 2 ^ (man_bits cfg - e)) false e dec buf
        ≡ some (record { man = v; carry = 0; dec = dec; buf = buf })
  unfolding whole_part int_part scale_int
  whole_part-natural v e dec buf h small fits =
      let shift = man_bits cfg - e in
      let bin = v * 2 ^ shift in
      let near : ltb (shift_bits cfg) e ≡ false = ground arith in
      let rounds : e - e ≡ 0 = omega arith in
      let (shr, _) = bin_shift_lem cfg bin (shift - 1) fits in
      let m = mod-eq_of_lt small in
      rw (near, rounds, scale_int, shr)
        (elim (Bool-cases (shift == 0)) [
          | inl t ↦
              let z : shift ≡ 0 = ground arith in
              let b : bin ≡ v = ap (λ k. v * 2 ^ k) z ∙ omega arith in rw (t, b, m) refl
          | inr t ↦
              let p : shift ≡ suc (shift - 1) = ground arith in
              let b : bin / 2 ^ (shift - 1) ≡ v * 2 =
                ap (λ k. v * 2 ^ k / 2 ^ (shift - 1)) p ∙ div_pow v (shift - 1) in
              let half : v * 2 / 2 ≡ v = omega arith in
              let even : v * 2 % 2 ≡ 0 = omega arith in rw (t, b, half, even, m) refl
        ])

  pub frac_start-natural :
      (v e : ℕ)
      → e ≤ shift_bits cfg
      → v * 2 ^ (man_bits cfg - e) < 2 ^ bin_bits cfg
      → frac_start cfg (v * 2 ^ (man_bits cfg - e)) false e ≡ (0, 0)
  frac_start-natural v e h fits =
      let fit = fields_fit in
      let up = bin_bits cfg - man_bits cfg + e in
      let (_, shl) = bin_shift_lem cfg (v * 2 ^ (man_bits cfg - e)) up fits in
      let sum : man_bits cfg - e + up ≡ bin_bits cfg = omega (arith, h, fit.0, fit.1) in
      let whole : v * 2 ^ (man_bits cfg - e) * 2 ^ up ≡ v * 2 ^ bin_bits cfg =
        mul_assoc v (2 ^ (man_bits cfg - e)) (2 ^ up)
        ∙ ap (λ x. v * x) (pow_add (man_bits cfg - e) up ∙ ap (λ k. 2 ^ k) sum) in
      frac_start_zero cfg (v * 2 ^ (man_bits cfg - e)) false e
        (shl ∙ rw whole (mul-mod_left v (2 ^ bin_bits cfg)))
