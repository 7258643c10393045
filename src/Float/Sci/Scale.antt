-- ===== src/Float/Sci/Scale.antt =====
-- How far the integer scaling of `npf_etoa_rev` moves the decimal exponent.
use native.Mathlib.Nat.{mod-lt, pow-suc, pow-le-pow_right, div-eq_of_lt}
use nanoprintf.Base.{
  ℕ, zero, suc, ◌+◌, ◌-◌, ◌*◌, ◌/◌, ◌%◌, ◌^◌, ◌≤◌, ◌<◌, ◌≡◌, refl, ap, Bool, true, false, ◌&&◌, leb,
  ltb, ◌==◌, if◌then◌else◌, Bool-cases, inl, inr, arith,
}
use nanoprintf.Config.{Config}
use nanoprintf.Utoa.Div10.{div10_lem}
use nanoprintf.Float.Shift.{bin_shr}
use nanoprintf.Float.{man_bits, shift_bits}
use nanoprintf.Float.Bounds.{pow-pos}
use nanoprintf.Float.Fixed.{fifth}
use nanoprintf.Float.Sci.Whole.{Whole, whole_step, scale_whole, whole_sci}

module _ (cfg : Config) (wide : 8 ≤ cfg.conversion_float_bits) where
  twice : 2 ^ cfg.conversion_float_bits ≡ 2 * 2 ^ (cfg.conversion_float_bits - 1)
  twice =
      let e : cfg.conversion_float_bits ≡ suc (cfg.conversion_float_bits - 1) =
        omega (arith, wide) in
      omega (arith, ap (λ n. 2 ^ n) e, pow-suc 2 (cfg.conversion_float_bits - 1))

  low_quotient :
      (man : ℕ)
      → man < 2 ^ (cfg.conversion_float_bits - 1)
      → (man / 2 ^ (cfg.conversion_float_bits - 1) == 0) ≡ true
  low_quotient man h = rw (div-eq_of_lt h) refl

  -- A fifth of a mantissa leaves its highest bit clear.
  fifth_low :
      (man carry : ℕ)
      → man < 2 ^ cfg.conversion_float_bits
      → (fifth cfg man carry).0 < 2 ^ (cfg.conversion_float_bits - 1)
  unfolding fifth
  fifth_low man carry h =
      let low : man / 5 < 2 ^ (cfg.conversion_float_bits - 1) =
        omega (arith, h, twice, pow-pos (cfg.conversion_float_bits - 1)) in
      elim (Bool-cases (cfg.division_free && leb cfg.conversion_float_bits 32)) [
        | inl t ↦
            let narrow : cfg.conversion_float_bits ≤ 32 = ground arith in
            let small : man < 2 ^ 32 = omega (
              arith,
              h,
              pow-le-pow_right {n = 2} (omega arith) {i = cfg.conversion_float_bits} {j = 32}
                  narrow,
            ) in
            rw (t, div10_lem man small) (ground (arith, low, twice))
        | inr t ↦ rw t low
      ]

  -- The scaling counts at most one zero for two rounds.
  scale_whole_dec :
      (k : ℕ) (s : Whole)
      → s.man < 2 ^ cfg.conversion_float_bits
      → (2 * (scale_whole cfg k s).dec ≤ 2 * s.dec + k + 1)
        × (s.man < 2 ^ (cfg.conversion_float_bits - 1)
            → 2 * (scale_whole cfg k s).dec ≤ 2 * s.dec + k)
  unfolding scale_whole whole_step
  scale_whole_dec zero s h = (omega arith, λ l. omega arith)
  scale_whole_dec (suc k) s h =
      elim (Bool-cases (s.man / 2 ^ (cfg.conversion_float_bits - 1) == 0)) [
        | inl t ↦
            let next : Whole = record {
              man = (s.man * 2 + s.carry) % 2 ^ cfg.conversion_float_bits;
              carry = 0;
              dec = s.dec;
            } in
            let (a, b) =
              scale_whole_dec k next
                (mod-lt (s.man * 2 + s.carry) (pow-pos cfg.conversion_float_bits)) in
            (rw (scale_whole, t) (omega (arith, a)), λ l. rw (scale_whole, t) (omega (arith, a)))
        | inr t ↦
            let next : Whole = record {
              man = (fifth cfg s.man s.carry).0;
              carry = (fifth cfg s.man s.carry).1;
              dec = s.dec + 1;
            } in
            let low = fifth_low s.man s.carry h in
            let (a, b) = scale_whole_dec k next (omega (arith, low, twice)) in
            (
              rw (scale_whole, t) (omega (arith, b low)),
              λ l. absurd (ground (arith, low_quotient _ l, t)),
            )
      ]

  scale_whole_man :
      (k : ℕ) (s : Whole)
      → s.man < 2 ^ cfg.conversion_float_bits
      → (scale_whole cfg k s).man < 2 ^ cfg.conversion_float_bits
  unfolding scale_whole whole_step
  scale_whole_man zero s h = h
  scale_whole_man (suc k) s h = scale_whole_man k (whole_step cfg s) (
      ground (
        arith,
        mod-lt (s.man * 2 + s.carry) (pow-pos cfg.conversion_float_bits),
        fifth_low s.man s.carry h,
        twice,
      ))

  -- The integer part fits its type, and at most 512 zeros are counted.
  pub whole_sci_bounds :
      (bin : ℕ) (neg : Bool) (e : ℕ)
      → e ≤ 1023
      → ((whole_sci cfg bin neg e).man < 2 ^ cfg.conversion_float_bits)
        × ((whole_sci cfg bin neg e).dec ≤ 512)
  unfolding whole_sci
  whole_sci_bounds bin true e h = (pow-pos cfg.conversion_float_bits, omega arith)
  whole_sci_bounds bin false e h =
      let mb = cfg.conversion_float_bits in
      let shift_i = if ltb (shift_bits cfg) e then shift_bits cfg else e in
      let shift = man_bits cfg - shift_i in
      let bin_i = bin_shr cfg bin (shift - 1) in
      let start : Whole = record {
        man = if shift == 0 then bin % 2 ^ mb else bin_i / 2 % 2 ^ mb;
        carry = if shift == 0 then 0 else bin_i % 2;
        dec = 0;
      } in
      let fits : start.man < 2 ^ mb =
        ground (arith, mod-lt bin (pow-pos mb), mod-lt (bin_i / 2) (pow-pos mb)) in
      (
        scale_whole_man (e - shift_i) start fits,
        omega (arith, (scale_whole_dec (e - shift_i) start fits).0),
      )
