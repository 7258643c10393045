-- ===== src/Float/HexLength.antt =====
-- The text of `npf_atoa_rev` fits the least conversion buffer.
use nanoprintf.Base.{
  ℕ, zero, suc, ◌/◌, ◌%◌, ◌^◌, ◌≤◌, ◌<◌, ◌≡◌, refl, ap, ◌==◌, length, length-append, Bool-cases,
  inl, inr, arith,
}
use nanoprintf.Config.{Config}
use nanoprintf.Spec.{FormatSpec}
use nanoprintf.Utoa.{utoa_rev}
use nanoprintf.Utoa.Numeral.{utoa_rev-numeral}
use nanoprintf.Utoa.Value.{length-numeral}
use nanoprintf.Float.Hex.{nibbles, hex_exponent, atoa_rev}

pub length-nibbles : (case_adj n bin : ℕ) → length (nibbles case_adj n bin).0 ≡ n
unfolding nibbles
length-nibbles case_adj zero bin = refl
length-nibbles case_adj (suc n) bin = ap suc (length-nibbles case_adj n (bin / 2 ^ 4))

hex_exponent-small : (e man : ℕ) → e < 2047 → (hex_exponent e man).1 < 10 ^ 4
unfolding hex_exponent
hex_exponent-small e man h = ground arith

-- An exponent has at most four digits.
length_exponent : (cfg : Config) (ae : ℕ) → ae < 10 ^ 4 → length (utoa_rev cfg ae 10 0) ≤ 4
length_exponent cfg ae h =
    rw (utoa_rev-numeral cfg ae 10 0 (inr (inl refl)) (omega (arith, h)))
      (length-numeral 10 0 64 3 ae (inr (inl refl)) h)

-- For every double, precision and flag the text of 'a' has at most 21 bytes, so it stays within the
-- least conversion buffer that a build accepts.
pub length-atoa_rev : (cfg : Config) (fs : FormatSpec) (f : ℕ) → length (atoa_rev cfg fs f) ≤ 21
unfolding atoa_rev
length-atoa_rev cfg fs f =
    let e = f / 2 ^ 52 % 2048 in
    let man = f % 2 ^ 52 in
    elim (Bool-cases (e == 2047)) [
      | inl t ↦ rw t (omega arith)
      | inr t ↦
          let small : e < 2047 = ground arith in
          let l = length_exponent cfg (hex_exponent e man).1 (hex_exponent-small e man small) in
          rw (t, length-append, length-append, length-append, length-nibbles) (ground (arith, l))
    ]
