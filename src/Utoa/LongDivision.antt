-- ===== src/Utoa/LongDivision.antt =====
-- The shift-and-subtract loop of `npf_utoa_rev_end` divides.
use native.Mathlib.Nat.{pow-suc, div-div-eq-div-mul, div-eq_of_lt, mul-add-div_right}
use nanoprintf.Base.{
  ℕ, zero, suc, ◌+◌, ◌-◌, ◌*◌, ◌/◌, ◌%◌, ◌^◌, ◌≤◌, ◌<◌, ◌≡◌, refl, Bool-cases, inl, inr, arith, leb,
  sym, ◌∙◌, leb→le,
}
use nanoprintf.Utoa.{divide_bits}

pub half_pow : (val i : ℕ) → val / 2 ^ suc i ≡ val / 2 ^ i / 2
half_pow val i = rw (pow-suc, ← div-div-eq-div-mul val (2 ^ i) 2) refl

quotient_of :
    (base val k r : ℕ) → val ≡ k * base + r → r < base → (val / base ≡ k) × (val % base ≡ r)
quotient_of base val k r e h =
    grind (arith, mul-add-div_right {m = base} (omega arith) k r, div-eq_of_lt h)

odd_part : (k x : ℕ) → k * (x * 2) + x ≡ (2 * k + 1) * x
odd_part k x = grind arith

even_part : (k x : ℕ) → k * (x * 2) ≡ 2 * k * x
even_part k x = grind arith

-- One round on the bits seen so far.
round_lem :
    (base v k r : ℕ)
    → base ≤ 2 ^ 62
    → v / 2 ≡ k * base + r
    → r < base
    → let r' = r * 2 % 2 ^ 64 + v % 2 in
      (base ≤ r' → (v ≡ (2 * k + 1) * base + (r' - base)) × (r' - base < base))
      × (r' < base → v ≡ 2 * k * base + r')
round_lem base v k r small e h = (λ t. grind arith, λ t. grind arith)

-- Before bit `i` is shifted in, `q` holds `k` at bit `i` and the bits of `val` seen so far are
-- `k * base + r`.
divide_bits_inv :
    (i base val k q r : ℕ)
    → base ≤ 2 ^ 62
    → q ≡ k * 2 ^ i
    → val / 2 ^ i ≡ k * base + r
    → r < base
    → divide_bits base val i q r ≡ (val / base, val % base)
unfolding divide_bits
divide_bits_inv zero base val k q r small p e h = grind (arith, quotient_of base val k r)
divide_bits_inv (suc i) base val k q r small p e h =
    let r' = r * 2 % 2 ^ 64 + val / 2 ^ i % 2 in
    let (up, down) = round_lem base (val / 2 ^ i) k r small (sym (half_pow val i) ∙ e) h in
    elim (Bool-cases (leb base r')) [
      | inl t ↦
          let (v, l) = up (leb→le base r' t) in
          rw t (
            divide_bits_inv i base val (2 * k + 1) (q + 2 ^ i) (r' - base) small
              (rw (p, pow-suc) (odd_part k (2 ^ i))) v l)
      | inr t ↦
          let l : r' < base = ground arith in
          rw t (
            divide_bits_inv i base val (2 * k) q r' small (rw (p, pow-suc) (even_part k (2 ^ i)))
              (down l) l)
    ]

-- For a divisor from 1 to 2^62 and a value below 2^64, the 64 rounds compute the quotient and the remainder of the value.
pub divide_bits_lem :
    (base val : ℕ)
    → 0 < base
    → base ≤ 2 ^ 62
    → val < 2 ^ 64
    → divide_bits base val 64 0 0 ≡ (val / base, val % base)
divide_bits_lem base val pos small h =
    divide_bits_inv 64 base val 0 0 0 small (omega arith) (omega arith) pos
