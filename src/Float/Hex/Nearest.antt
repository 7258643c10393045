-- ===== src/Float/Hex/Nearest.antt =====
-- The rounding of `npf_atoa_rev`, and the nibbles that it prints.
use native.Mathlib.Nat.{pow-suc, div-div-eq-div-mul, mul_comm, div-lt_iff_lt-mul}
use nanoprintf.Base.{
  ℕ, zero, suc, ◌+◌, ◌*◌, ◌/◌, ◌%◌, ◌^◌, ◌<◌, ◌≡◌, sym, ap, ◌∙◌, [], ◌∷◌, ◌++◌, arith,
}
use nanoprintf.Utoa.Value.{read_rev, digit_value, digit_value-digit_char}
use nanoprintf.Float.Hex.{nibbles, drop_nibbles}

-- The multiple of `n` nearest to `a`, the greater of two, divided by `n`.
unfoldable pub nearest : ℕ → ℕ → ℕ
nearest a n = (a + n / 2) / n

power_pos : (k : ℕ) → 0 < 16 ^ k
power_pos zero = omega arith
power_pos (suc k) = rw (pow-suc 16 k) (omega (arith, power_pos k))

nearest_nibble : (a m : ℕ) → nearest (a / 2 ^ 4) (m * 16) ≡ nearest a (m * 16 * 16)
unfolding nearest
nearest_nibble a m =
    let e : a / 2 ^ 4 + m * 16 / 2 ≡ (a + m * 16 * 16 / 2) / 16 = omega arith in
    rw e (
      div-div-eq-div-mul (a + m * 16 * 16 / 2) 16 (m * 16)
      ∙ ap (λ x. (a + m * 16 * 16 / 2) / x) (mul_comm 16 (m * 16)))

drop_nibbles-suc :
    (k bin carry : ℕ)
    → (drop_nibbles (suc k) bin carry).0 + (drop_nibbles (suc k) bin carry).1
      ≡ nearest bin (16 ^ suc k)
unfolding drop_nibbles nearest
drop_nibbles-suc zero bin carry = omega arith
drop_nibbles-suc (suc k) bin carry =
    let ih = drop_nibbles-suc k (bin / 2 ^ 4) (bin / 2 ^ 3 % 2) in
    ih ∙ rw (pow-suc 16 (suc k), pow-suc 16 k) (nearest_nibble bin (16 ^ k))

-- Dropping nibbles and adding the carry rounds to the nearest.
pub drop_nibbles_lem :
    (k bin : ℕ) → (drop_nibbles k bin 0).0 + (drop_nibbles k bin 0).1 ≡ nearest bin (16 ^ k)
drop_nibbles_lem zero bin = unfold drop_nibbles nearest in omega arith
drop_nibbles_lem (suc k) bin = drop_nibbles-suc k bin 0

nibbles_rest : (case_adj n bin : ℕ) → (nibbles case_adj n bin).1 ≡ bin / 16 ^ n
unfolding nibbles
nibbles_rest case_adj zero bin = omega arith
nibbles_rest case_adj (suc n) bin =
    nibbles_rest case_adj n (bin / 2 ^ 4)
    ∙ (div-div-eq-div-mul bin 16 (16 ^ n)
        ∙ ap (λ x. bin / x) (mul_comm 16 (16 ^ n) ∙ sym (pow-suc 16 n)))

power_plus : (n k : ℕ) → 16 ^ n * 16 ^ k ≡ 16 ^ (n + k)
power_plus zero k = let e : 0 + k ≡ k = omega arith in rw e (omega arith)
power_plus (suc n) k =
    let e : suc n + k ≡ suc (n + k) = omega arith in
    rw (e, pow-suc 16 n, pow-suc 16 (n + k)) (grind (arith, power_plus n k))

power_split : (n k : ℕ) → n + k ≡ 13 → 16 ^ n * 16 ^ k ≡ 2 ^ 52
power_split n k s = power_plus n k ∙ ap (λ x. 16 ^ x) s

nearest_below : (n k bin : ℕ) → n + k ≡ 13 → bin < 2 ^ 53 → nearest bin (16 ^ k) < 3 * 16 ^ n
unfolding nearest
nearest_below n k bin s h =
    (div-lt_iff_lt-mul (power_pos k)).1 (grind (arith, power_split n k s, power_pos n, power_pos k))

-- A rounded significand has a leading digit of at most 2.
pub nibbles_lead :
    (case_adj n k bin : ℕ)
    → n + k ≡ 13
    → bin < 2 ^ 53
    → (nibbles case_adj n (nearest bin (16 ^ k))).1 < 3
nibbles_lead case_adj n k bin s h =
    rw (nibbles_rest case_adj n (nearest bin (16 ^ k)))
      ((div-lt_iff_lt-mul (power_pos n)).1 (nearest_below n k bin s h))

-- Reading the digits that are printed, the leading one among them, gives the number back.
pub read_rev-nibbles :
    (case_adj n bin : ℕ)
    → (nibbles case_adj n bin).1 < 10
    → read_rev 16 case_adj ((nibbles case_adj n bin).0 ++ (b'0' + (nibbles case_adj n bin).1) ∷ [])
      ≡ bin
unfolding nibbles read_rev
read_rev-nibbles case_adj zero bin h = unfold digit_value in ground arith
read_rev-nibbles case_adj (suc n) bin h =
    let ih = read_rev-nibbles case_adj n (bin / 2 ^ 4) h in
    rw (digit_value-digit_char case_adj (bin % 16), ih) (omega arith)
