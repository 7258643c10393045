-- ===== src/Emit/Binary.antt =====
-- The 'b' conversion: `npf_bin_len` and the loop that writes the bits.
use native.Mathlib.Nat.{pow-suc, div-eq_of_lt, div-eq_of_lt-le}
use nanoprintf.Base.{
  ℕ, zero, suc, ◌+◌, ◌-◌, ◌*◌, ◌/◌, ◌%◌, ◌^◌, ◌≤◌, ◌<◌, ◌≡◌, refl, ap, sym, ◌∙◌, foldl, ◌==◌,
  Bool-cases, inl, inr, arith,
}
use nanoprintf.Base.Bytes.{Bytes, peek}
use nanoprintf.Utoa.LongDivision.{half_pow}
use nanoprintf.Convert.{bit_count, bin_len}
use nanoprintf.Emit.{put_bits}
use nanoprintf.Emit.Layout.{bit_text, put_bits-foldl}

-- The number that binary digits spell behind `n`.
abbrev pub binary_value : ℕ → Bytes → ℕ
binary_value n ds = foldl (λ m c. m * 2 + (c - b'0')) n ds

bit_count-zero : (fuel : ℕ) → bit_count fuel 0 ≡ 0
unfolding bit_count
bit_count-zero zero = refl
bit_count-zero (suc fuel) = refl

-- The loop counts the bits: the value is below the power of the count, and not below half of it.
bit_count_bounds :
    (fuel u : ℕ)
    → u < 2 ^ fuel
    → (u < 2 ^ bit_count fuel u) × (0 < u → 2 ^ bit_count fuel u ≤ 2 * u)
unfolding bit_count
bit_count_bounds zero u h = (h, λ p. omega (arith, h))
bit_count_bounds (suc fuel) u h = elim (Bool-cases (u == 0)) [
  | inl e ↦ let z : u ≡ 0 = ground arith in rw z (omega arith, λ p. omega arith)
  | inr e ↦
      let (lo, hi) = bit_count_bounds fuel (u / 2) (omega (arith, h, pow-suc 2 fuel)) in
      let k = bit_count fuel (u / 2) in
      rw (e, bit_count)
        (
          omega (arith, lo, pow-suc 2 k),
          λ p. elim (Bool-cases (u / 2 == 0)) [
            | inl t ↦ let z : u / 2 ≡ 0 = ground arith in rw (z, bit_count-zero fuel) (omega arith)
            | inr t ↦ let q : 0 < u / 2 = ground arith in omega (arith, hi q, pow-suc 2 k)
          ],
        )
]

binary_value-bit_text : (val n : ℕ) → binary_value (val / 2 ^ n) (bit_text val n) ≡ val
unfolding bit_text
binary_value-bit_text val zero = omega arith
binary_value-bit_text val (suc n) =
    let e : val / 2 ^ suc n * 2 + (b'0' + val / 2 ^ n % 2 - b'0') ≡ val / 2 ^ n =
      omega (arith, half_pow val n) in
    ap (λ m. binary_value m (bit_text val n)) e ∙ binary_value-bit_text val n

bin_len_bounds : (u : ℕ) → u < 2 ^ 64 → (u < 2 ^ bin_len u) × (0 < u → 2 ^ bin_len u ≤ 2 * u)
unfolding bin_len
bin_len_bounds u h = elim (Bool-cases (u == 0)) [
  | inl e ↦ let z : u ≡ 0 = ground arith in rw z (omega arith, λ p. omega arith)
  | inr e ↦ rw e (bit_count_bounds 64 u h)
]

peek-bit_text : (val n : ℕ) → val < 2 ^ n → 2 ^ n ≤ 2 * val → 0 < val → peek (bit_text val n) ≡ b'1'
unfolding bit_text
peek-bit_text val zero h l p = absurd (omega (arith, h))
peek-bit_text val (suc n) h l p =
    let e : val / 2 ^ n ≡ 1 =
      div-eq_of_lt-le {k = 1} (2 ^ n) {m = val} (omega (arith, l, pow-suc 2 n))
        (omega (arith, h, pow-suc 2 n)) in
    omega (arith, e)

-- For a value below 2^64 and any callback, 'b' writes as many digits as `npf_bin_len` counts; read
-- back they give the value, and the first of them is a '1' unless the value is 0.
pub put_bits-bin_len {ℓ} :
    {S : Type ℓ} (pc : S → ℕ → S) (s : S) (val : ℕ)
    → val < 2 ^ 64
    → let ds = bit_text val (bin_len val) in
      (put_bits pc val (bin_len val) s ≡ foldl pc s ds)
      × (binary_value 0 ds ≡ val)
      × (0 < val → peek ds ≡ b'1')
put_bits-bin_len pc s val h =
    let (lo, hi) = bin_len_bounds val h in
    let z : val / 2 ^ bin_len val ≡ 0 = div-eq_of_lt lo in
    (
      put_bits-foldl pc val (bin_len val) s,
      ap (λ m. binary_value m (bit_text val (bin_len val))) (sym z)
          ∙ binary_value-bit_text val (bin_len val),
      λ p. peek-bit_text val (bin_len val) lo (hi p) p,
    )
