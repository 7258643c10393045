-- ===== src/Utoa/Numeral.antt =====
-- `npf_utoa_rev_end` against positional notation: every configuration writes the same digits, and
-- reading them back gives the value.
use native.Mathlib.Nat.{pow-suc}
use nanoprintf.Base.{
  ℕ, zero, suc, ◌*◌, ◌/◌, ◌%◌, ◌^◌, ◌≤◌, ◌<◌, ◌≡◌, ◌≢◌, refl, ◌⊎◌, true, false, [], ◌∷◌, ◌++◌,
  Bool-cases, inl, inr, ap, ◌∙◌, ltb→lt, arith, ltb, ◌==◌, if◌then◌else◌,
}
use nanoprintf.Base.Bytes.{Bytes}
use nanoprintf.Base.Bits.{bit_and_seven, bit_and_fifteen}
use nanoprintf.Config.{Config}
use nanoprintf.Utoa.{digit_char, wide_digits, digit_step, narrow_digits, utoa_rev}
use nanoprintf.Utoa.Div10.{div10_lem}
use nanoprintf.Utoa.LongDivision.{divide_bits_lem}

-- The bases of the conversions.
abbrev pub IsBase : ℕ → Type 0
IsBase base = (base ≡ 8) ⊎ (base ≡ 10) ⊎ (base ≡ 16)

-- The digits of a number by repeated division, lowest first.
unfoldable pub numeral : ℕ → ℕ → ℕ → ℕ → Bytes
numeral base case_adj zero v = []
numeral base case_adj (suc f) v =
    digit_char case_adj (v % base)
    ∷ (let rest = numeral base case_adj f (v / base) in if v / base == 0 then [] else rest)

digit_step_divide :
    (cfg : Config) (base v : ℕ)
    → cfg.division_free ≡ false
    → digit_step cfg base v ≡ (v % base, v / base)
unfolding digit_step
digit_step_divide cfg base v e = rw e

digit_step_free :
    (cfg : Config) (base v : ℕ)
    → IsBase base
    → cfg.division_free ≡ true
    → v < 2 ^ 32
    → digit_step cfg base v ≡ (v % base, v / base)
unfolding digit_step
digit_step_free cfg base v (inl b) e h = rw (e, b) (ground (arith, bit_and_seven v))
digit_step_free cfg base v (inr (inl b)) e h = rw (e, b) (ground (arith, div10_lem (v % 2 ^ 32)))
digit_step_free cfg base v (inr (inr b)) e h = rw (e, b) (ground (arith, bit_and_fifteen v))

-- A value that the loop takes: without division the arithmetic is that of uint32_t.
abbrev Fits : Config → ℕ → Type 0
Fits cfg v = (cfg.division_free ≡ false) ⊎ (v < 2 ^ 32)

-- With and without division a round of the loop gives the remainder and the quotient.
digit_step_lem :
    (cfg : Config) (base v : ℕ)
    → IsBase base
    → Fits cfg v
    → digit_step cfg base v ≡ (v % base, v / base)
digit_step_lem cfg base v b (inl e) = digit_step_divide cfg base v e
digit_step_lem cfg base v b (inr h) = elim (Bool-cases cfg.division_free) [
  | inl e ↦ digit_step_free cfg base v b e h
  | inr e ↦ digit_step_divide cfg base v e
]

pub quotient-half : (base v : ℕ) → IsBase base → v / base ≤ v / 2
quotient-half base v (inl b) = rw b (omega arith)
quotient-half base v (inr (inl b)) = rw b (omega arith)
quotient-half base v (inr (inr b)) = rw b (omega arith)

Fits-quotient : (cfg : Config) (base v : ℕ) → IsBase base → Fits cfg v → Fits cfg (v / base)
Fits-quotient cfg base v b (inl e) = inl e
Fits-quotient cfg base v b (inr h) = inr (omega (arith, quotient-half base v b))

narrow_digits-numeral :
    (cfg : Config) (base case_adj f v : ℕ)
    → IsBase base
    → Fits cfg v
    → narrow_digits cfg base case_adj f v ≡ numeral base case_adj f v
unfolding narrow_digits numeral
narrow_digits-numeral cfg base case_adj zero v b h = refl
narrow_digits-numeral cfg base case_adj (suc f) v b h =
    let ih =
      narrow_digits-numeral cfg base case_adj f (v / base) b (Fits-quotient cfg base v b h) in
    rw (digit_step_lem cfg base v b h, narrow_digits, ih)
      (elim (Bool-cases (v / base == 0)) [ inl e ↦ rw e refl | inr e ↦ rw e refl ])

pub numeral_stop :
    (base case_adj f v : ℕ)
    → v / base ≡ 0
    → numeral base case_adj (suc f) v ≡ digit_char case_adj (v % base) ∷ []
unfolding numeral
numeral_stop base case_adj f v e = rw e

pub numeral_go :
    (base case_adj f v : ℕ)
    → v / base ≢ 0
    → numeral base case_adj (suc f) v
      ≡ digit_char case_adj (v % base) ∷ numeral base case_adj f (v / base)
unfolding numeral
numeral_go base case_adj f v n = ground arith

pub quotient-pow : (base v f : ℕ) → IsBase base → v < 2 ^ suc f → v / base < 2 ^ f
quotient-pow base v f b h = omega (arith, quotient-half base v b, pow-suc 2 f)

pub zero-pow : (base v : ℕ) → IsBase base → v < 2 ^ 1 → v / base ≡ 0
zero-pow base v b h = omega (arith, quotient-half base v b)

-- Enough fuel is enough.
pub numeral_fuel :
    (base case_adj f g v : ℕ)
    → IsBase base
    → v < 2 ^ suc f
    → v < 2 ^ suc g
    → numeral base case_adj (suc f) v ≡ numeral base case_adj (suc g) v
numeral_fuel base case_adj zero g v b h k =
    let e = zero-pow base v b h in
    rw (numeral_stop base case_adj zero v e, numeral_stop base case_adj g v e)
numeral_fuel base case_adj (suc f) zero v b h k =
    let e = zero-pow base v b k in
    rw (numeral_stop base case_adj zero v e, numeral_stop base case_adj (suc f) v e)
numeral_fuel base case_adj (suc f) (suc g) v b h k = ground (
  arith,
  numeral_stop base case_adj (suc f) v,
  numeral_stop base case_adj (suc g) v,
  numeral_go base case_adj (suc f) v,
  numeral_go base case_adj (suc g) v,
  numeral_fuel base case_adj f g (v / base) b (quotient-pow base v (suc f) b h)
      (quotient-pow base v (suc g) b k),
)

pub base_pos : (base : ℕ) → IsBase base → 0 < base
base_pos base b = omega arith

base_small : (base : ℕ) → IsBase base → base ≤ 2 ^ 62
base_small base b = omega arith

base_wide : (base v : ℕ) → IsBase base → 0xffff_ffff < v → v / base ≢ 0
base_wide base v (inl b) h = rw b (omega arith)
base_wide base v (inr (inl b)) h = rw b (omega arith)
base_wide base v (inr (inr b)) h = rw b (omega arith)

wide_go :
    (base case_adj v : ℕ)
    → IsBase base
    → v < 2 ^ 64
    → v / base ≢ 0
    → numeral base case_adj 64 v
      ≡ digit_char case_adj (v % base) ∷ numeral base case_adj 64 (v / base)
wide_go base case_adj v b h n =
    numeral_go base case_adj 63 v n
    ∙ ap (λ ds. digit_char case_adj (v % base) ∷ ds)
        (numeral_fuel base case_adj 62 63 (v / base) b (quotient-pow base v 63 b h)
          (omega (arith, quotient-half base v b)))

-- The loop over wide values writes the first digits, and leaves a value of 32 bits.
wide_digits-numeral :
    (base case_adj m val : ℕ)
    → IsBase base
    → val < 2 ^ 32 * 2 ^ m
    → val < 2 ^ 64
    → let (ds, v) = wide_digits base case_adj m val in
      (numeral base case_adj 64 val ≡ ds ++ numeral base case_adj 64 v) × (v < 2 ^ 32)
unfolding wide_digits
wide_digits-numeral base case_adj zero val b h k = (refl, omega arith)
wide_digits-numeral base case_adj (suc m) val b h k =
    let half = quotient-half base val b in
    elim (Bool-cases (ltb 0xffff_ffff val)) [
      | inl t ↦
          let (ih, small) =
            wide_digits-numeral base case_adj m (val / base) b (omega (arith, half, pow-suc 2 m))
              (omega (arith, half)) in
          rw (divide_bits_lem base val (base_pos base b) (base_small base b) k, t)
            (
              wide_go base case_adj val b k (base_wide base val b (ltb→lt 0xffff_ffff val t))
                  ∙ ap (λ ds. digit_char case_adj (val % base) ∷ ds) ih,
              small,
            )
      | inr t ↦ rw t (refl, ground arith)
    ]

-- For a base of 8, 10 or 16 and a value below 2^64, in every configuration the conversion writes the digits of the value, lowest first: the bitwise
-- division, the conversion without division and the plain one cannot be told apart.
pub utoa_rev-numeral :
    (cfg : Config) (val base case_adj : ℕ)
    → IsBase base
    → val < 2 ^ 64
    → utoa_rev cfg val base case_adj ≡ numeral base case_adj 64 val
unfolding utoa_rev
utoa_rev-numeral cfg val base case_adj b h =
    let (e, small) = wide_digits-numeral base case_adj 64 val b (omega arith) h in
    let v = (wide_digits base case_adj 64 val).1 in
    ground (
      arith,
      e,
      small,
      narrow_digits-numeral cfg base case_adj 64 (v % 2 ^ 32) b (inr (omega arith)),
      narrow_digits-numeral cfg base case_adj 64 val b,
    )
