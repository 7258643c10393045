-- ===== src/Utoa/Value.antt =====
-- What the digits that `npf_utoa_rev_end` writes stand for, and how many there are.
use native.Mathlib.Nat.{pow-zero, pow-suc, div-add-mod, div-lt_iff_lt-mul}
use nanoprintf.Base.{
  ℕ, zero, suc, ◌+◌, ◌-◌, ◌*◌, ◌/◌, ◌%◌, ◌^◌, ◌≤◌, ◌<◌, ◌≡◌, ◌≢◌, refl, [], ◌∷◌, inl, inr, arith,
  leb, ◌==◌, if◌then◌else◌, length,
}
use native.Mathlib.Decide.{ℕ_discrete}
use nanoprintf.Base.Bytes.{Bytes}
use nanoprintf.Config.{Config}
use nanoprintf.Utoa.{digit_char, utoa_rev}
use nanoprintf.Utoa.Numeral.{
  IsBase, numeral, numeral_stop, numeral_go, utoa_rev-numeral, quotient-pow, zero-pow, base_pos,
}

-- The digit that a character stands for.
unfoldable pub digit_value : ℕ → ℕ → ℕ
digit_value case_adj c = if leb c b'9' then c - b'0' else c - (b'A' - 10 + case_adj)

-- The number that digits stand for, lowest first.
unfoldable pub read_rev : ℕ → ℕ → Bytes → ℕ
read_rev base case_adj [] = 0
read_rev base case_adj (c ∷ cs) = digit_value case_adj c + base * read_rev base case_adj cs

-- The highest digit.
unfoldable pub top : Bytes → ℕ
top [] = 0
top (c ∷ []) = c
top (c ∷ d ∷ ds) = top (d ∷ ds)

pub digit_value-digit_char : (case_adj d : ℕ) → digit_value case_adj (digit_char case_adj d) ≡ d
unfolding digit_value digit_char
digit_value-digit_char case_adj d = ground arith

digit_char-zero : (case_adj d : ℕ) → digit_char case_adj d ≡ b'0' → d ≡ 0
unfolding digit_char
digit_char-zero case_adj d h = ground arith

none_above : (base v : ℕ) → v / base ≡ 0 → v % base ≡ v
none_above base v e = grind (arith, div-add-mod v base)

read_rev-numeral :
    (base case_adj f v : ℕ)
    → IsBase base
    → v < 2 ^ suc f
    → read_rev base case_adj (numeral base case_adj (suc f) v) ≡ v
unfolding read_rev
read_rev-numeral base case_adj zero v b h =
    let e = zero-pow base v b h in
    rw (numeral_stop base case_adj zero v e, digit_value-digit_char case_adj (v % base))
      (omega (arith, none_above base v e))
read_rev-numeral base case_adj (suc f) v b h = elim (ℕ_discrete (v / base) 0) [
  | yes e ↦
      rw (numeral_stop base case_adj (suc f) v e, digit_value-digit_char case_adj (v % base))
        (omega (arith, none_above base v e))
  | no n ↦
      let ih = read_rev-numeral base case_adj f (v / base) b (quotient-pow base v (suc f) b h) in
      rw (numeral_go base case_adj (suc f) v n, digit_value-digit_char case_adj (v % base), ih)
        (omega (arith, div-add-mod v base))
]

quotient_room : (base v k : ℕ) → IsBase base → v < base ^ suc k → v / base < base ^ k
quotient_room base v k b h = (div-lt_iff_lt-mul (base_pos base b)).1 (rw (← pow-suc base k) h)

pub length-numeral :
    (base case_adj f k v : ℕ)
    → IsBase base
    → v < base ^ suc k
    → length (numeral base case_adj f v) ≤ suc k
length-numeral base case_adj zero k v b h = unfold numeral in omega arith
length-numeral base case_adj (suc f) zero v b h =
    rw (numeral_stop base case_adj f v (omega (arith, quotient_room base v 0 b h, pow-zero base)))
      (omega arith)
length-numeral base case_adj (suc f) (suc k) v b h = elim (ℕ_discrete (v / base) 0) [
  | yes e ↦ rw (numeral_stop base case_adj f v e) (omega arith)
  | no n ↦ rw (numeral_go base case_adj f v n) (
      omega
        (arith, length-numeral base case_adj f k (v / base) b (quotient_room base v (suc k) b h)))
]

top-cons : (c : ℕ) (ds : Bytes) → ds ≢ [] → top (c ∷ ds) ≡ top ds
unfolding top
top-cons c [] h = absurd (h refl)
top-cons c (d ∷ ds) h = refl

numeral-ne-nil : (base case_adj f v : ℕ) → numeral base case_adj (suc f) v ≢ []
unfolding numeral
numeral-ne-nil base case_adj f v h = cc

top_stop :
    (base case_adj f v : ℕ) → v / base ≡ 0 → 0 < v → top (numeral base case_adj (suc f) v) ≢ b'0'
top_stop base case_adj f v e pos =
    rw (numeral_stop base case_adj f v e)
      (unfold top in λ z. omega (arith, none_above base v e, digit_char-zero case_adj (v % base) z))

top-numeral :
    (base case_adj f v : ℕ)
    → IsBase base
    → v < 2 ^ suc f
    → 0 < v
    → top (numeral base case_adj (suc f) v) ≢ b'0'
top-numeral base case_adj zero v b h pos = top_stop base case_adj zero v (zero-pow base v b h) pos
top-numeral base case_adj (suc f) v b h pos = elim (ℕ_discrete (v / base) 0) [
  | yes e ↦ top_stop base case_adj (suc f) v e pos
  | no n ↦
      rw
        (
          numeral_go base case_adj (suc f) v n,
          top-cons _ _ (numeral-ne-nil base case_adj f (v / base)),
        )
        (top-numeral base case_adj f (v / base) b (quotient-pow base v (suc f) b h) (omega arith))
]

-- For a base of 8, 10 or 16 and a value below 2^64, reading the digits back gives the value, and the highest digit is no zero unless the value is.
pub read_rev-utoa_rev :
    (cfg : Config) (val base case_adj : ℕ)
    → IsBase base
    → val < 2 ^ 64
    → (read_rev base case_adj (utoa_rev cfg val base case_adj) ≡ val)
      × (0 < val → top (utoa_rev cfg val base case_adj) ≢ b'0')
read_rev-utoa_rev cfg val base case_adj b h =
    rw (utoa_rev-numeral cfg val base case_adj b h)
      (read_rev-numeral base case_adj 63 val b h, top-numeral base case_adj 63 val b h)

-- The most digits that a 64-bit value has in a base.
unfoldable pub most_digits : ℕ → ℕ
most_digits base = if base == 8 then 22 else if base == 10 then 20 else 16

-- No value below 2^64 has more than 22 digits in octal, 20 in decimal and 16 in hexadecimal.
pub length-utoa_rev :
    (cfg : Config) (val base case_adj : ℕ)
    → IsBase base
    → val < 2 ^ 64
    → length (utoa_rev cfg val base case_adj) ≤ most_digits base
unfolding most_digits
length-utoa_rev cfg val base case_adj b h =
    rw (utoa_rev-numeral cfg val base case_adj b h) (by_base b)
  where
    by_base : IsBase base → length (numeral base case_adj 64 val) ≤ most_digits base
    by_base (inl e) = rw e (length-numeral 8 case_adj 64 21 val (inl refl) (omega arith))
    by_base (inr (inl e)) =
        rw e (length-numeral 10 case_adj 64 19 val (inr (inl refl)) (omega arith))
    by_base (inr (inr e)) =
        rw e (length-numeral 16 case_adj 64 15 val (inr (inr refl)) (omega arith))
