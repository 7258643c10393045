-- ===== src/Parse/Number.antt =====
-- `npf_fmt_num` against the decimal value of a run of digits.
use nanoprintf.Base.{
  ℕ, ◌+◌, ◌-◌, ◌*◌, ◌^◌, ◌≤◌, ◌<◌, ◌≡◌, refl, true, false, [], ◌∷◌, ◌++◌, foldl, arith, All,
  Bool-cases, inl, inr,
}
use Prim.Native.Nat.{min}
use nanoprintf.Base.Bytes.{Bytes, peek}
use nanoprintf.Config.{int_max}
use nanoprintf.Parse.{is_digit, fmt_digits, fmt_num, fmt_num_big}

abbrev pub IsDigit : ℕ → Type 0
IsDigit c = (b'0' ≤ c) × (c ≤ b'9')

abbrev pub IsByte : ℕ → Type 0
IsByte c = c < 256

-- The number that digits spell behind `n`, with no bound.
abbrev pub value : ℕ → Bytes → ℕ
value n ds = foldl (λ m c. m * 10 + (c - b'0')) n ds

pub is_digit-true : (c : ℕ) → IsDigit c → is_digit c ≡ true
unfolding is_digit
is_digit-true c h = ground arith

pub is_digit-IsDigit : (c : ℕ) → IsByte c → is_digit c ≡ true → IsDigit c
unfolding is_digit
is_digit-IsDigit c b h = ground arith

-- The int accumulator never overflows: ten times it and a digit more is below INT_MAX wherever
-- the code multiplies.
fmt_digits_bound :
    (n : ℕ) (cs : Bytes) → All IsByte cs → n ≤ int_max → (fmt_digits n cs).0 ≤ int_max
unfolding fmt_digits
fmt_digits_bound n [] b h = h
fmt_digits_bound n (c ∷ cs) (bc, b) h = ground (
  arith,
  is_digit-IsDigit c bc,
  fmt_digits_bound n cs b,
  fmt_digits_bound (n * 10 + (c - b'0')) cs b,
)

-- The number that `npf_fmt_num` stores fits an int, whatever the length of the digit run.
pub fmt_num-le-int_max : (cur : Bytes) → All IsByte cur → (fmt_num cur).0 ≤ int_max
unfolding fmt_num
fmt_num-le-int_max cur b = fmt_digits_bound 0 cur b (omega arith)

value_mono : (ds : Bytes) (m n : ℕ) → m ≤ n → value m ds ≤ value n ds
value_mono [] m n h = h
value_mono (c ∷ ds) m n h = value_mono ds (m * 10 + (c - b'0')) (n * 10 + (c - b'0')) (omega arith)

le-value : (ds : Bytes) (n : ℕ) → n ≤ value n ds
le-value [] n = omega arith
le-value (c ∷ ds) n = omega (arith, le-value ds (n * 10 + (c - b'0')))

fmt_digits-end :
    (n : ℕ) (rest : Bytes) → is_digit (peek rest) ≡ false → fmt_digits n rest ≡ (n, rest)
unfolding fmt_digits
fmt_digits-end n [] h = refl
fmt_digits-end n (c ∷ rest) h = ground arith

-- A big accumulator does not move.
fmt_digits-big :
    (ds : Bytes) (n : ℕ) (rest : Bytes)
    → All IsDigit ds
    → is_digit (peek rest) ≡ false
    → 2 ^ 27 ≤ n
    → fmt_digits n (ds ++ rest) ≡ (n, rest)
unfolding fmt_digits
fmt_digits-big [] n rest d h big = fmt_digits-end n rest h
fmt_digits-big (c ∷ ds) n rest (dc, d) h big =
    ground (arith, is_digit-true c dc, fmt_digits-big ds n rest d h big)

fmt_digits-min :
    (ds : Bytes) (n cap : ℕ) (rest : Bytes)
    → All IsDigit ds
    → is_digit (peek rest) ≡ false
    → cap ≤ 2 ^ 27
    → let (m, cur) = fmt_digits n (ds ++ rest) in (min m cap ≡ min (value n ds) cap) × (cur ≡ rest)
unfolding fmt_digits
fmt_digits-min [] n cap rest d h small = ground (arith, fmt_digits-end n rest h)
fmt_digits-min (c ∷ ds) n cap rest (dc, d) h small = elim (Bool-cases (fmt_num_big n)) [
  | inl big ↦
      ground
        (arith, is_digit-true c dc, fmt_digits-big ds n rest d h, le-value ds (n * 10 + (c - b'0')))
  | inr no_big ↦
      ground (arith, is_digit-true c dc, fmt_digits-min ds (n * 10 + (c - b'0')) cap rest d h small)
]

-- For decimal digits and what follows them: the cursor ends behind the whole run of digits, and under a cap of at most 2^27 the stored number
-- cannot be told from the decimal value of the run, although the accumulator stops growing.
pub fmt_num-min :
    (ds rest : Bytes) (cap : ℕ)
    → All IsDigit ds
    → is_digit (peek rest) ≡ false
    → cap ≤ 2 ^ 27
    → let (m, cur) = fmt_num (ds ++ rest) in (min m cap ≡ min (value 0 ds) cap) × (cur ≡ rest)
unfolding fmt_num
fmt_num-min ds rest cap d h small = fmt_digits-min ds 0 cap rest d h small
