-- ===== src/Base/Bits.antt =====
-- `&` with a mask of low ones is the remainder by a power of two.
use Prim.Native.Nat.{ℕ, zero, suc, ◌/◌, ◌%◌, ◌≤◌, min, bit_and, digits, bit_and-bitwise}
use mathlib.Core.Path.{◌≡◌, refl, ◌∙◌}
use native.Mathlib.Omega.{arith}

-- `bit_and a b` over the digits of `a`, of which there are at most `n`.
abbrev and_below : ℕ → ℕ → ℕ → ℕ
and_below n a b = digits (λ b. zero) min n a b

ones_0 : (n a : ℕ) → a ≤ n → and_below n a 0 ≡ 0
ones_0 zero a h = refl
ones_0 (suc n) zero h = refl
ones_0 (suc n) (suc a) h = omega (arith, ones_0 n (suc a / 2) (omega arith))

ones_1 : (n a : ℕ) → a ≤ n → and_below n a 1 ≡ a % 2
ones_1 zero a h = omega arith
ones_1 (suc n) zero h = refl
ones_1 (suc n) (suc a) h = omega (arith, ones_0 n (suc a / 2) (omega arith))

ones_3 : (n a : ℕ) → a ≤ n → and_below n a 3 ≡ a % 4
ones_3 zero a h = omega arith
ones_3 (suc n) zero h = refl
ones_3 (suc n) (suc a) h = omega (arith, ones_1 n (suc a / 2) (omega arith))

ones_7 : (n a : ℕ) → a ≤ n → and_below n a 7 ≡ a % 8
ones_7 zero a h = omega arith
ones_7 (suc n) zero h = refl
ones_7 (suc n) (suc a) h = omega (arith, ones_3 n (suc a / 2) (omega arith))

ones_15 : (n a : ℕ) → a ≤ n → and_below n a 15 ≡ a % 16
ones_15 zero a h = omega arith
ones_15 (suc n) zero h = refl
ones_15 (suc n) (suc a) h = omega (arith, ones_7 n (suc a / 2) (omega arith))

pub bit_and_seven : (a : ℕ) → bit_and a 7 ≡ a % 8
bit_and_seven a = bit_and-bitwise a 7 ∙ ones_7 a a (omega arith)

pub bit_and_fifteen : (a : ℕ) → bit_and a 15 ≡ a % 16
bit_and_fifteen a = bit_and-bitwise a 15 ∙ ones_15 a a (omega arith)
