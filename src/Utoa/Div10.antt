-- ===== src/Utoa/Div10.antt =====
-- `npf_div10` divides by ten.
use nanoprintf.Base.{ℕ, ◌/◌, ◌^◌, ◌<◌, ◌≡◌, arith}
use nanoprintf.Utoa.{div10}

-- For every uint32_t the shifts, the adds and the one correction give the quotient by ten.
pub div10_lem : (n : ℕ) → n < 2 ^ 32 → div10 n ≡ n / 10
unfolding div10
div10_lem n h = omega arith
