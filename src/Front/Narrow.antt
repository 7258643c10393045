-- ===== src/Front/Narrow.antt =====
-- `(float)d` of a double, on bit patterns, rounding to nearest with ties to even.
use nanoprintf.Base.{ℕ, ◌+◌, ◌-◌, ◌*◌, ◌/◌, ◌%◌, ◌^◌, ◌&&◌, ◌||◌, ltb, leb, ◌==◌, if◌then◌else◌}

-- `x` shifted right by `k` places, rounded to the nearest, or to the even one of two.
unfoldable pub round_shift : ℕ → ℕ → ℕ
round_shift x k =
    let q = x / 2 ^ k in
    let r = x % 2 ^ k in
    let half = 2 ^ (k - 1) in if ltb half r || (r == half && q % 2 == 1) then q + 1 else q

unfoldable pub narrow : ℕ → ℕ
narrow d =
    let sign = d / 2 ^ 63 % 2 * 2 ^ 31 in
    let e = d / 2 ^ 52 % 2048 in
    let m = d % 2 ^ 52 in
    let normal = round_shift ((e - 896) * 2 ^ 52 + m) 29 in
    let subnormal = round_shift (2 ^ 52 + m) (926 - e) in
    if e == 2047
    then sign + 255 * 2 ^ 23 + (if m == 0 then 0 else 2 ^ 22 + m / 2 ^ 29 % 2 ^ 22)
    else if leb 897 e
    then sign + (if ltb (255 * 2 ^ 23) normal then 255 * 2 ^ 23 else normal)
    else if e == 0
    then sign
    else sign + subnormal
