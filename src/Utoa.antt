-- ===== src/Utoa.antt =====
-- Integer conversion: `npf_div10` and `npf_utoa_rev_end` of nanoprintf.h. The bytes written from
-- `buf` on are a list, so the pointer returned is `buf` plus its length (`npf_utoa_rev`). Both loops
-- take fuel: a number below 2^64 has at most 64 digits in any base.
mod Tests
pub mod Div10
pub mod LongDivision
pub mod Numeral
pub mod Value
use Prim.Native.Nat.{bit_and}
use nanoprintf.Base.{
  ℕ, zero, suc, ◌+◌, ◌-◌, ◌*◌, ◌/◌, ◌%◌, ◌^◌, ◌||◌, [], ◌∷◌, ◌++◌, ltb, leb, ◌==◌, if◌then◌else◌,
}
use nanoprintf.Base.Bytes.{Bytes}
use nanoprintf.Config.{Config}

-- `npf_div10`, over uint32_t.
unfoldable pub div10 : ℕ → ℕ
div10 n =
    let q0 = (n / 2 ^ 1 + n / 2 ^ 2) % 2 ^ 32 in
    let q1 = (q0 + q0 / 2 ^ 4) % 2 ^ 32 in
    let q2 = (q1 + q1 / 2 ^ 8) % 2 ^ 32 in
    let q3 = (q2 + q2 / 2 ^ 16) % 2 ^ 32 in
    let q = q3 / 2 ^ 3 in (q + (n + 2 ^ 32 - q * 10 % 2 ^ 32 + 6) % 2 ^ 32 / 2 ^ 4) % 2 ^ 32

-- `(char)(((d < 10) ? '0' : ('A' - 10 + case_adj)) + d)`
unfoldable pub digit_char : ℕ → ℕ → ℕ
digit_char case_adj d = (if ltb d 10 then b'0' else b'A' - 10 + case_adj) + d

-- The rounds of the bitwise division that are left, over npf_uint_t: quotient and remainder. The
-- low bit of `r << 1` is clear and bit i of `q` is not yet set, so the `|` of the source add.
unfoldable pub divide_bits : ℕ → ℕ → ℕ → ℕ → ℕ → ℕ × ℕ
divide_bits base val zero q r = (q, r)
divide_bits base val (suc i) q r =
    let r' = r * 2 % 2 ^ 64 + val / 2 ^ i % 2 in
    divide_bits base val i (if leb base r' then q + 2 ^ i else q)
      (if leb base r' then r' - base else r')

-- The loop over a value that needs more than 32 bits: the digits written, and the value left.
unfoldable pub wide_digits : ℕ → ℕ → ℕ → ℕ → Bytes × ℕ
wide_digits base case_adj zero val = ([], val)
wide_digits base case_adj (suc fuel) val =
    let (q, r) = divide_bits base val 64 0 0 in
    let rest = wide_digits base case_adj fuel q in
    if ltb 0xffff_ffff val then (digit_char case_adj r ∷ rest.0, rest.1) else ([], val)

-- One round of the last loop: the digit and the value left.
unfoldable pub digit_step : Config → ℕ → ℕ → ℕ × ℕ
digit_step cfg base v =
    if cfg.division_free
    then if base == 10
      then (let q = div10 (v % 2 ^ 32) in ((v % 2 ^ 32 + 2 ^ 32 - q * 10 % 2 ^ 32) % 2 ^ 32, q))
      else (bit_and v (base - 1), v / 2 ^ ((base + 16) / 2 ^ 3))
    else (v % base, v / base)

-- The `do … while (v32)` loop.
unfoldable pub narrow_digits : Config → ℕ → ℕ → ℕ → ℕ → Bytes
narrow_digits cfg base case_adj zero v = []
narrow_digits cfg base case_adj (suc fuel) v =
    let (d, v') = digit_step cfg base v in
    let rest = narrow_digits cfg base case_adj fuel v' in
    if v' == 0 then digit_char case_adj d ∷ [] else digit_char case_adj d ∷ rest

-- `npf_utoa_rev_end`: the digits from the lowest on.
unfoldable pub utoa_rev : Config → ℕ → ℕ → ℕ → Bytes
utoa_rev cfg val base case_adj =
    if cfg.large || cfg.division_free
    then (let (ds, v) = wide_digits base case_adj 64 val in
        ds ++ narrow_digits cfg base case_adj 64 (v % 2 ^ 32))
    else narrow_digits cfg base case_adj 64 val
