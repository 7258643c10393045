-- ===== src/Float/Hex.antt =====
-- `npf_atoa_rev`: hexadecimal floating point, always of binary64.
pub mod Reader
pub mod Nearest
pub mod RoundTrip
use Prim.Native.Nat.{min}
use nanoprintf.Base.{
  ℕ, zero, suc, ◌+◌, ◌-◌, ◌*◌, ◌/◌, ◌%◌, ◌^◌, Bool, ◌&&◌, ◌||◌, not, true, false, [], ◌∷◌, ◌++◌,
  ltb, ◌==◌, if◌then◌else◌,
}
use nanoprintf.Base.Bytes.{Bytes}
use nanoprintf.Config.{Config}
use nanoprintf.Spec.{FormatSpec}
use nanoprintf.Utoa.{utoa_rev, digit_char}

-- The low nibbles past the precision are dropped; the carry is the highest dropped bit.
unfoldable pub drop_nibbles : ℕ → ℕ → ℕ → ℕ × ℕ
drop_nibbles zero bin carry = (bin, carry)
drop_nibbles (suc i) bin carry = drop_nibbles i (bin / 2 ^ 4) (bin / 2 ^ 3 % 2)

-- The nibbles behind the point, lowest first, and what is left of the mantissa.
unfoldable pub nibbles : ℕ → ℕ → ℕ → Bytes × ℕ
nibbles case_adj zero bin = ([], bin)
nibbles case_adj (suc i) bin =
    let (ds, rest) = nibbles case_adj i (bin / 2 ^ 4) in (digit_char case_adj (bin % 16) ∷ ds, rest)

-- The binary exponent of a finite number: whether it is negative, and its magnitude. Zero has 0.
unfoldable pub hex_exponent : ℕ → ℕ → Bool × ℕ
hex_exponent e man =
    if e == 0
    then if man == 0 then (false, 0) else (true, 1022)
    else if ltb e 1023
    then (true, 1023 - e)
    else (false, e - 1023)

-- The text, reversed. It is empty for an infinity or a NaN, which the caller prints another way.
unfoldable pub atoa_rev : Config → FormatSpec → ℕ → Bytes
atoa_rev cfg fs f =
    let e = f / 2 ^ 52 % 2048 in
    let man = f % 2 ^ 52 in
    let bin = if e == 0 then man else man + 2 ^ 52 in
    let (neg, ae) = hex_exponent e man in
    let prec = if cfg.precisions then min fs.prec 13 else 13 in
    let (kept, carry) = drop_nibbles (13 - prec) bin 0 in
    let (ds, lead) = nibbles fs.case_adjust prec (kept + carry) in
    let point =
      if not (prec == 0) || (cfg.alt_forms && not (fs.alt_form == 0)) then b'.' ∷ [] else [] in
    if e == 2047
    then []
    else utoa_rev cfg ae 10 0
      ++ ((if neg then b'-' else b'+')
          ∷ (b'P' + fs.case_adjust)
          ∷ (ds ++ (point ++ (b'0' + lead % 16) ∷ [])))

-- A subnormal significand is doubled until its highest bit is set; `e` falls with it.
unfoldable pub normalise : ℕ → ℕ → ℕ → ℕ × ℕ
normalise zero e m = (e, m)
normalise (suc fuel) e m =
    let rest = normalise fuel (e - 1) (m * 2) in if ltb m (2 ^ 23) then rest else (e, m)

-- `(double)val` of a float, on bit patterns.
unfoldable pub widen : ℕ → ℕ
widen f =
    let sign = f / 2 ^ 31 * 2 ^ 63 in
    let e = f / 2 ^ 23 % 256 in
    let m = f % 2 ^ 23 in
    let (e', m') = normalise 23 897 m in
    if e == 255
    then sign + 2047 * 2 ^ 52 + m * 2 ^ 29
    else if not (e == 0)
    then sign + (e + 896) * 2 ^ 52 + m * 2 ^ 29
    else if m == 0
    then sign
    else sign + e' * 2 ^ 52 + (m' - 2 ^ 23) * 2 ^ 29
