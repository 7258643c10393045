-- ===== src/Float/Sci/Whole.antt =====
-- The integer part of `npf_etoa_rev`: its mantissa is scaled from base 2 to base 10, each trailing
-- zero counted in `dec`, and its digits are right-aligned in the buffer.
use nanoprintf.Base.{
  ℕ, zero, suc, ◌+◌, ◌-◌, ◌*◌, ◌/◌, ◌%◌, ◌^◌, Bool, ◌&&◌, not, Option, some, ltb, leb, ◌==◌,
  if◌then◌else◌, ◌>>=◌, set, get_or, length,
}
use nanoprintf.Base.Bytes.{Bytes}
use nanoprintf.Config.{Config}
use nanoprintf.Utoa.{utoa_rev}
use nanoprintf.Float.Shift.{bin_shr}
use nanoprintf.Float.{man_bits, shift_bits}
use nanoprintf.Float.Fixed.{fifth, write, emit_int}

-- `man_i`, `carry` and `dec`, which is not negative here.
pub record Whole : Type 0 where
  pub man : ℕ
  pub carry : ℕ
  pub dec : ℕ

-- One round of the scaling: the low bit of `man_i << 1` is clear, so the `|` of the source adds.
unfoldable pub whole_step : Config → Whole → Whole
whole_step cfg s =
    let mb = cfg.conversion_float_bits in
    let (man', carry') = fifth cfg s.man s.carry in
    if s.man / 2 ^ (mb - 1) == 0
    then record { man = (s.man * 2 + s.carry) % 2 ^ mb; carry = 0; dec = s.dec }
    else record { man = man'; carry = carry'; dec = s.dec + 1 }

-- The loop, `exp_i` rounds.
unfoldable pub scale_whole : Config → ℕ → Whole → Whole
scale_whole cfg zero s = s
scale_whole cfg (suc exp_i) s = scale_whole cfg exp_i (whole_step cfg s)

-- The scaled integer part; `neg` says that the exponent is negative, else it is `e`.
unfoldable pub whole_sci : Config → ℕ → Bool → ℕ → Whole
whole_sci cfg bin neg e =
    let mb = cfg.conversion_float_bits in
    let shift_i = if ltb (shift_bits cfg) e then shift_bits cfg else e in
    let shift = man_bits cfg - shift_i in
    let bin_i = bin_shr cfg bin (shift - 1) in
    let start : Whole = record {
      man = if shift == 0 then bin % 2 ^ mb else bin_i / 2 % 2 ^ mb;
      carry = if shift == 0 then 0 else bin_i % 2;
      dec = 0;
    } in
    if neg then record { man = 0; carry = 0; dec = 0 } else scale_whole cfg (e - shift_i) start

-- The move of the digits to the top of the buffer, from the highest down: `gap` places up, `left`
-- digits to go.
unfoldable pub move_up : ℕ → ℕ → Bytes → Bytes
move_up gap zero buf = buf
move_up gap (suc left) buf = move_up gap left (set buf (gap + left) (get_or buf left 0))

-- The digits, printed from the start of the buffer on: their number, and the buffer.
unfoldable pub print_whole : Config → ℕ → Bytes → Option (ℕ × Bytes)
print_whole cfg man buf =
    let ds = utoa_rev cfg man 10 0 in
    if leb cfg.conversion_float_bits 32
    then some (length ds, write buf 0 ds)
    else emit_int cfg 20 man 0 buf

-- The digits at the top of the buffer and the index of the lowest, `end`. An integer part of 0 has
-- none but in an 'f' conversion.
unfoldable pub top_digits : Config → Bool → ℕ → Bytes → Option (ℕ × Bytes)
top_digits cfg fmode man buf =
    let size = cfg.conversion_buffer_size in
    if man == 0 && not fmode
    then some (size, buf)
    else print_whole cfg man buf >>= λ r. some (size - r.0, move_up (size - r.0) r.0 r.1)
