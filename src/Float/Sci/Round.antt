-- ===== src/Float/Sci/Round.antt =====
-- The rounding of `npf_etoa_rev`: digits past those asked for are dropped, ties go to even, and a
-- carry runs up. `nsig` is the buffer's size minus `end` all along, so it is no field of its own.
use nanoprintf.Base.{
  ℕ, zero, suc, ◌+◌, ◌-◌, ◌%◌, Bool, true, false, ◌&&◌, ltb, leb, ◌==◌, if◌then◌else◌, set, get_or,
}
use nanoprintf.Base.Bytes.{Bytes}
use nanoprintf.Base.Ints.{ℤ, pos, pos_part, ◌+ℤ◌, ◌-ℤ◌}
use nanoprintf.Config.{Config}
use nanoprintf.Float.Sci.Tail.{Generated}

-- No digits generated: one '0' at exponent 0.
unfoldable pub or_zero : Config → Generated → Generated
or_zero cfg d =
    if cfg.conversion_buffer_size - d.end == 0
    then record d { end = d.end - 1; dec = pos 0; carry = 0; buf = set d.buf (d.end - 1) b'0' }
    else d

-- The loop that looks for a digit other than '0' below the first dropped one.
unfoldable pub all_zero : ℕ → ℕ → Bytes → Bool
all_zero zero i buf = true
all_zero (suc n) i buf =
    let rest = all_zero n (i + 1) buf in if get_or buf i 0 == b'0' then rest else false

-- How many digits go.
unfoldable pub excess : Config → Bool → ℕ → ℕ → Generated → ℕ
excess cfg fmode prec nsig_max d =
    if fmode
    then pos_part (pos 0 -ℤ pos prec -ℤ d.dec)
    else cfg.conversion_buffer_size - d.end - nsig_max

-- `n` digits are dropped; where `n` is 0 nothing is. The carry is that of rounding to nearest.
unfoldable pub drop_digits : ℕ → Generated → Generated
drop_digits zero d = d
drop_digits (suc n) d =
    let end = d.end + suc n in
    let first = get_or d.buf (end - 1) 0 in
    let tie = first == b'5' && d.tail && all_zero n d.end d.buf in
    record d {
      end = end;
      dec = d.dec +ℤ pos (suc n);
      carry = if tie then get_or d.buf end 0 % 2 else if leb b'5' first then 1 else 0;
    }

-- The loop that rounds up, from index `i` with `left` bytes to the end of the buffer.
unfoldable pub carry_up : ℕ → ℕ → ℤ → Bytes → ℤ × Bytes
carry_up zero i dec buf = (dec +ℤ pos 1, set buf (i - 1) b'1')
carry_up (suc left) i dec buf =
    let c = get_or buf i 0 in
    let rest = carry_up left (i + 1) dec (set buf i b'0') in
    if c == b'9' then rest else (dec, set buf i (c + 1))

-- The significant digits: they stand from `end` to the top of the buffer, lowest first.
pub record Digits : Type 0 where
  pub end : ℕ
  pub dec : ℤ
  pub buf : Bytes

unfoldable pub rounded : Config → Bool → ℕ → ℕ → Generated → Digits
rounded cfg fmode prec nsig_max d =
    let d1 = or_zero cfg d in
    let d2 = drop_digits (excess cfg fmode prec nsig_max d1) d1 in
    let up = carry_up (cfg.conversion_buffer_size - d2.end) d2.end d2.dec d2.buf in
    record {
      end = d2.end;
      dec = if d2.carry == 0 then d2.dec else up.0;
      buf = if d2.carry == 0 then d2.buf else up.1;
    }

-- The loop of 'g' that drops trailing zeros but the last digit; `nsig` counts the digits.
unfoldable pub strip_zeros : ℕ → Digits → Digits
strip_zeros zero s = s
strip_zeros (suc nsig) s =
    let rest = strip_zeros nsig (record s { end = s.end + 1; dec = s.dec +ℤ pos 1 }) in
    if ltb 1 (suc nsig) && get_or s.buf s.end 0 == b'0' then rest else s
