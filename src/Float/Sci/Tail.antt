-- ===== src/Float/Sci/Tail.antt =====
-- The fraction part of `npf_etoa_rev`: its digits go below those of the integer part, `dec` is the
-- exponent of the lowest, and leading zeros are only counted unless a digit precedes them.
use nanoprintf.Base.{
  ℕ, zero, suc, ◌+◌, ◌-◌, ◌*◌, ◌/◌, ◌%◌, ◌^◌, Bool, ◌&&◌, ◌||◌, not, Option, some, ltb, leb, ◌==◌,
  if◌then◌else◌, ◌>>=◌, set,
}
use nanoprintf.Base.Bytes.{Bytes}
use nanoprintf.Base.Ints.{ℤ, pos, ◌-ℤ◌, leb_ℤ}
use nanoprintf.Config.{Config}
use nanoprintf.Float.{man_bits, shift_bits}
use nanoprintf.Float.Fixed.{frac_start}
use nanoprintf.Float.Sci.Whole.{whole_sci, top_digits}

-- The locals of the loops over the fraction.
pub record Tail : Type 0 where
  pub man : ℕ
  pub carry : ℕ
  pub digit : ℕ
  pub dec : ℤ
  pub end : ℕ
  pub buf : Bytes

-- One round of the scaling; `early` is `exp_f < 0`.
unfoldable pub tail_step : ℕ → Bool → Bool → Tail → Tail
tail_step mb lead early s =
    let man' = s.man * 5 % 2 ^ mb in
    let grown = if s.carry == 0 then man' else (man' + 3) % 2 ^ mb in
    if ltb ((2 ^ mb - 4) / 5) s.man || not (s.digit == 0)
    then record s { man = s.man / 2; carry = s.man % 2 }
    else if not early
    then record s { man = grown; carry = 0; digit = s.digit + 1 }
    else if lead
    then record s { man = grown; carry = 0; dec = s.dec -ℤ pos 1 }
    else record s {
      man = grown;
      carry = 0;
      dec = s.dec -ℤ pos 1;
      end = s.end - 1;
      buf = set s.buf (s.end - 1) b'0';
    }

-- `(end > lo) && (dec > dstop)` does not hold.
unfoldable pub is_full : ℕ → ℤ → ℕ → ℤ → Bool
is_full lo dstop end dec = leb end lo || leb_ℤ dec dstop

-- The loop: the rounds left, which are 4 minus `exp_f`, and the state.
unfoldable pub scale_tail : ℕ → ℕ → ℤ → Bool → ℕ → Tail → ℕ × Tail
scale_tail mb lo dstop lead zero s = (0, s)
scale_tail mb lo dstop lead (suc k) s =
    let rest = scale_tail mb lo dstop lead k (tail_step mb lead (ltb 4 (suc k)) s) in
    if is_full lo dstop s.end s.dec then (suc k, s) else rest

-- The loop that prints the fraction from `end - 1` down, and the shift of the mantissa behind it.
unfoldable pub print_tail : ℕ → ℕ → ℤ → ℕ → Tail → Tail
print_tail mb lo dstop zero s = s
print_tail mb lo dstop (suc end) s =
    let man' = s.man % 2 ^ (mb - 4) in
    let put : Tail = record s {
      man = man' * 2 ^ 4 % 2 ^ mb;
      dec = s.dec -ℤ pos 1;
      end = end;
      buf = set s.buf end (b'0' + s.man / 2 ^ (mb - 4));
    } in
    let rest = print_tail mb lo dstop end (record put { man = man' * 10 % 2 ^ mb }) in
    if man' == 0 || is_full lo dstop end put.dec then put else rest

-- What the generation of digits leaves: `end`, `dec`, `carry`, `tail` and the buffer.
pub record Generated : Type 0 where
  pub end : ℕ
  pub dec : ℤ
  pub carry : ℕ
  pub tail : Bool
  pub buf : Bytes

-- The scaling and the digits of a fraction that is not zero, and the carry behind them.
unfoldable pub tail_digits : ℕ → ℕ → ℤ → Bool → ℕ → Tail → Tail
tail_digits mb lo dstop lead rounds s0 =
    let (left, s) = scale_tail mb lo dstop lead rounds s0 in
    let ready : Tail = record s {
      man = (s.man + s.carry) % 2 ^ mb;
      carry = if leb left 4 then 1 else 0;
    } in
    if is_full lo dstop ready.end ready.dec then ready else print_tail mb lo dstop ready.end ready

-- The fraction part, behind integer digits from `end` on.
unfoldable pub tail_part : Config → ℕ → ℤ → ℕ → Bool → ℕ → ℕ → Bytes → Generated
tail_part cfg nsig_max dstop bin neg e end buf =
    let mb = cfg.conversion_float_bits in
    let lo = cfg.conversion_buffer_size - nsig_max - 1 in
    let lead = end == cfg.conversion_buffer_size in
    let (man0, carry0) = frac_start cfg bin neg e in
    let s0 : Tail = record {
      man = man0;
      carry = carry0;
      digit = 0;
      dec = pos 0;
      end = end;
      buf = buf;
    } in
    let s =
      if man0 == 0 && carry0 == 0
      then s0
      else tail_digits mb lo dstop lead (if neg then 3 + e else 4) s0 in
    record {
      end = s.end;
      dec = s.dec;
      carry = if s.carry == 0 then 0 else s.man / 2 ^ (mb - 1) % 2;
      tail = s.man == 0;
      buf = s.buf;
    }

-- Both parts. An exponent that the integer scaling walked down has no fraction.
unfoldable pub generate : Config → Bool → ℕ → ℤ → ℕ → Bool → ℕ → Bytes → Option Generated
generate cfg fmode nsig_max dstop bin neg e buf =
    let w = whole_sci cfg bin neg e in
    let whole_only : ℕ × Bytes → Generated = λ r. record {
      end = r.0;
      dec = pos w.dec;
      carry = w.carry;
      tail = neg || leb e (shift_bits cfg);
      buf = r.1;
    } in
    top_digits cfg fmode w.man buf >>= λ r. some (
      if neg || (ltb e (man_bits cfg) && leb e (shift_bits cfg))
      then tail_part cfg nsig_max dstop bin neg e r.0 r.1
      else whole_only r)
