-- ===== src/Float/Sci/Stop.antt =====
-- The position stop of `npf_etoa_rev`: no digit is generated below 10^`dstop`.
use nanoprintf.Base.{
  ℕ, zero, suc, ◌+◌, ◌-◌, ◌*◌, ◌/◌, ◌%◌, ◌^◌, ◌≡◌, Bool, false, ◌&&◌, ◌||◌, leb, ltb, ◌==◌,
  if◌then◌else◌, Bool-cases, inl, inr, arith, set,
}
use nanoprintf.Base.Bytes.{Bytes}
use nanoprintf.Base.Ints.{ℤ, pos, ◌-ℤ◌, ◌≤ℤ◌, leb_ℤ, -ℤ_parts}
use nanoprintf.Config.{Config}
use nanoprintf.Float.Fixed.{frac_start}
use nanoprintf.Float.Sci.Tail.{
  Tail, is_full, tail_step, scale_tail, print_tail, tail_digits, tail_part,
}

module _ (mb lo : ℕ) (dstop : ℤ) where
  tail_step_stop :
      (lead early : Bool) (s : Tail)
      → is_full lo dstop s.end s.dec ≡ false
      → dstop ≤ℤ (tail_step mb lead early s).dec
  unfolding tail_step is_full
  tail_step_stop lead early s h =
      let above : leb_ℤ s.dec dstop ≡ false = ground arith in ground (arith, -ℤ_parts s.dec (pos 1))

  scale_tail_stop :
      (lead : Bool) (k : ℕ) (s : Tail)
      → dstop ≤ℤ s.dec
      → dstop ≤ℤ (scale_tail mb lo dstop lead k s).1.dec
  unfolding scale_tail
  scale_tail_stop lead zero s h = h
  scale_tail_stop lead (suc k) s h = elim (Bool-cases (is_full lo dstop s.end s.dec)) [
    | inl t ↦ rw (scale_tail, t) h
    | inr t ↦
        rw (scale_tail, t)
          (scale_tail_stop lead k (tail_step mb lead (ltb 4 (suc k)) s)
            (tail_step_stop lead (ltb 4 (suc k)) s t))
  ]

  print_tail_stop :
      (end : ℕ) (s : Tail)
      → is_full lo dstop end s.dec ≡ false
      → dstop ≤ℤ (print_tail mb lo dstop end s).dec
  unfolding print_tail is_full
  print_tail_stop zero s h = ground arith
  print_tail_stop (suc end) s h =
      let man' = s.man % 2 ^ (mb - 4) in
      let next : Tail = record s {
        man = man' * 10 % 2 ^ mb;
        dec = s.dec -ℤ pos 1;
        end = end;
        buf = set s.buf end (b'0' + s.man / 2 ^ (mb - 4));
      } in
      let above : leb_ℤ s.dec dstop ≡ false = ground arith in
      let one : dstop ≤ℤ s.dec -ℤ pos 1 = ground (arith, -ℤ_parts s.dec (pos 1)) in
      elim (Bool-cases (man' == 0 || is_full lo dstop end (s.dec -ℤ pos 1))) [
        | inl t ↦ rw (print_tail, t) one
        | inr t ↦ rw (print_tail, t) (print_tail_stop end next (ground arith))
      ]

  tail_digits_stop :
      (lead : Bool) (rounds : ℕ) (s : Tail)
      → dstop ≤ℤ s.dec
      → dstop ≤ℤ (tail_digits mb lo dstop lead rounds s).dec
  unfolding tail_digits
  tail_digits_stop lead rounds s0 h =
      let (left, s) = scale_tail mb lo dstop lead rounds s0 in
      let ready : Tail = record s {
        man = (s.man + s.carry) % 2 ^ mb;
        carry = if leb left 4 then 1 else 0;
      } in
      elim (Bool-cases (is_full lo dstop s.end s.dec)) [
        | inl t ↦ rw t (scale_tail_stop lead rounds s0 h)
        | inr t ↦ rw t (print_tail_stop s.end ready t)
      ]

pub tail_part_stop :
    (cfg : Config) (nsig_max : ℕ) (dstop : ℤ) (bin : ℕ) (neg : Bool) (e end : ℕ) (buf : Bytes)
    → dstop ≤ℤ pos 0
    → dstop ≤ℤ (tail_part cfg nsig_max dstop bin neg e end buf).dec
unfolding tail_part
tail_part_stop cfg nsig_max dstop bin neg e end buf h =
    let (man0, carry0) = frac_start cfg bin neg e in
    let s0 : Tail = record {
      man = man0;
      carry = carry0;
      digit = 0;
      dec = pos 0;
      end = end;
      buf = buf;
    } in
    elim (Bool-cases (man0 == 0 && carry0 == 0)) [
      | inl t ↦ rw t h
      | inr t ↦ rw t (
          tail_digits_stop cfg.conversion_float_bits (cfg.conversion_buffer_size - nsig_max - 1)
            dstop (end == cfg.conversion_buffer_size) (if neg then 3 + e else 4) s0 h)
    ]
