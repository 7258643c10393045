-- ===== src/Float/Sci/Reach.antt =====
-- Where the digits that `npf_etoa_rev` generates stand: in the buffer, and with a decimal exponent of
-- at most three digits.
use native.Mathlib.Nat.{mod-lt}
use nanoprintf.Base.{
  ℕ, zero, suc, ◌+◌, ◌-◌, ◌*◌, ◌/◌, ◌%◌, ◌^◌, ◌≤◌, ◌<◌, ◌≡◌, refl, ap, ◌∙◌, Bool, true, false, ◌&&◌,
  ◌||◌, some, leb, ltb, ◌==◌, if◌then◌else◌, Bool-cases, inl, inr, arith, length, set, length-set,
}
use nanoprintf.Base.Bytes.{Bytes}
use nanoprintf.Base.Ints.{ℤ, pos, pos_part, neg_part, ◌-ℤ◌, ◌≤ℤ◌, -ℤ_parts}
use nanoprintf.Config.{Config}
use nanoprintf.Float.{man_bits, bin_bits, shift_bits}
use nanoprintf.Float.Bounds.{pow-pos}
use nanoprintf.Float.Fixed.{frac_start}
use nanoprintf.Float.Sci.Whole.{whole_sci}
use nanoprintf.Float.Sci.Scale.{whole_sci_bounds}
use nanoprintf.Float.Sci.Stop.{tail_part_stop}
use nanoprintf.Float.Sci.Place.{top_digits_defined}
use nanoprintf.Float.Sci.Fall.{
  IsTail, Shifts, Shifts-trans, scale_tail-Shifts, scale_tail-lead, scale_tail-Falls, Level-start,
}
use nanoprintf.Float.Sci.Tail.{
  Tail, is_full, scale_tail, print_tail, tail_digits, tail_part, Generated, generate,
}

print_tail-Shifts :
    (mb lo : ℕ) (dstop : ℤ) (end : ℕ) (s : Tail)
    → s.end ≡ end
    → Shifts s (print_tail mb lo dstop end s)
unfolding print_tail
print_tail-Shifts mb lo dstop zero s e = record {
  place = omega arith;
  end = omega arith;
  held = refl;
}
print_tail-Shifts mb lo dstop (suc end) s e =
    let man' = s.man % 2 ^ (mb - 4) in
    let buf' = set s.buf end (b'0' + s.man / 2 ^ (mb - 4)) in
    let next : Tail = record s {
      man = man' * 10 % 2 ^ mb;
      dec = s.dec -ℤ pos 1;
      end = end;
      buf = buf';
    } in
    let rest = print_tail-Shifts mb lo dstop end next refl in
    let l : length buf' ≡ length s.buf = length-set s.buf end (b'0' + s.man / 2 ^ (mb - 4)) in
    let one : Shifts s next = record {
      place = omega (arith, e, -ℤ_parts s.dec (pos 1));
      end = omega (arith, e);
      held = l;
    } in
    elim (Bool-cases (man' == 0 || is_full lo dstop end (s.dec -ℤ pos 1))) [
      | inl t ↦ rw (print_tail, t) (record { place = one.place; end = one.end; held = l })
      | inr t ↦ rw (print_tail, t) (Shifts-trans s next _ one rest)
    ]

module _ (cfg : Config) where
  -- The digits are in the buffer, and the highest has an exponent of magnitude at most 600.
  pub record IsNear (end : ℕ) (dec : ℤ) (buf : Bytes) : Type 0 where
    pub inside : end ≤ cfg.conversion_buffer_size
    pub low : neg_part dec ≤ 600 + pos_part dec + (cfg.conversion_buffer_size - end)
    pub high : pos_part dec + (cfg.conversion_buffer_size - end) ≤ 600 + neg_part dec
    pub held : length buf ≡ cfg.conversion_buffer_size

module _ (cfg : Config) (wide : 8 ≤ cfg.conversion_float_bits)
    (narrow : cfg.conversion_float_bits ≤ 64) where
  frac_start_bounds :
      (bin : ℕ) (neg : Bool) (e : ℕ)
      → ((frac_start cfg bin neg e).0 < 2 ^ cfg.conversion_float_bits)
        × ((frac_start cfg bin neg e).1 ≤ 1)
  unfolding frac_start
  frac_start_bounds bin neg e =
      let mb = cfg.conversion_float_bits in
      elim (Bool-cases (ltb mb (bin_bits cfg))) [
        | inl t ↦ rw t (mod-lt _ (pow-pos mb), ground arith)
        | inr t ↦ rw t (mod-lt _ (pow-pos mb), omega arith)
      ]

  tail_digits-Shifts :
      (lo : ℕ) (dstop : ℤ) (lead : Bool) (rounds : ℕ) (s : Tail)
      → Shifts
          (scale_tail cfg.conversion_float_bits lo dstop lead rounds s).1
          (tail_digits cfg.conversion_float_bits lo dstop lead rounds s)
  unfolding tail_digits
  tail_digits-Shifts lo dstop lead rounds s0 =
      let mb = cfg.conversion_float_bits in
      let (left, s) = scale_tail mb lo dstop lead rounds s0 in
      let ready : Tail = record s {
        man = (s.man + s.carry) % 2 ^ mb;
        carry = if leb left 4 then 1 else 0;
      } in
      let still : Shifts s ready = record { place = omega arith; end = omega arith; held = refl } in
      elim (Bool-cases (is_full lo dstop s.end s.dec)) [
        | inl t ↦ rw t still
        | inr t ↦
            rw t (Shifts-trans s ready _ still (print_tail-Shifts mb lo dstop s.end ready refl))
      ]

  tail_digits-IsNear :
      (lo : ℕ) (dstop : ℤ) (rounds : ℕ) (s : Tail)
      → rounds ≤ 1026
      → s.dec ≡ pos 0
      → s.end ≤ cfg.conversion_buffer_size
      → cfg.conversion_buffer_size ≤ s.end + 20
      → length s.buf ≡ cfg.conversion_buffer_size
      → IsTail cfg.conversion_float_bits s
      → (s.man == 0 && s.carry == 0) ≡ false
      → (let r =
            tail_digits cfg.conversion_float_bits lo dstop
              (s.end == cfg.conversion_buffer_size)
              rounds
              s in
          IsNear cfg r.end r.dec r.buf)
  tail_digits-IsNear lo dstop rounds s few z le near l i nz =
      let mb = cfg.conversion_float_bits in
      let p : pos_part s.dec ≡ 0 = ap pos_part z in
      let q : neg_part s.dec ≡ 0 = ap neg_part z in
      elim (Bool-cases (s.end == cfg.conversion_buffer_size)) [
        | inl t ↦
            let fall =
              scale_tail-Falls mb wide lo dstop rounds 29 s i
                (Level-start mb wide s.man s.carry narrow nz) in
            let (a, b, c) = scale_tail-lead mb wide lo dstop rounds s in
            let d = tail_digits-Shifts lo dstop true rounds s in
            rw t (record {
              inside = omega (arith, d.end, a, le);
              low = omega (arith, fall, few, d.place, d.end, a, p, q, le, near);
              high = omega (arith, c, d.place, d.end, a, p, q, le, near);
              held = d.held ∙ ap length b ∙ l;
            })
        | inr t ↦
            let a = scale_tail-Shifts mb wide lo dstop rounds s in
            let d = tail_digits-Shifts lo dstop false rounds s in
            rw t (record {
              inside = omega (arith, d.end, a.end, le);
              low = omega (arith, a.place, d.place, d.end, a.end, p, q, le, near);
              high = omega (arith, a.place, d.place, d.end, a.end, p, q, le, near);
              held = d.held ∙ a.held ∙ l;
            })
      ]

  tail_part-IsNear :
      (nsig_max : ℕ) (dstop : ℤ) (bin : ℕ) (neg : Bool) (e end : ℕ) (buf : Bytes)
      → e ≤ 1023
      → end ≤ cfg.conversion_buffer_size
      → cfg.conversion_buffer_size ≤ end + 20
      → length buf ≡ cfg.conversion_buffer_size
      → (let r = tail_part cfg nsig_max dstop bin neg e end buf in IsNear cfg r.end r.dec r.buf)
  unfolding tail_part
  tail_part-IsNear nsig_max dstop bin neg e end buf h le near l =
      let (m, c) = frac_start_bounds bin neg e in
      let start : Tail = record {
        man = (frac_start cfg bin neg e).0;
        carry = (frac_start cfg bin neg e).1;
        digit = 0;
        dec = pos 0;
        end = end;
        buf = buf;
      } in
      elim (Bool-cases (start.man == 0 && start.carry == 0)) [
        | inl t ↦
            rw t (record { inside = le; low = omega arith; high = omega (arith, near); held = l })
        | inr t ↦
            let few : (if neg then 3 + e else 4) ≤ 1026 = ground (arith, h) in
            rw t (
              tail_digits-IsNear (cfg.conversion_buffer_size - nsig_max - 1) dstop
                (if neg then 3 + e else 4) start few refl le near l (record { man = m; carry = c })
                t)
      ]

  -- Generation succeeds, with the digits in the buffer and none below the position stop.
  pub generate_defined :
      (fmode : Bool) (nsig_max : ℕ) (dstop : ℤ) (bin : ℕ) (neg : Bool) (e : ℕ) (buf : Bytes)
      → 23 ≤ cfg.conversion_buffer_size
      → e ≤ 1023
      → dstop ≤ℤ pos 0
      → length buf ≡ cfg.conversion_buffer_size
      → (d : Generated) × (generate cfg fmode nsig_max dstop bin neg e buf ≡ some d)
        × IsNear cfg d.end d.dec d.buf
        × (dstop ≤ℤ d.dec)
  unfolding generate
  generate_defined fmode nsig_max dstop bin neg e buf big h z l =
      let (m, c) = whole_sci_bounds cfg wide bin neg e h in
      let (end, b, q, le, near, k) =
        top_digits_defined cfg big narrow fmode (whole_sci cfg bin neg e).man buf m in
      elim (Bool-cases (neg || (ltb e (man_bits cfg) && leb e (shift_bits cfg)))) [
        | inl t ↦
            rw (q, t)
              (
                _,
                refl,
                tail_part-IsNear nsig_max dstop bin neg e end b h le near (k ∙ l),
                tail_part_stop cfg nsig_max dstop bin neg e end b z,
              )
        | inr t ↦
            let placed : IsNear cfg end (pos (whole_sci cfg bin neg e).dec) b = record {
              inside = le;
              low = omega arith;
              high = omega (arith, c, near);
              held = k ∙ l;
            } in
            rw (q, t) (_, refl, placed, omega (arith, z))
      ]
