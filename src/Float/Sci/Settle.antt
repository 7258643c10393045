-- ===== src/Float/Sci/Settle.antt =====
-- The rounding of `npf_etoa_rev` leaves digits in the buffer: as many as were asked for, or none below
-- the last decimal place.
use nanoprintf.Base.{
  ltb, ◌&&◌, ℕ, zero, suc, ◌+◌, ◌-◌, ◌≤◌, ◌<◌, ◌≡◌, refl, ap, ◌∙◌, ==_iff, Bool, true, false, ◌==◌,
  Bool-cases, inl, inr, arith, length, set, get_or, length-set,
}
use nanoprintf.Base.Bytes.{Bytes}
use nanoprintf.Base.Ints.{
  ℤ, pos, negsuc, pos_part, neg_part, ◌+ℤ◌, ◌-ℤ◌, ◌≤ℤ◌, +ℤ_parts, -ℤ_parts, pos_part_le,
}
use nanoprintf.Config.{Config}
use nanoprintf.Float.Sci.Tail.{Generated}
use nanoprintf.Float.Sci.Round.{
  or_zero, excess, drop_digits, carry_up, Digits, rounded, strip_zeros,
}
use nanoprintf.Float.Sci.Reach.{IsNear}

-- Dropping moves `end` and `dec` together.
record Dropped (n : ℕ) (d d' : Generated) : Type 0 where
  end : d'.end ≡ d.end + n
  dec : pos_part d'.dec + neg_part d.dec ≡ neg_part d'.dec + pos_part d.dec + n
  held : d'.buf ≡ d.buf

drop_digits-Dropped : (n : ℕ) (d : Generated) → Dropped n d (drop_digits n d)
unfolding drop_digits
drop_digits-Dropped zero d = record { end = omega arith; dec = omega arith; held = refl }
drop_digits-Dropped (suc n) d = record {
  end = refl;
  dec = omega (arith, +ℤ_parts d.dec (pos (suc n)));
  held = refl;
}

-- A carry adds at most one to the exponent.
carry_up_lem :
    (left i : ℕ) (dec : ℤ) (buf : Bytes)
    → (pos_part (carry_up left i dec buf).0 + neg_part dec
        ≤ neg_part (carry_up left i dec buf).0 + pos_part dec + 1)
      × (neg_part (carry_up left i dec buf).0 + pos_part dec
          ≤ pos_part (carry_up left i dec buf).0 + neg_part dec)
      × (length (carry_up left i dec buf).1 ≡ length buf)
unfolding carry_up
carry_up_lem zero i dec buf = (
  omega (arith, +ℤ_parts dec (pos 1)),
  omega (arith, +ℤ_parts dec (pos 1)),
  length-set buf (i - 1) b'1',
)
carry_up_lem (suc left) i dec buf =
    let c = get_or buf i 0 in
    let (a, b, l) = carry_up_lem left (i + 1) dec (set buf i b'0') in
    elim (Bool-cases (c == b'9')) [
      | inl t ↦ rw (carry_up, t) (a, b, l ∙ length-set buf i b'0')
      | inr t ↦ rw (carry_up, t) (omega arith, omega arith, length-set buf i (c + 1))
    ]

module _ (cfg : Config) where
  -- What rounding needs: digits in the buffer, none below 10^-(prec + 1) for 'f'.
  abbrev pub Stopped : Bool → ℕ → ℤ → Type 0
  Stopped true prec dec = negsuc prec ≤ℤ dec
  Stopped false prec dec = Unit

  -- What it leaves.
  abbrev pub Wanted : Bool → ℕ → ℕ → ℕ → ℤ → Type 0
  Wanted true prec nsig_max end dec = neg_part dec ≤ prec + pos_part dec
  Wanted false prec nsig_max end dec =
      (cfg.conversion_buffer_size ≤ end + nsig_max) × (end < cfg.conversion_buffer_size)

  Wanted-up :
      (fmode : Bool) (prec nsig_max end : ℕ) (dec dec' : ℤ)
      → Wanted fmode prec nsig_max end dec
      → neg_part dec' + pos_part dec ≤ pos_part dec' + neg_part dec
      → Wanted fmode prec nsig_max end dec'
  Wanted-up true prec nsig_max end dec dec' h k = omega (arith, h, k)
  Wanted-up false prec nsig_max end dec dec' h k = h

  pub record IsRounded (fmode : Bool) (prec nsig_max : ℕ) (s : Digits) : Type 0 where
    pub inside : s.end ≤ cfg.conversion_buffer_size
    pub low : neg_part s.dec ≤ 600 + pos_part s.dec + (cfg.conversion_buffer_size - s.end)
    pub high : pos_part s.dec + (cfg.conversion_buffer_size - s.end) ≤ 601 + neg_part s.dec
    pub held : length s.buf ≡ cfg.conversion_buffer_size
    pub wanted : Wanted fmode prec nsig_max s.end s.dec

  Stopped-zero : (fmode : Bool) (prec : ℕ) → Stopped fmode prec (pos 0)
  Stopped-zero true prec = omega arith
  Stopped-zero false prec = tt

  or_zero-IsNear :
      (fmode : Bool) (prec : ℕ) (d : Generated)
      → 23 ≤ cfg.conversion_buffer_size
      → IsNear cfg d.end d.dec d.buf
      → Stopped fmode prec d.dec
      → IsNear cfg (or_zero cfg d).end (or_zero cfg d).dec (or_zero cfg d).buf
        × ((or_zero cfg d).end < cfg.conversion_buffer_size)
        × Stopped fmode prec (or_zero cfg d).dec
  unfolding or_zero
  or_zero-IsNear fmode prec d big i h =
      let size = cfg.conversion_buffer_size in
      let zero_stopped : Stopped fmode prec (pos 0) = Stopped-zero fmode prec in
      elim (Bool-cases (size - d.end == 0)) [
        | inl t ↦
            let full : d.end ≡ size = omega (arith, i.inside, (==_iff _ _).0 t) in
            let near : IsNear cfg (d.end - 1) (pos 0) (set d.buf (d.end - 1) b'0') = record {
              inside = omega (arith, full);
              low = omega arith;
              high = omega (arith, full, big);
              held = length-set d.buf (d.end - 1) b'0' ∙ i.held;
            } in
            rw t (near, omega (arith, full, big), zero_stopped)
        | inr t ↦ rw t (i, ground (arith, i.inside), h)
      ]

  excess_fits :
      (fmode : Bool) (prec nsig_max : ℕ) (d : Generated)
      → 0 < nsig_max
      → d.end < cfg.conversion_buffer_size
      → Stopped fmode prec d.dec
      → (excess cfg fmode prec nsig_max d + d.end ≤ cfg.conversion_buffer_size)
  unfolding excess
  excess_fits true prec nsig_max d much lt h =
      let x = pos 0 -ℤ pos prec -ℤ d.dec in
      let one : pos_part x ≤ 1 =
        pos_part_le x 1
          (omega (arith, h, -ℤ_parts (pos 0) (pos prec), -ℤ_parts (pos 0 -ℤ pos prec) d.dec)) in
      let fits : pos_part x + d.end ≤ cfg.conversion_buffer_size = omega (arith, one, lt) in fits
  excess_fits false prec nsig_max d much lt h =
      let fits : cfg.conversion_buffer_size - d.end - nsig_max + d.end
          ≤ cfg.conversion_buffer_size =
        omega (arith, lt) in
      fits

  excess-Wanted :
      (fmode : Bool) (prec nsig_max : ℕ) (d d' : Generated)
      → 0 < nsig_max
      → d.end < cfg.conversion_buffer_size
      → Dropped (excess cfg fmode prec nsig_max d) d d'
      → Wanted fmode prec nsig_max d'.end d'.dec
  unfolding excess
  excess-Wanted true prec nsig_max d d' much lt k =
      let x = pos 0 -ℤ pos prec -ℤ d.dec in
      let dec : pos_part d'.dec + neg_part d.dec ≡ neg_part d'.dec + pos_part d.dec + pos_part x =
        k.dec in
      omega (arith, dec, -ℤ_parts (pos 0) (pos prec), -ℤ_parts (pos 0 -ℤ pos prec) d.dec)
  excess-Wanted false prec nsig_max d d' much lt k =
      let end : d'.end ≡ d.end + (cfg.conversion_buffer_size - d.end - nsig_max) = k.end in
      (omega (arith, end), omega (arith, end, much, lt))

  pub rounded-IsRounded :
      (fmode : Bool) (prec nsig_max : ℕ) (d : Generated)
      → 23 ≤ cfg.conversion_buffer_size
      → 0 < nsig_max
      → IsNear cfg d.end d.dec d.buf
      → Stopped fmode prec d.dec
      → IsRounded fmode prec nsig_max (rounded cfg fmode prec nsig_max d)
  unfolding rounded
  rounded-IsRounded fmode prec nsig_max d big much i h =
      let d1 = or_zero cfg d in
      let n = excess cfg fmode prec nsig_max d1 in
      let d2 = drop_digits n d1 in
      let (near, lt, stop) = or_zero-IsNear fmode prec d big i h in
      let fits = excess_fits fmode prec nsig_max d1 much lt stop in
      let k = drop_digits-Dropped n d1 in
      let w = excess-Wanted fmode prec nsig_max d1 d2 much lt k in
      let (a, b, l) = carry_up_lem (cfg.conversion_buffer_size - d2.end) d2.end d2.dec d2.buf in
      elim (Bool-cases (d2.carry == 0)) [
        | inl t ↦ rw t (record {
          inside = omega (arith, k.end, fits);
          low = omega (arith, near.low, k.end, k.dec, fits);
          high = omega (arith, near.high, k.end, k.dec, fits);
          held = ap length k.held ∙ near.held;
          wanted = w;
        })
        | inr t ↦ rw t (record {
          inside = omega (arith, k.end, fits);
          low = omega (arith, near.low, k.end, k.dec, fits, a, b);
          high = omega (arith, near.high, k.end, k.dec, fits, a, b);
          held = l ∙ ap length k.held ∙ near.held;
          wanted = Wanted-up fmode prec nsig_max d2.end d2.dec _ w b;
        })
      ]

-- Stripping keeps the place of the highest digit, and one digit.
pub record Stripped (s s' : Digits) : Type 0 where
  pub place : pos_part s'.dec + neg_part s.dec + s.end ≡ neg_part s'.dec + pos_part s.dec + s'.end
  pub after : s.end ≤ s'.end
  pub held : s'.buf ≡ s.buf

pub strip_zeros-Stripped : (nsig : ℕ) (s : Digits) → Stripped s (strip_zeros nsig s)
unfolding strip_zeros
strip_zeros-Stripped zero s = record { place = omega arith; after = omega arith; held = refl }
strip_zeros-Stripped (suc nsig) s =
    let next : Digits = record s { end = s.end + 1; dec = s.dec +ℤ pos 1 } in
    let k = strip_zeros-Stripped nsig next in
    elim (Bool-cases (ltb 1 (suc nsig) && get_or s.buf s.end 0 == b'0')) [
      | inl t ↦
          rw (strip_zeros, t)
            (record {
              place = omega (arith, k.place, +ℤ_parts s.dec (pos 1));
              after = omega (arith, k.after);
              held = k.held;
            })
      | inr t ↦
          rw (strip_zeros, t) (record { place = omega arith; after = omega arith; held = refl })
    ]

pub strip_zeros-end :
    (nsig : ℕ) (s : Digits) → 0 < nsig → (strip_zeros nsig s).end + 1 ≤ s.end + nsig
unfolding strip_zeros
strip_zeros-end zero s h = absurd (omega arith)
strip_zeros-end (suc nsig) s h =
    let next : Digits = record s { end = s.end + 1; dec = s.dec +ℤ pos 1 } in
    elim (Bool-cases (ltb 1 (suc nsig) && get_or s.buf s.end 0 == b'0')) [
      | inl t ↦
          let more : 0 < nsig = ground arith in
          rw (strip_zeros, t) (omega (arith, strip_zeros-end nsig next more))
      | inr t ↦ rw (strip_zeros, t) (omega arith)
    ]
