-- ===== src/Float/Sci/Place.antt =====
-- The integer digits of `npf_etoa_rev` are generated, and stand at the top of the buffer.
use native.Mathlib.Nat.{pow-suc, pow-le-pow_right}
use nanoprintf.Base.{
  ℕ, zero, suc, ◌+◌, ◌-◌, ◌/◌, ◌%◌, ◌^◌, ◌≤◌, ◌<◌, ◌≡◌, refl, ◌∙◌, Bool, true, false, ◌&&◌, not,
  some, leb, ◌==◌, Bool-cases, inl, inr, arith, length, set, get_or, length-set, leb→le,
}
use nanoprintf.Base.Bytes.{Bytes}
use nanoprintf.Config.{Config}
use nanoprintf.Utoa.{utoa_rev}
use nanoprintf.Float.Bounds.{length-write, length-utoa_rev_32}
use nanoprintf.Float.Fixed.{emit_int}
use nanoprintf.Float.Sci.Whole.{move_up, print_whole, top_digits}

length-move_up : (gap left : ℕ) (buf : Bytes) → length (move_up gap left buf) ≡ length buf
unfolding move_up
length-move_up gap zero buf = refl
length-move_up gap (suc left) buf =
    length-move_up gap left (set buf (gap + left) (get_or buf left 0))
    ∙ length-set buf (gap + left) (get_or buf left 0)

module _ (cfg : Config) (big : 23 ≤ cfg.conversion_buffer_size)
    (narrow : cfg.conversion_float_bits ≤ 64) where
  emit_int_defined :
      (fuel man end : ℕ) (buf : Bytes)
      → man < 10 ^ suc fuel
      → end + suc fuel ≤ cfg.conversion_buffer_size
      → (k : ℕ) × (b : Bytes) × (emit_int cfg (suc fuel) man end buf ≡ some (k, b))
        × (k ≤ end + suc fuel)
        × (length b ≡ length buf)
  unfolding emit_int
  emit_int_defined zero man end buf h r =
      let full : leb cfg.conversion_buffer_size end ≡ false = ground arith in
      let t : (man / 10 == 0) ≡ true = (let small : man < 10 = omega (arith, h) in ground arith) in
      rw (full, t) (_, _, refl, omega arith, length-set buf end (b'0' + man % 10))
  emit_int_defined (suc fuel) man end buf h r =
      let full : leb cfg.conversion_buffer_size end ≡ false = ground arith in
      let buf' = set buf end (b'0' + man % 10) in
      let l : length buf' ≡ length buf = length-set buf end (b'0' + man % 10) in
      let (k, b, e, c, m) =
        emit_int_defined fuel (man / 10) (end + 1) buf' (omega (arith, h, pow-suc 10 (suc fuel)))
          (omega (arith, r)) in
      elim (Bool-cases (man / 10 == 0)) [
        | inl t ↦ rw (full, t) (_, _, refl, omega arith, l)
        | inr t ↦ rw (full, t, emit_int, e) (_, _, refl, omega (arith, c), m ∙ l)
      ]

  print_whole_defined :
      (man : ℕ) (buf : Bytes)
      → man < 2 ^ cfg.conversion_float_bits
      → (k : ℕ) × (b : Bytes) × (print_whole cfg man buf ≡ some (k, b))
        × (k ≤ 20)
        × (length b ≡ length buf)
  unfolding print_whole
  print_whole_defined man buf h = elim (Bool-cases (leb cfg.conversion_float_bits 32)) [
    | inl t ↦
        let ds = utoa_rev cfg man 10 0 in
        let ten : length ds ≤ 10 = length-utoa_rev_32 cfg man (leb→le _ 32 t) h in
        rw t (_, _, refl, omega (arith, ten), length-write cfg ds buf 0)
    | inr t ↦
        let fits : man < 10 ^ 20 = omega (
          arith,
          h,
          pow-le-pow_right {n = 2} (omega arith) {i = cfg.conversion_float_bits} {j = 64} narrow,
        ) in
        let (k, b, e, c, m) = emit_int_defined 19 man 0 buf fits (omega (arith, big)) in
        rw (t, e) (_, _, refl, c, m)
  ]

  -- At most 20 integer digits stand at the top of the buffer.
  pub top_digits_defined :
      (fmode : Bool) (man : ℕ) (buf : Bytes)
      → man < 2 ^ cfg.conversion_float_bits
      → (end : ℕ) × (b : Bytes) × (top_digits cfg fmode man buf ≡ some (end, b))
        × (end ≤ cfg.conversion_buffer_size)
        × (cfg.conversion_buffer_size ≤ end + 20)
        × (length b ≡ length buf)
  unfolding top_digits
  top_digits_defined fmode man buf h =
      let size = cfg.conversion_buffer_size in
      elim (Bool-cases (man == 0 && not fmode)) [
        | inl t ↦ rw t (_, _, refl, omega arith, omega arith, refl)
        | inr t ↦
            let (k, b, e, c, l) = print_whole_defined man buf h in
            rw (t, e) (_, _, refl, omega arith, omega (arith, c), length-move_up (size - k) k b ∙ l)
      ]
