-- ===== src/Float/Fuel.antt =====
-- The bounds on the rounds of `npf_ftoa_rev` are never what ends a loop.
use native.Mathlib.Nat.{pow-suc, pow-le-pow_right}
use nanoprintf.Base.{
  ℕ, zero, suc, ◌+◌, ◌/◌, ◌%◌, ◌^◌, ◌<◌, ◌≡◌, refl, true, none, leb, ◌==◌, if◌then◌else◌, set,
  arith,
}
use nanoprintf.Base.Bytes.{Bytes}
use nanoprintf.Config.{Config}
use nanoprintf.Float.Fixed.{emit_int, round_up}

module _ (cfg : Config) where
  round_up_full :
      (fuel dec end : ℕ) (buf : Bytes)
      → cfg.conversion_buffer_size < dec
      → round_up cfg fuel dec end buf ≡ none
  unfolding round_up
  round_up_full zero dec end buf h = refl
  round_up_full (suc fuel) dec end buf h =
      let t : leb cfg.conversion_buffer_size dec ≡ true = ground arith in rw t refl

  -- Rounding up with any bounds that reach behind the buffer gives one result.
  round_up_fuel :
      (fuel g dec end : ℕ) (buf : Bytes)
      → cfg.conversion_buffer_size < dec + fuel
      → cfg.conversion_buffer_size < dec + g
      → round_up cfg fuel dec end buf ≡ round_up cfg g dec end buf
  unfolding round_up
  round_up_fuel zero g dec end buf h k = rw (round_up_full g dec end buf (omega (arith, h))) refl
  round_up_fuel (suc fuel) zero dec end buf h k =
      rw (round_up_full (suc fuel) dec end buf (omega (arith, k))) refl
  round_up_fuel (suc fuel) (suc g) dec end buf h k =
      let end1 = if leb end dec then end + 1 else end in
      let buf1 = if leb end dec then set buf end b'0' else buf in
      let e = round_up_fuel fuel g (dec + 1) end1 buf1 (omega (arith, h)) (omega (arith, k)) in
      let e' =
        round_up_fuel fuel g (dec + 1) end1 (set buf1 dec b'0') (omega (arith, h))
          (omega (arith, k)) in
      rw (e, e', round_up) refl

  -- A mantissa is printed with any bounds of more rounds than it has digits to one result.
  emit_int_fuel :
      (fuel g man end : ℕ) (buf : Bytes)
      → man < 10 ^ suc fuel
      → man < 10 ^ suc g
      → emit_int cfg (suc fuel) man end buf ≡ emit_int cfg (suc g) man end buf
  unfolding emit_int
  emit_int_fuel zero g man end buf h k =
      let t : (man / 10 == 0) ≡ true =
        (let small : man < 10 = omega (arith, h, k) in ground arith) in
      rw t refl
  emit_int_fuel (suc fuel) zero man end buf h k =
      let t : (man / 10 == 0) ≡ true =
        (let small : man < 10 = omega (arith, h, k) in ground arith) in
      rw t refl
  emit_int_fuel (suc fuel) (suc g) man end buf h k =
      let h' : man / 10 < 10 ^ suc fuel = omega (arith, h, pow-suc 10 (suc fuel)) in
      let k' : man / 10 < 10 ^ suc g = omega (arith, k, pow-suc 10 (suc g)) in
      rw (emit_int_fuel fuel g (man / 10) (end + 1) (set buf end (b'0' + man % 10)) h' k', emit_int)
        refl

  -- More rounds than the model allows change nothing: 20 for the digits of a mantissa below 2^64, and
  -- the buffer's size plus one for the rounding, from any place in the buffer.
  loops_fuel :
      (more man dec end : ℕ) (buf : Bytes)
      → man < 2 ^ 64
      → (emit_int cfg (20 + more) man end buf ≡ emit_int cfg 20 man end buf)
        × (round_up cfg (cfg.conversion_buffer_size + 1 + more) dec end buf
            ≡ round_up cfg (cfg.conversion_buffer_size + 1) dec end buf)
  loops_fuel more man dec end buf h =
      let wide : man < 10 ^ suc (19 + more) = omega (
        arith,
        h,
        pow-le-pow_right {n = 10} (omega arith) {i = 20} {j = suc (19 + more)} (omega arith),
      ) in
      let e : 20 + more ≡ suc (19 + more) = omega arith in
      (
        rw e (emit_int_fuel (19 + more) 19 man end buf wide (omega (arith, h))),
        round_up_fuel (cfg.conversion_buffer_size + 1 + more) (cfg.conversion_buffer_size + 1) dec
            end buf (omega arith) (omega arith),
      )
