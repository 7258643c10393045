-- ===== src/Float/Naturals/Text.antt =====
-- The text that `npf_ftoa_rev` gives a natural number.
use native.Mathlib.Nat.{
  zero-mul, zero-mod, pow-suc, mod-eq_of_lt, pow-le-pow_right, mod-lt, lt_of_mul-lt-mul_right,
}
use nanoprintf.Base.{
  ℕ, suc, ◌+◌, ◌-◌, ◌*◌, ◌/◌, ◌%◌, ◌^◌, ◌≤◌, ◌<◌, ◌≡◌, refl, sym, ap, ◌∙◌, Bool, true, false, some,
  ◌>>=◌, ◌++◌, ltb, ◌==◌, if◌then◌else◌, set, replicate, length, length-set, length-append,
  length-replicate, inl, inr, arith,
}
use nanoprintf.Base.Bytes.{Bytes}
use nanoprintf.Base.Written.{written, take-written}
use nanoprintf.Config.{Config}
use nanoprintf.Spec.{FormatSpec}
use nanoprintf.Utoa.Numeral.{numeral}
use nanoprintf.Utoa.Value.{length-numeral}
use nanoprintf.Float.{man_bits, exp_bias, exp_values, bin_bits, shift_bits, number}
use nanoprintf.Float.Bounds.{pow-pos, length-write}
use nanoprintf.Float.Shift.Direct.{bin_shift_lem}
use nanoprintf.Float.Exact.{
  frac_start_zero, finish_zero, print_int-numeral, point_text, write-Placed,
}
use nanoprintf.Float.Fixed.{write, print_int, frac_start, whole_part, finish, ftoa_finite, ftoa_rev}
use nanoprintf.Float.Naturals.{
  pow_add, shows_point, HasValue, zero_value, whole_value, fields_fit, whole_part-natural,
  frac_start-natural,
}

module _ (cfg : Config) (fs : FormatSpec) (prec : ℕ) (wide : 8 ≤ cfg.conversion_float_bits)
    (narrow : cfg.conversion_float_bits ≤ 32) (room : prec + 11 ≤ cfg.conversion_buffer_size) where
  -- The text of a natural number, lowest byte first.
  abbrev pub natural_text : ℕ → Bytes
  natural_text v =
      replicate prec b'0' ++ (point_text (shows_point cfg fs prec) ++ numeral 10 0 64 v)

  abbrev start_buffer : Bytes
  start_buffer =
      let mem : Bytes = replicate cfg.conversion_buffer_size 0 in
      if shows_point cfg fs prec then set mem prec b'.' else mem

  abbrev start_dec : ℕ
  start_dec = if shows_point cfg fs prec then prec + 1 else prec

  length-start_buffer : length start_buffer ≡ cfg.conversion_buffer_size
  length-start_buffer =
      let mem : Bytes = replicate cfg.conversion_buffer_size 0 in
      ground
        (arith, length-set mem prec b'.', length-replicate {A = ℕ} cfg.conversion_buffer_size 0)

  ten_digits : (v : ℕ) → v < 2 ^ 32 → length (numeral 10 0 64 v) ≤ 10
  ten_digits v h = length-numeral 10 0 64 9 v (inr (inl refl)) (omega (arith, h))

  -- The stages behind the integer part, where the number has no fraction.
  print_natural :
      (bin : ℕ) (neg : Bool) (e v : ℕ)
      → v < 2 ^ 32
      → frac_start cfg bin neg e ≡ (0, 0)
      → whole_part cfg bin neg e start_dec start_buffer
        ≡ some (record { man = v; carry = 0; dec = start_dec; buf = start_buffer })
      → (whole_part cfg bin neg e start_dec start_buffer >>= λ s.
          print_int cfg s.man s.dec s.buf >>= λ r. finish cfg prec bin neg e s r.0 r.1)
        ≡ some (
          start_dec + length (numeral 10 0 64 v),
          written (natural_text v) (replicate cfg.conversion_buffer_size 0),
        )
  print_natural bin neg e v small fraction whole =
      let ds = numeral 10 0 64 v in
      let mem : Bytes = replicate cfg.conversion_buffer_size 0 in
      let l = length-start_buffer in
      let few = ten_digits v small in
      let low : start_dec ≤ prec + 1 = ground arith in
      let printed =
        print_int-numeral cfg v start_dec start_buffer narrow (omega (arith, small))
          (omega (arith, low, room)) in
      let done =
        finish_zero cfg prec bin neg e
          (record { man = v; carry = 0; dec = start_dec; buf = start_buffer })
          (start_dec + length ds) (write start_buffer start_dec ds) fraction refl
          (omega (arith, room, length-write cfg ds start_buffer start_dec, l)) in
      let text =
        write-Placed (shows_point cfg fs prec) prec ds mem
          (omega (arith, room, few, length-replicate {A = ℕ} cfg.conversion_buffer_size 0)) in
      rw (whole, printed, done, text) refl

  -- The conversion of a finite number in terms of its stages.
  finite_zero :
      (man : ℕ)
      → man ≡ 0
      → ftoa_finite cfg fs prec 0 man
        ≡ some (
          start_dec + length (numeral 10 0 64 0),
          written (natural_text 0) (replicate cfg.conversion_buffer_size 0),
        )
  unfolding ftoa_finite whole_part
  finite_zero man z =
      let fit = fields_fit cfg in
      let small : ltb 1 (exp_bias cfg) ≡ true = ground (arith, fit.4) in
      let e = exp_bias cfg - 1 in
      let shl =
        (bin_shift_lem cfg 0 (bin_bits cfg - man_bits cfg - 1) (pow-pos (bin_bits cfg))).1 in
      let none_left : 0 * 2 ^ (bin_bits cfg - man_bits cfg - 1) % 2 ^ bin_bits cfg ≡ 0 =
        rw (zero-mul (2 ^ (bin_bits cfg - man_bits cfg - 1)), zero-mod (2 ^ bin_bits cfg)) refl in
      let start = frac_start_zero cfg 0 true e (shl ∙ none_left) in
      rw (z, small) (print_natural 0 true e 0 (omega arith) start refl)

  -- The significand of a natural number bounds it.
  value_small :
      (man e v : ℕ)
      → e ≤ shift_bits cfg
      → man < 2 ^ man_bits cfg
      → man + 2 ^ man_bits cfg ≡ v * 2 ^ (man_bits cfg - e)
      → (v < 2 ^ cfg.conversion_float_bits) × (man + 2 ^ man_bits cfg < 2 ^ bin_bits cfg)
  value_small man e v h m q =
      let fit = fields_fit cfg in
      let k = 2 ^ (man_bits cfg - e) in
      let two : 2 ^ suc (man_bits cfg) ≡ 2 ^ man_bits cfg * 2 = pow-suc 2 (man_bits cfg) in
      let sum : suc e + (man_bits cfg - e) ≡ suc (man_bits cfg) = omega (arith, h, fit.1) in
      let top : 2 ^ suc e * k ≡ 2 ^ suc (man_bits cfg) =
        pow_add (suc e) (man_bits cfg - e) ∙ ap (λ n. 2 ^ n) sum in
      let v_small : v < 2 ^ suc e = lt_of_mul-lt-mul_right k (omega (arith, top, two, m, q)) in
      let bits : suc e ≤ cfg.conversion_float_bits = omega (arith, h, fit.5, wide) in
      let room_v =
        pow-le-pow_right {n = 2} (omega arith) {i = suc e} {j = cfg.conversion_float_bits} bits in
      let room_bin =
        pow-le-pow_right {n = 2} (omega arith) {i = suc (man_bits cfg)} {j = bin_bits cfg}
          (omega (arith, fit.0)) in
      (omega (arith, v_small, room_v), omega (arith, m, two, room_bin))

  finite_whole :
      (man e v : ℕ)
      → e ≤ shift_bits cfg
      → man < 2 ^ man_bits cfg
      → man + 2 ^ man_bits cfg ≡ v * 2 ^ (man_bits cfg - e)
      → ftoa_finite cfg fs prec (exp_bias cfg + e) man
        ≡ some (
          start_dec + length (numeral 10 0 64 v),
          written (natural_text v) (replicate cfg.conversion_buffer_size 0),
        )
  unfolding ftoa_finite
  finite_whole man e v h m q =
      let fit = fields_fit cfg in
      let (small, fits) = value_small man e v h m q in
      let below : v < 2 ^ 32 = omega (
        arith,
        small,
        pow-le-pow_right {n = 2} (omega arith) {i = cfg.conversion_float_bits} {j = 32} narrow,
      ) in
      let fits' : v * 2 ^ (man_bits cfg - e) < 2 ^ bin_bits cfg = omega (arith, fits, q) in
      let normal : (exp_bias cfg + e == 0) ≡ false = ground (arith, fit.4) in
      let positive : ltb (exp_bias cfg + e) (exp_bias cfg) ≡ false = ground arith in
      let exponent : exp_bias cfg + e - exp_bias cfg ≡ e = omega arith in
      rw (normal, positive, exponent, q)
        (print_natural (v * 2 ^ (man_bits cfg - e)) false e v below
          (frac_start-natural cfg v e h fits')
          (whole_part-natural cfg v e start_dec start_buffer h small fits'))

  length-natural_text : (v : ℕ) → length (natural_text v) ≡ start_dec + length (numeral 10 0 64 v)
  length-natural_text v =
      let ds = numeral 10 0 64 v in
      let zs : Bytes = replicate prec b'0' in
      let pt = point_text (shows_point cfg fs prec) in
      ground (
        arith,
        length-append zs (pt ++ ds),
        length-append pt ds,
        length-replicate {A = ℕ} prec b'0',
      )

  -- The fields of the number, and the check for infinities and NaNs.
  rev_finite :
      (f e0 v : ℕ)
      → f / 2 ^ man_bits cfg % exp_values cfg ≡ e0
      → e0 + 1 < exp_values cfg
      → ftoa_finite cfg fs prec e0 (f % 2 ^ man_bits cfg)
        ≡ some (
          start_dec + length (numeral 10 0 64 v),
          written (natural_text v) (replicate cfg.conversion_buffer_size 0),
        )
      → ftoa_rev cfg fs prec f ≡ number (natural_text v)
  unfolding ftoa_rev
  rev_finite f e0 v field finite e =
      let special : ((e0 + 1) % exp_values cfg == 0) ≡ false =
        ground (arith, mod-eq_of_lt finite) in
      let fits : ltb (cfg.conversion_buffer_size - 2) prec ≡ false = ground arith in
      let mem : Bytes = replicate cfg.conversion_buffer_size 0 in
      rw (field, special, fits, e, sym (length-natural_text v), take-written (natural_text v) mem)
        refl

  pub ftoa_rev-natural :
      (f v : ℕ) → HasValue cfg f v → ftoa_rev cfg fs prec f ≡ number (natural_text v)
  ftoa_rev-natural f v (zero_value field man) =
      let fit = fields_fit cfg in
      rev_finite f 0 v field (omega (arith, fit.3, fit.4)) (finite_zero (f % 2 ^ man_bits cfg) man)
  ftoa_rev-natural f v (whole_value e v' h field man) =
      let fit = fields_fit cfg in
      rev_finite f (exp_bias cfg + e) v field (omega (arith, fit.3, fit.1, h))
        (finite_whole (f % 2 ^ man_bits cfg) e v h (mod-lt f (pow-pos (man_bits cfg))) man)
