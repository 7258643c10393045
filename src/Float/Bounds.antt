-- ===== src/Float/Bounds.antt =====
-- The length that `npf_ftoa_rev` returns stays within the buffer.
use native.Mathlib.Nat.{mod-lt, pow-suc, pow-le-pow_right}
use nanoprintf.Base.{
  ℕ, zero, suc, ◌+◌, ◌-◌, ◌*◌, ◌/◌, ◌%◌, ◌^◌, ◌≤◌, ◌<◌, ◌≡◌, refl, ◌∙◌, some, none, [], ◌∷◌, leb,
  ltb, ◌==◌, if◌then◌else◌, length, set, length-set, Bool-cases, inl, inr, arith, leb→le,
  eq_of_some,
}
use mathlib.Core.Path.{subst}
use nanoprintf.Base.Bytes.{Bytes}
use nanoprintf.Config.{Config}
use nanoprintf.Utoa.{div10, utoa_rev}
use nanoprintf.Utoa.Numeral.{utoa_rev-numeral}
use nanoprintf.Utoa.Value.{length-numeral}
use nanoprintf.Float.Shift.{bin_shr}
use nanoprintf.Float.{man_bits, shift_bits}
use nanoprintf.Float.Fixed.{Scaling, fifth, scale_int, int_part, write, emit_int, print_int}

-- A state of the integer part: the mantissa fits its type, and the cursor is in the buffer.
pub record IsSound (cfg : Config) (s : Scaling) : Type 0 where
  pub man : s.man < 2 ^ cfg.conversion_float_bits
  pub dec : s.dec ≤ cfg.conversion_buffer_size
  pub held : length s.buf ≡ cfg.conversion_buffer_size

pub pow-pos : (n : ℕ) → 0 < 2 ^ n
pow-pos zero = omega arith
pow-pos (suc n) = omega (arith, pow-suc 2 n, pow-pos n)

pub none-ne : {A : Type 0} {a : A} → ¬ (none ≡ some a)
none-ne h = cc

module _ (cfg : Config) where
  -- The remainder by the power of the mantissa's width.
  wrap_fits : (x : ℕ) → x % 2 ^ cfg.conversion_float_bits < 2 ^ cfg.conversion_float_bits
  wrap_fits x = mod-lt x (pow-pos cfg.conversion_float_bits)

  fifth_fits :
      (man carry : ℕ)
      → man < 2 ^ cfg.conversion_float_bits
      → (fifth cfg man carry).0 < 2 ^ cfg.conversion_float_bits
  unfolding fifth
  fifth_fits man carry h =
      let q = div10 man * 2 in
      ground (arith, wrap_fits q, wrap_fits (q % 2 ^ cfg.conversion_float_bits + 1))

  scale_int-IsSound :
      (k : ℕ) (s s' : Scaling) → IsSound cfg s → scale_int cfg k s ≡ some s' → IsSound cfg s'
  unfolding scale_int
  scale_int-IsSound zero s s' i h = subst (IsSound cfg) (eq_of_some h) i
  scale_int-IsSound (suc k) s s' i h =
      elim (Bool-cases (s.man / 2 ^ (cfg.conversion_float_bits - 1) == 0)) [
        | inl e ↦
            scale_int-IsSound k
              (record s { man = (s.man * 2 + s.carry) % 2 ^ cfg.conversion_float_bits; carry = 0 })
              s' (record { man = wrap_fits (s.man * 2 + s.carry); dec = i.dec; held = i.held })
              (rw (e, scale_int) at h)
        | inr e ↦ elim (Bool-cases (leb cfg.conversion_buffer_size s.dec)) [
          | inl t ↦ absurd (none-ne (rw (e, t, scale_int) at h))
          | inr t ↦
              scale_int-IsSound k _ s'
                (record {
                  man = fifth_fits s.man s.carry i.man;
                  dec = ground arith;
                  held = length-set s.buf s.dec b'0' ∙ i.held;
                })
                (rw (e, t, scale_int) at h)
        ]
      ]

  pub int_part-IsSound :
      (bin e dec : ℕ) (buf : Bytes) (s : Scaling)
      → dec ≤ cfg.conversion_buffer_size
      → length buf ≡ cfg.conversion_buffer_size
      → int_part cfg bin e dec buf ≡ some s
      → IsSound cfg s
  unfolding int_part
  int_part-IsSound bin e dec buf s d l h =
      let shift_i = if ltb (shift_bits cfg) e then shift_bits cfg else e in
      let shift = man_bits cfg - shift_i in
      let bin_i = bin_shr cfg bin (shift - 1) in
      scale_int-IsSound (e - shift_i) _ s
        (record { man = ground (arith, wrap_fits bin, wrap_fits (bin_i / 2)); dec = d; held = l }) h

  pub length-write : (cs buf : Bytes) (i : ℕ) → length (write buf i cs) ≡ length buf
  unfolding write
  length-write [] buf i = refl
  length-write (c ∷ cs) buf i = length-write cs (set buf i c) (i + 1) ∙ length-set buf i c

  -- A mantissa of at most 32 bits has at most ten digits.
  pub length-utoa_rev_32 :
      (man : ℕ)
      → cfg.conversion_float_bits ≤ 32
      → man < 2 ^ cfg.conversion_float_bits
      → length (utoa_rev cfg man 10 0) ≤ 10
  length-utoa_rev_32 man b h =
      let small : man < 2 ^ 32 = omega (
        arith,
        h,
        pow-le-pow_right {n = 2} (omega arith) {i = cfg.conversion_float_bits} {j = 32} b,
      ) in
      rw (utoa_rev-numeral cfg man 10 0 (inr (inl refl)) (omega arith))
        (length-numeral 10 0 64 9 man (inr (inl refl)) (omega arith))

  emit_int_end :
      (fuel man end : ℕ) (buf : Bytes) (end' : ℕ) (buf' : Bytes)
      → emit_int cfg fuel man end buf ≡ some (end', buf')
      → (end' ≤ cfg.conversion_buffer_size) × (length buf' ≡ length buf)
  unfolding emit_int
  emit_int_end zero man end buf end' buf' h = absurd (none-ne h)
  emit_int_end (suc fuel) man end buf end' buf' h =
      elim (Bool-cases (leb cfg.conversion_buffer_size end)) [
        | inl e ↦ absurd (none-ne (rw e at h))
        | inr e ↦ elim (Bool-cases (man / 10 == 0)) [
          | inl t ↦
              subst (λ r. (r.0 ≤ cfg.conversion_buffer_size) × (length r.1 ≡ length buf))
                (eq_of_some (rw (e, t) at h)) (ground arith, length-set buf end (b'0' + man % 10))
          | inr t ↦
              let next = set buf end (b'0' + man % 10) in
              let (lo, l) =
                emit_int_end fuel (man / 10) (end + 1) next end' buf' (rw (e, t, emit_int) at h) in
              (lo, l ∙ length-set buf end (b'0' + man % 10))
        ]
      ]

  pub print_int_end :
      (man end : ℕ) (buf : Bytes) (end' : ℕ) (buf' : Bytes)
      → 23 ≤ cfg.conversion_buffer_size
      → man < 2 ^ cfg.conversion_float_bits
      → print_int cfg man end buf ≡ some (end', buf')
      → (end' ≤ cfg.conversion_buffer_size) × (length buf' ≡ length buf)
  unfolding print_int
  print_int_end man end buf end' buf' big fits h =
      elim (Bool-cases (leb cfg.conversion_float_bits 32)) [
        | inr e ↦ emit_int_end 20 man end buf end' buf' (rw e at h)
        | inl e ↦ elim (Bool-cases (ltb (cfg.conversion_buffer_size - 10) end)) [
          | inl t ↦ absurd (none-ne (rw (e, t) at h))
          | inr t ↦
              let ds = utoa_rev cfg man 10 0 in
              let ten : length ds ≤ 10 = length-utoa_rev_32 man (leb→le _ 32 e) fits in
              let room : end ≤ cfg.conversion_buffer_size - 10 = ground arith in
              subst (λ r. (r.0 ≤ cfg.conversion_buffer_size) × (length r.1 ≡ length buf))
                (eq_of_some (rw (e, t) at h))
                (omega (arith, ten, room, big), length-write ds buf end)
        ]
      ]
