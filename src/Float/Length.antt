-- ===== src/Float/Length.antt =====
-- The length that `npf_ftoa_rev` returns.
use mathlib.Core.Path.{subst}
use nanoprintf.Base.{
  ℕ, zero, suc, ◌+◌, ◌-◌, ◌*◌, ◌/◌, ◌%◌, ◌^◌, ◌≤◌, ◌≡◌, refl, ◌∙◌, Bool, true, false, ◌&&◌, ◌||◌,
  not, some, leb, ltb, ◌==◌, if◌then◌else◌, length, set, get_or, replicate, length-replicate,
  length-set, Bool-cases, inl, inr, arith, eq_of_some, >>=-eq-some,
}
use nanoprintf.Base.Bytes.{Bytes}
use nanoprintf.Config.{Config}
use nanoprintf.Spec.{FormatSpec}
use nanoprintf.Float.{man_bits, shift_bits}
use nanoprintf.Float.Fixed.{
  Scaling, scale_frac, print_frac, frac_part, round_up, print_int, whole_part, finish, ftoa_finite,
}
use nanoprintf.Float.Bounds.{none-ne, pow-pos, IsSound, int_part-IsSound, print_int_end}

scale_frac-length :
    (mb k man carry digit dec_f : ℕ) (buf : Bytes)
    → length (scale_frac mb k man carry digit dec_f buf).buf ≡ length buf
unfolding scale_frac
scale_frac-length mb zero man carry digit dec_f buf = refl
scale_frac-length mb (suc k) man carry digit dec_f buf =
    let man' = if carry == 0 then man * 5 % 2 ^ mb else (man * 5 % 2 ^ mb + 3) % 2 ^ mb in
    ground (
      arith,
      scale_frac-length mb k (man / 2) (man % 2) digit dec_f buf,
      scale_frac-length mb k man' 0 digit (dec_f - 1) (set buf (dec_f - 1) b'0'),
      scale_frac-length mb k man' 0 (digit + 1) dec_f buf,
      length-set buf (dec_f - 1) b'0',
    )

print_frac-length :
    (mb dec_f man : ℕ) (buf : Bytes) → length (print_frac mb dec_f man buf).1 ≡ length buf
unfolding print_frac
print_frac-length mb zero man buf = refl
print_frac-length mb (suc dec_f) man buf =
    let buf' = set buf dec_f (b'0' + man / 2 ^ (mb - 4)) in
    let man' = man % 2 ^ (mb - 4) in
    ground (
      arith,
      print_frac-length mb dec_f (man' * 10 % 2 ^ mb) buf',
      length-set buf dec_f (b'0' + man / 2 ^ (mb - 4)),
    )

module _ (cfg : Config) where
  frac_part-length :
      (prec bin : ℕ) (neg : Bool) (e : ℕ) (buf : Bytes)
      → length (frac_part cfg prec bin neg e buf).1 ≡ length buf
  unfolding frac_part
  frac_part-length prec bin neg e buf =
      print_frac-length cfg.conversion_float_bits _ _ _
      ∙ scale_frac-length cfg.conversion_float_bits (if neg then 3 + e else 4) _ _ 0 prec buf

  -- The cursor and the buffer after a round that may write a leading '0'.
  abbrev grown : ℕ → ℕ → ℕ
  grown dec end = if leb end dec then end + 1 else end

  abbrev grown_buf : ℕ → ℕ → Bytes → Bytes
  grown_buf dec end buf = if leb end dec then set buf end b'0' else buf

  length-grown_buf : (dec end : ℕ) (buf : Bytes) → length (grown_buf dec end buf) ≡ length buf
  length-grown_buf dec end buf = ground (arith, length-set buf end b'0')

  round_up_end :
      (fuel dec end : ℕ) (buf : Bytes) (end' : ℕ) (buf' : Bytes)
      → end ≤ cfg.conversion_buffer_size
      → round_up cfg fuel dec end buf ≡ some (end', buf')
      → (end ≤ end') × (end' ≤ cfg.conversion_buffer_size) × (length buf' ≡ length buf)
  unfolding round_up
  round_up_end zero dec end buf end' buf' d h = absurd (none-ne h)
  round_up_end (suc fuel) dec end buf end' buf' d h =
      let end1 = grown dec end in
      let buf1 = grown_buf dec end buf in
      let c = get_or buf1 dec 0 in
      let l1 : length buf1 ≡ length buf = length-grown_buf dec end buf in
      elim (Bool-cases (leb cfg.conversion_buffer_size dec)) [
        | inl t ↦ absurd (none-ne (rw t at h))
        | inr t ↦
            let lo : end ≤ end1 = ground arith in
            let hi : end1 ≤ cfg.conversion_buffer_size = ground arith in
            elim (Bool-cases (c == b'.')) [
              | inl p ↦
                  let (x, y, z) =
                    round_up_end fuel (dec + 1) end1 buf1 end' buf' hi (rw (t, p, round_up) at h) in
                  (omega (arith, lo, x), y, z ∙ l1)
              | inr p ↦ elim (Bool-cases (c == b'9')) [
                | inl n ↦
                    let (x, y, z) =
                      round_up_end fuel (dec + 1) end1 (set buf1 dec b'0') end' buf' hi
                        (rw (t, p, n, round_up) at h) in
                    (omega (arith, lo, x), y, z ∙ length-set buf1 dec b'0' ∙ l1)
                | inr n ↦
                    subst
                      (λ r.
                        (end ≤ r.0)
                        × (r.0 ≤ cfg.conversion_buffer_size)
                        × (length r.1 ≡ length buf))
                      (eq_of_some (rw (t, p, n) at h)) (lo, hi, length-set buf1 dec (c + 1) ∙ l1)
              ]
            ]
      ]

  whole_part-IsSound :
      (bin : ℕ) (neg : Bool) (e dec : ℕ) (buf : Bytes) (s : Scaling)
      → dec ≤ cfg.conversion_buffer_size
      → length buf ≡ cfg.conversion_buffer_size
      → whole_part cfg bin neg e dec buf ≡ some s
      → IsSound cfg s
  unfolding whole_part
  whole_part-IsSound bin true e dec buf s d l h =
      subst (IsSound cfg) (eq_of_some h)
        (record { man = pow-pos cfg.conversion_float_bits; dec = d; held = l })
  whole_part-IsSound bin false e dec buf s d l h = int_part-IsSound cfg bin e dec buf s d l h

  finish_end :
      (prec bin : ℕ) (neg : Bool) (e : ℕ) (s : Scaling) (end : ℕ) (buf : Bytes) (end' : ℕ)
      (buf' : Bytes)
      → end ≤ cfg.conversion_buffer_size
      → finish cfg prec bin neg e s end buf ≡ some (end', buf')
      → (end ≤ end') × (end' ≤ cfg.conversion_buffer_size) × (length buf' ≡ length buf)
  unfolding finish
  finish_end prec bin neg e s end buf end' buf' d h =
      let fraction = neg || (ltb e (man_bits cfg) && leb e (shift_bits cfg)) in
      let r : ℕ × Bytes =
        if fraction
        then frac_part cfg prec bin neg e buf
        else (s.carry, (print_frac cfg.conversion_float_bits prec 0 buf).1) in
      let l : length r.1 ≡ length buf = ground (
        arith,
        frac_part-length prec bin neg e buf,
        print_frac-length cfg.conversion_float_bits prec 0 buf,
      ) in
      elim (Bool-cases (r.0 == 0)) [
        | inl z ↦
            subst
              (λ q. (end ≤ q.0) × (q.0 ≤ cfg.conversion_buffer_size) × (length q.1 ≡ length buf))
              (eq_of_some (rw z at h)) (omega arith, d, l)
        | inr z ↦
            let (x, y, k) =
              round_up_end (cfg.conversion_buffer_size + 1) (if fraction then 0 else s.dec) end r.1
                end' buf' d (rw z at h) in
            (x, y, k ∙ l)
      ]

  -- With a conversion buffer of at least 23 bytes and a precision that leaves room for two: where the
  -- fixed-point conversion of a finite number succeeds, the length that it returns is at most the
  -- buffer's size, and the buffer still has that size.
  pub ftoa_finite_end :
      (fs : FormatSpec) (prec e0 man end : ℕ) (buf : Bytes)
      → 23 ≤ cfg.conversion_buffer_size
      → prec ≤ cfg.conversion_buffer_size - 2
      → ftoa_finite cfg fs prec e0 man ≡ some (end, buf)
      → (end ≤ cfg.conversion_buffer_size) × (length buf ≡ cfg.conversion_buffer_size)
  unfolding ftoa_finite
  ftoa_finite_end fs prec e0 man end buf big small h =
      let point = not (prec == 0) || (cfg.alt_forms && not (fs.alt_form == 0)) in
      let blank = replicate cfg.conversion_buffer_size 0 in
      let buf0 = if point then set blank prec b'.' else blank in
      let full0 : length blank ≡ cfg.conversion_buffer_size =
        length-replicate {A = ℕ} cfg.conversion_buffer_size 0 in
      let full1 : length buf0 ≡ cfg.conversion_buffer_size =
        ground (arith, full0, length-set blank prec b'.') in
      let dec0 : (if point then prec + 1 else prec) ≤ cfg.conversion_buffer_size = ground arith in
      let (s, e1, h1) = >>=-eq-some (whole_part cfg _ _ _ _ _) _ h in
      let ((end1, buf1), e2, h2) = >>=-eq-some (print_int cfg s.man s.dec s.buf) _ h1 in
      let i = whole_part-IsSound _ _ _ _ _ s dec0 full1 e1 in
      let (x, l) = print_int_end cfg s.man s.dec s.buf end1 buf1 big i.man e2 in
      let (_, y, k) = finish_end prec _ _ _ s end1 buf1 end buf x h2 in (y, k ∙ l ∙ i.held)
