-- ===== src/Float/Sci/Extent.antt =====
-- The text that `npf_etoa_rev` composes stays within the buffer.
use mathlib.Core.Path.{subst}
use nanoprintf.Base.{
  ℕ, zero, suc, ◌+◌, ◌-◌, ◌^◌, ◌≤◌, ◌<◌, ◌≡◌, refl, ◌∙◌, some, ltb, if◌then◌else◌, Bool-cases, inl,
  inr, arith, length, set, get_or, length-set, eq_of_some,
}
use nanoprintf.Base.Bytes.{Bytes}
use nanoprintf.Base.Ints.{ℤ, pos, negsuc, pos_part, neg_part, ◌+ℤ◌, ltb_ℤ}
use nanoprintf.Config.{Config}
use nanoprintf.Spec.{FormatSpec}
use nanoprintf.Utoa.{utoa_rev}
use nanoprintf.Utoa.Numeral.{utoa_rev-numeral}
use nanoprintf.Utoa.Value.{length-numeral}
use nanoprintf.Float.Bounds.{none-ne, length-write}
use nanoprintf.Float.Fixed.{write}
use nanoprintf.Float.Sci.Round.{Digits}
use nanoprintf.Float.Sci.Compose.{
  fill, copy, has_point, compose_fixed, copy_frac, put_exponent, compose_sci,
}

length-fill : (n o : ℕ) (buf : Bytes) → length (fill n o buf) ≡ length buf
unfolding fill
length-fill zero o buf = refl
length-fill (suc n) o buf = length-fill n (o + 1) (set buf o b'0') ∙ length-set buf o b'0'

length-copy : (n src o : ℕ) (buf : Bytes) → length (copy n src o buf) ≡ length buf
unfolding copy
length-copy zero src o buf = refl
length-copy (suc n) src o buf =
    length-copy n (src + 1) (o + 1) (set buf o (get_or buf src 0))
    ∙ length-set buf o (get_or buf src 0)

length-copy_frac :
    (size nsig pe left i o : ℕ) (buf : Bytes)
    → length (copy_frac size nsig pe left i o buf) ≡ length buf
unfolding copy_frac
length-copy_frac size nsig pe zero i o buf = refl
length-copy_frac size nsig pe (suc left) i o buf =
    let pad = pe - (nsig - 1) in
    let c = if ltb i pad then b'0' else get_or buf (size - nsig + (i - pad)) 0 in
    length-copy_frac size nsig pe left (i + 1) (o + 1) (set buf o c) ∙ length-set buf o c

-- The digits behind the point are at most as many as the exponent of the lowest is below 0.
pub frac_digits :
    (nsig prec : ℕ) (dec : ℤ)
    → neg_part dec ≤ prec + pos_part dec
    → nsig - pos_part (pos nsig +ℤ (if ltb_ℤ (pos 0) dec then pos 0 else dec)) ≤ prec
unfolding ◌+ℤ◌
frac_digits nsig prec (pos m) h = ground arith
frac_digits nsig prec (negsuc m) h = ground arith

module _ (cfg : Config) (fs : FormatSpec) where
  -- An exponent below 1000 has at most three digits.
  pub length_digits : (x : ℕ) → x < 10 ^ 3 → length (utoa_rev cfg x 10 0) ≤ 3
  length_digits x h =
      rw (utoa_rev-numeral cfg x 10 0 (inr (inl refl)) (omega (arith, h)))
        (length-numeral 10 0 64 2 x (inr (inl refl)) h)

  pub put_exponent_end :
      (x : ℤ) (buf : Bytes)
      → pos_part x + neg_part x < 10 ^ 3
      → ((put_exponent cfg fs x buf).0 ≤ 5) × (length (put_exponent cfg fs x buf).1 ≡ length buf)
  unfolding put_exponent
  put_exponent_end x buf h =
      let ds = utoa_rev cfg (pos_part x + neg_part x) 10 0 in
      let three : length ds ≤ 3 = length_digits (pos_part x + neg_part x) h in
      let l : length (write buf 0 ds) ≡ length buf = length-write cfg ds buf 0 in
      (
        ground (arith, three),
        length-set _ _ _
            ∙ length-set _ _ _
            ∙ ground (arith, l, length-set (write buf 0 ds) (length ds) b'0'),
      )

  pub compose_sci_end :
      (pe : ℕ) (x : ℤ) (s : Digits)
      → pos_part x + neg_part x < 10 ^ 3
      → length s.buf ≡ cfg.conversion_buffer_size
      → ((compose_sci cfg fs pe x s).0 ≤ pe + 7)
        × (length (compose_sci cfg fs pe x s).1 ≡ cfg.conversion_buffer_size)
  unfolding compose_sci
  compose_sci_end pe x s h l =
      let (five, m) = put_exponent_end x s.buf h in
      (
        ground (arith, five),
        length-set _ _ _ ∙ length-set _ _ _ ∙ length-copy_frac _ _ _ _ _ _ _ ∙ m ∙ l,
      )

  pub compose_fixed_end :
      (prec : ℕ) (s : Digits) (o : ℕ) (buf : Bytes)
      → neg_part s.dec ≤ prec + pos_part s.dec
      → length s.buf ≡ cfg.conversion_buffer_size
      → compose_fixed cfg fs prec s ≡ some (o, buf)
      → (o ≤ cfg.conversion_buffer_size) × (length buf ≡ cfg.conversion_buffer_size)
  unfolding compose_fixed
  compose_fixed_end prec s o buf w l h =
      let size = cfg.conversion_buffer_size in
      let nsig = size - s.end in
      let id = pos_part (pos nsig +ℤ (if ltb_ℤ (pos 0) s.dec then pos 0 else s.dec)) in
      let iz = pos_part s.dec in
      let fd = nsig - id in
      let dp : ℕ = if has_point cfg fs prec then 1 else 0 in
      let few : fd ≤ prec = frac_digits nsig prec s.dec w in
      elim (Bool-cases (ltb size (id + iz + dp + prec))) [
        | inl t ↦ absurd (none-ne (rw t at h))
        | inr t ↦
            let fits : id + iz + dp + prec ≤ size = ground arith in
            subst (λ r. (r.0 ≤ size) × (length r.1 ≡ size)) (eq_of_some (rw t at h))
              (
                omega (arith, fits, few),
                length-copy _ _ _ _
                    ∙ length-fill _ _ _
                    ∙ length-set _ _ _
                    ∙ length-copy _ _ _ _
                    ∙ length-fill _ _ _
                    ∙ l,
              )
      ]
