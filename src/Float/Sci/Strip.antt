-- ===== src/Float/Sci/Strip.antt =====
-- The zeros that 'g' strips.
use nanoprintf.Base.{
  ℕ, zero, suc, ◌+◌, ◌-◌, ◌<◌, ◌≡◌, ◌≢◌, refl, ap, sym, ◌∙◌, ◌⊎◌, inl, inr, ◌&&◌, ltb, ◌==◌, get_or,
  Bool-cases, arith,
}
use nanoprintf.Base.Bytes.{Bytes}
use nanoprintf.Base.Ints.{ℤ, pos, negsuc, pos_part, neg_part, ◌+ℤ◌, +ℤ_parts}
use nanoprintf.Config.{Config}
use nanoprintf.Float.Sci.{exponent_of}
use nanoprintf.Float.Sci.Round.{Digits, strip_zeros}

-- An integer is known by the difference of its parts.
parts_equal : (a b : ℤ) → pos_part a + neg_part b ≡ pos_part b + neg_part a → a ≡ b
parts_equal (pos m) (pos n) h = ap pos (omega (arith, h))
parts_equal (pos m) (negsuc n) h = absurd (omega (arith, h))
parts_equal (negsuc m) (pos n) h = absurd (omega (arith, h))
parts_equal (negsuc m) (negsuc n) h = ap negsuc (omega (arith, h))

-- `k` bytes from the index `i` on are '0'.
abbrev pub IsZeros : Bytes → ℕ → ℕ → Type 0
IsZeros buf i zero = Unit
IsZeros buf i (suc k) = (get_or buf i 0 ≡ b'0') × IsZeros buf (i + 1) k

-- `k` digits dropped from the end.
abbrev pub dropped : ℕ → Digits → Digits
dropped k s = record s { end = s.end + k; dec = s.dec +ℤ pos k }

dropped_none : (s : Digits) → s ≡ dropped 0 s
dropped_none s =
    let e : s.end ≡ s.end + 0 = omega arith in
    let d : s.dec ≡ s.dec +ℤ pos 0 =
      parts_equal s.dec (s.dec +ℤ pos 0) (omega (arith, +ℤ_parts s.dec (pos 0))) in
    rw (sym e, sym d) refl

dropped_more : (k : ℕ) (s : Digits) → dropped k (dropped 1 s) ≡ dropped (suc k) s
dropped_more k s =
    let e : s.end + 1 + k ≡ s.end + suc k = omega arith in
    let d : s.dec +ℤ pos 1 +ℤ pos k ≡ s.dec +ℤ pos (suc k) =
      parts_equal (s.dec +ℤ pos 1 +ℤ pos k) (s.dec +ℤ pos (suc k)) (
        omega (
          arith,
          +ℤ_parts s.dec (pos 1),
          +ℤ_parts (s.dec +ℤ pos 1) (pos k),
          +ℤ_parts s.dec (pos (suc k)),
        )) in
    rw (e, d) refl

-- What the loop leaves of `nsig` digits.
abbrev pub Left : ℕ → Digits → ℕ → Type 0
Left nsig s k =
    (k < nsig)
    × (strip_zeros nsig s ≡ dropped k s)
    × IsZeros s.buf s.end k
    × ((k + 1 ≡ nsig) ⊎ (get_or s.buf (s.end + k) 0 ≢ b'0'))

strip_zeros-Left : (nsig : ℕ) (s : Digits) → 0 < nsig → (k : ℕ) × Left nsig s k
unfolding strip_zeros
strip_zeros-Left zero s h = absurd (omega arith)
strip_zeros-Left (suc nsig) s h =
    let byte = get_or s.buf s.end 0 in
    elim (Bool-cases (ltb 1 (suc nsig) && byte == b'0')) [
      | inl t ↦
          let more : 0 < nsig = ground arith in
          let z : byte ≡ b'0' = ground arith in
          let (k, (l, e, zeros, last)) = strip_zeros-Left nsig (dropped 1 s) more in
          let same : s.end + 1 + k ≡ s.end + suc k = omega arith in
          (
            suc k,
            (
              omega (arith, l),
              rw (strip_zeros, t) (e ∙ dropped_more k s),
              (z, zeros),
              elim last [
                | inl one ↦ inl (omega (arith, one))
                | inr other ↦ inr (rw (sym same) other)
              ],
            ),
          )
      | inr t ↦
          let here : s.end + 0 ≡ s.end = omega arith in
          (
            0,
            (
              omega arith,
              rw (strip_zeros, t) (dropped_none s),
              tt,
              elim (Bool-cases (byte == b'0')) [
                | inl z ↦ inl (ground arith)
                | inr z ↦ inr (rw here (ground arith))
              ],
            ),
          )
    ]

-- With at least one digit in the buffer, 'g' drops zeros only, from the end, up to a digit that is
-- none or to the last digit that is left; the place of the end counts up with them, so the exponent of
-- the highest digit stays.
pub strip_zeros_lem :
    (cfg : Config) (s : Digits)
    → s.end < cfg.conversion_buffer_size
    → let nsig = cfg.conversion_buffer_size - s.end in
      ((k : ℕ) × Left nsig s k) × (exponent_of cfg (strip_zeros nsig s) ≡ exponent_of cfg s)
unfolding exponent_of
strip_zeros_lem cfg s h =
    let size = cfg.conversion_buffer_size in
    let (k, (l, e, zeros, last)) = strip_zeros-Left (size - s.end) s (omega (arith, h)) in
    let at = s.dec +ℤ pos k in
    let same : at +ℤ pos (size - (s.end + k)) ≡ s.dec +ℤ pos (size - s.end) =
      parts_equal (at +ℤ pos (size - (s.end + k))) (s.dec +ℤ pos (size - s.end)) (
        omega (
          arith,
          l,
          +ℤ_parts s.dec (pos k),
          +ℤ_parts at (pos (size - (s.end + k))),
          +ℤ_parts s.dec (pos (size - s.end)),
        )) in
    ((k, (l, e, zeros, last)), rw (e, same) refl)
