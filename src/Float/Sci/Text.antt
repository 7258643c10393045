-- ===== src/Float/Sci/Text.antt =====
-- The text that the 'e' layout of `npf_etoa_rev` leaves in the buffer whose top holds the digits.
use mathlib.Core.Path.{subst}
use mathlib.Core.List.{append_assoc}
use nanoprintf.Base.{
  ℕ, ◌+◌, ◌-◌, ◌≤◌, ◌<◌, ◌≡◌, refl, sym, ◌∙◌, [], ◌∷◌, ◌++◌, if◌then◌else◌, Bool-cases, inl, inr,
  arith, length, set, get_or, take, drop, replicate, length-append,
}
use nanoprintf.Base.Bytes.{Bytes}
use nanoprintf.Base.Written.{written, get_or-written, take-written}
use nanoprintf.Base.Ints.{ℤ, pos_part, neg_part}
use nanoprintf.Config.{Config}
use nanoprintf.Spec.{FormatSpec}
use nanoprintf.Utoa.{utoa_rev}
use nanoprintf.Float.Sci.Round.{Digits}
use nanoprintf.Float.Sci.Compose.{has_point, copy_frac, compose_sci}
use nanoprintf.Base.Written.{set-set}
use nanoprintf.Float.Sci.Layout.{
  length_snoc, set_next, copy_frac-written, frac_text, length-frac_text, frac_text_lem,
  exponent_text, length-exponent_text, put_exponent-written, point_text,
}

take_of : (k : ℕ) (out mem buf : Bytes) → buf ≡ written out mem → k ≡ length out → take k buf ≡ out
take_of k out mem buf e e' = rw (e, e') (take-written out mem)

module _ (cfg : Config) (fs : FormatSpec) where
  -- "d.<frac>e<sign><exp>" of the digits at the top of the buffer, reversed.
  abbrev pub sci_text : ℕ → ℤ → Digits → Bytes
  sci_text pe x s =
      let nsig = length s.buf - s.end in
      exponent_text cfg fs x
      ++ ((replicate (pe + 1 - nsig) b'0' ++ take (nsig - 1) (drop s.end s.buf))
          ++ (point_text cfg fs pe ++ get_or s.buf (length s.buf - 1) 0 ∷ []))

  -- The point and the highest digit, behind the fraction.
  lead-written :
      (pe size : ℕ) (out mem buf : Bytes) (o : ℕ)
      → length mem ≡ size
      → buf ≡ written out mem
      → o ≡ length out
      → o + 2 < length mem
      → (let o3 = if has_point cfg fs pe then o + 1 else o in
          let buf2 = set buf o b'.' in
          take (o3 + 1) (set buf2 o3 (get_or buf2 (size - 1) 0))
          ≡ out ++ (point_text cfg fs pe ++ get_or mem (length mem - 1) 0 ∷ []))
  lead-written pe size out mem buf o l e e' h =
      let lead = get_or mem (length mem - 1) 0 in
      let w = set_next out mem buf o b'.' e e' (omega (arith, h)) in
      let g : get_or (set buf o b'.') (size - 1) 0 ≡ lead =
        rw (w, sym l)
          (get_or-written (out ++ b'.' ∷ []) mem (length mem - 1) 0
            (omega (arith, h, e', length_snoc out b'.'))) in
      let k = length_snoc out b'.' in
      elim (Bool-cases (has_point cfg fs pe)) [
        | inl t ↦
            let w2 =
              set_next (out ++ b'.' ∷ []) mem (set buf o b'.') (o + 1) lead w (omega (arith, e', k))
                (omega (arith, h)) in
            rw (t, g)
              (take_of (o + 1 + 1) ((out ++ b'.' ∷ []) ++ lead ∷ []) mem _ w2
                  (omega (arith, e', k, length_snoc (out ++ b'.' ∷ []) lead))
                ∙ append_assoc out (b'.' ∷ []) (lead ∷ []))
        | inr t ↦
            let w2 = set_next out mem buf o lead e e' (omega (arith, h)) in
            rw (t, g, set-set)
              (take_of (o + 1) (out ++ lead ∷ []) mem _ w2
                (omega (arith, e', length_snoc out lead)))
      ]

  pub compose_sci-layout :
      (pe : ℕ) (x : ℤ) (s : Digits)
      → length (utoa_rev cfg (pos_part x + neg_part x) 10 0) ≤ 3
      → length s.buf ≡ cfg.conversion_buffer_size
      → s.end < cfg.conversion_buffer_size
      → cfg.conversion_buffer_size ≤ s.end + (pe + 1)
      → pe + 8 ≤ cfg.conversion_buffer_size
      → (let r = compose_sci cfg fs pe x s in take r.0 r.1 ≡ sci_text pe x s)
  unfolding compose_sci
  compose_sci-layout pe x s three l lt few room =
      let mem = s.buf in
      let nsig = length mem - s.end in
      let t = exponent_text cfg fs x in
      let f = frac_text nsig pe mem pe 0 in
      let (e0, e1) = put_exponent-written cfg fs x mem three (omega (arith, l, room)) in
      let five : length t ≤ 5 = length-exponent_text cfg fs x three in
      let c =
        copy_frac-written nsig pe mem pe 0 t (omega arith) (omega (arith, l, five, room))
          (omega (arith, l, five, room, lt, few)) in
      let both =
        frac_text_lem nsig pe mem (omega (arith, l, lt)) (omega (arith, l, few)) (omega arith) in
      let back : length mem - nsig ≡ s.end = omega (arith, l, lt) in
      let o : length t + pe ≡ length (t ++ f) =
        omega (arith, length-append t f, length-frac_text nsig pe mem pe 0) in
      let c' =
        subst
          (λ n. copy_frac n (n - s.end) pe pe 0 (length t) (written t mem) ≡ written (t ++ f) mem) l
          c in
      rw (e0, e1)
        (lead-written pe cfg.conversion_buffer_size (t ++ f) mem _ (length t + pe) l c' o
            (omega (arith, l, five, room))
          ∙ (append_assoc t f _ ∙ rw (both, back) refl))
