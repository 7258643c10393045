-- ===== src/Float/Sci/Fits.antt =====
-- `npf_etoa_rev` as a whole: what it returns stays within the buffer.
use mathlib.Core.Path.{subst}
use nanoprintf.Base.{
  ℕ, ◌+◌, ◌-◌, ◌≤◌, ◌<◌, ◌≡◌, ap, sym, if_true, if_false, ◌∙◌, Bool, true, false, ◌&&◌, some,
  if◌then◌else◌, Bool-cases, inl, inr, arith, length, length-replicate, eq_of_some, replicate,
}
use nanoprintf.Base.Bytes.{Bytes}
use nanoprintf.Base.Ints.{pos, negsuc, pos_part, neg_part, ◌-ℤ◌, leb_ℤ, ltb_ℤ}
use nanoprintf.Config.{Config}
use nanoprintf.Spec.{FormatSpec}
use nanoprintf.Float.{exp_bias, exp_values}
use nanoprintf.Float.Sci.Round.{Digits, strip_zeros}
use nanoprintf.Float.Sci.Compose.{compose_sci}
use nanoprintf.Float.Sci.Settle.{IsRounded, strip_zeros-Stripped}
use nanoprintf.Float.Sci.Extent.{compose_sci_end, compose_fixed_end}
use nanoprintf.Float.Sci.{Mode, fixed_mode, mode_of, exponent_of, shortest, unpack, etoa_finite}
use nanoprintf.Float.Sci.Bounds.{
  IsMode, fixed_mode-IsMode, mode_of-IsMode, digits_of-IsRounded, exponent_of_small,
}

wanted_false :
    (cfg : Config) (fmode : Bool) (prec nsig_max : ℕ) (s : Digits)
    → fmode ≡ false
    → IsRounded cfg fmode prec nsig_max s
    → (cfg.conversion_buffer_size ≤ s.end + nsig_max) × (s.end < cfg.conversion_buffer_size)
wanted_false cfg true prec nsig_max s h i = cc
wanted_false cfg false prec nsig_max s h i = i.wanted

wanted_true :
    (cfg : Config) (fmode : Bool) (prec nsig_max : ℕ) (s : Digits)
    → fmode ≡ true
    → IsRounded cfg fmode prec nsig_max s
    → neg_part s.dec ≤ prec + pos_part s.dec
wanted_true cfg true prec nsig_max s h i = i.wanted
wanted_true cfg false prec nsig_max s h i = cc

module _ (cfg : Config) (big : 23 ≤ cfg.conversion_buffer_size)
    (wide : 8 ≤ cfg.conversion_float_bits) (narrow : cfg.conversion_float_bits ≤ 64) where
  -- The bound on a length, and the buffer kept.
  abbrev Holds : ℕ → Bytes → Type 0
  Holds o buf = (o ≤ cfg.conversion_buffer_size) × (length buf ≡ cfg.conversion_buffer_size)

  compose_sci-Holds :
      (fs : FormatSpec) (m : Mode) (pe : ℕ) (s0 s : Digits)
      → IsRounded cfg m.fmode m.prec m.nsig_max s0
      → length s.buf ≡ cfg.conversion_buffer_size
      → pe + 7 ≤ cfg.conversion_buffer_size
      → (let r = compose_sci cfg fs pe (exponent_of cfg s0) s in Holds r.0 r.1)
  compose_sci-Holds fs m pe s0 s i l room =
      let (a, k) =
        compose_sci_end cfg fs pe (exponent_of cfg s0) s
          (exponent_of_small cfg big wide narrow m.fmode m.prec m.nsig_max s0 i) l in
      (omega (arith, a, room), k)

  shortest-Holds :
      (fs : FormatSpec) (m : Mode) (bin : ℕ) (neg : Bool) (e : ℕ) (s0 : Digits) (o : ℕ)
      (buf : Bytes)
      → IsMode cfg m
      → m.g ≡ true
      → e ≤ 1023
      → IsRounded cfg m.fmode m.prec m.nsig_max s0
      → shortest cfg fs m bin neg e s0 ≡ some (o, buf)
      → Holds o buf
  unfolding shortest fixed_mode
  shortest-Holds fs m bin neg e s0 o buf i g le r h =
      let size = cfg.conversion_buffer_size in
      let x = exponent_of cfg s0 in
      let s = if m.strip then strip_zeros (size - s0.end) s0 else s0 in
      let kept = if m.strip then size - s.end else m.prec in
      let prec = pos_part (pos kept -ℤ pos 1 -ℤ x) in
      let k = strip_zeros-Stripped (size - s0.end) s0 in
      let l : length s.buf ≡ size = ground (arith, r.held, ap length k.held) in
      elim (Bool-cases (leb_ℤ (negsuc 3) x && ltb_ℤ x (pos m.prec))) [
        | inl t ↦
            let (s', q, r') =
              digits_of-IsRounded cfg big wide narrow (fixed_mode cfg prec m.strip) bin neg e s.buf
                (fixed_mode-IsMode cfg big wide narrow prec m.strip) le l in
            compose_fixed_end cfg fs prec s' o buf r'.wanted r'.held (rw (t, q) at h)
        | inr t ↦
            let (w, _) = wanted_false cfg m.fmode m.prec m.nsig_max s0 (i.g_fmode g) r in
            let room = i.room (i.g_fmode g) in
            let small : kept - 1 + 7 ≤ size =
              ground (arith, w, room, i.g_prec g, k.after, i.much) in
            subst (λ p. Holds p.0 p.1) (eq_of_some (rw t at h))
              (compose_sci-Holds fs m (kept - 1) s0 s r l small)
      ]

  pub exponent_range : (e0 man : ℕ) → e0 + 1 < exp_values cfg → (unpack cfg e0 man).2 ≤ 1023
  unfolding unpack exp_values exp_bias
  exponent_range e0 man h = ground arith

  -- With a conversion buffer of at least 23 bytes and a conversion type of 8 to 64 bits: for every
  -- finite number and every directive whose mode fits, where a text is composed, its length is at most
  -- the buffer's size, and the buffer still has that size.
  pub etoa_finite_end :
      (fs : FormatSpec) (m : Mode) (e0 man o : ℕ) (buf : Bytes)
      → e0 + 1 < exp_values cfg
      → mode_of cfg fs ≡ some m
      → etoa_finite cfg fs m e0 man ≡ some (o, buf)
      → (o ≤ cfg.conversion_buffer_size) × (length buf ≡ cfg.conversion_buffer_size)
  unfolding etoa_finite
  etoa_finite_end fs m e0 man o buf fin md h =
      let size = cfg.conversion_buffer_size in
      let (bin, neg, e) = unpack cfg e0 man in
      let le = exponent_range e0 man fin in
      let i = mode_of-IsMode cfg big wide narrow fs m md in
      let blank : Bytes = replicate size 0 in
      let (s, q, r) =
        digits_of-IsRounded cfg big wide narrow m bin neg e blank i le
          (length-replicate {A = ℕ} size 0) in
      let h' = rw q at h in
      elim (Bool-cases m.g) [
        | inl g ↦ shortest-Holds fs m bin neg e s o buf i g le r (sym (if_true _ _ g) ∙ h')
        | inr g ↦
            let h2 = sym (if_false _ _ g) ∙ h' in
            elim (Bool-cases m.fmode) [
              | inl f ↦
                  compose_fixed_end cfg fs m.prec s o buf
                    (wanted_true cfg m.fmode m.prec m.nsig_max s f r) r.held
                    (sym (if_true _ _ f) ∙ h2)
              | inr f ↦
                  subst (λ p. Holds p.0 p.1) (eq_of_some (sym (if_false _ _ f) ∙ h2))
                    (compose_sci-Holds fs m m.prec s s r r.held (omega (arith, i.kept g f)))
            ]
      ]
