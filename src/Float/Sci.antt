-- ===== src/Float/Sci.antt =====
-- `npf_etoa_rev`, the 'e' and 'g' conversions, which is also the 'f' conversion of a build with one of
-- them. The parts of the function are functions of their own; `none` is `goto exit` while `sp` is ERR.
-- The buffer is the list of its NPF_CBUF bytes.
mod Tests
pub mod Whole
pub mod Tail
pub mod Round
pub mod Compose
pub mod Scale
pub mod Fall
pub mod Place
pub mod Stop
pub mod Reach
pub mod Settle
pub mod Strip
pub mod Extent
pub mod Bounds
pub mod Fits
pub mod Outcome
pub mod Layout
pub mod Text
use nanoprintf.Base.{
  ℕ, ◌+◌, ◌-◌, ◌/◌, ◌%◌, ◌^◌, Bool, true, false, ◌&&◌, not, Option, none, some, ltb, ◌==◌,
  if◌then◌else◌, ◌>>=◌, take, replicate,
}
use nanoprintf.Base.Bytes.{Bytes}
use nanoprintf.Base.Ints.{ℤ, pos, negsuc, pos_part, ltb_ℤ, leb_ℤ, ◌+ℤ◌, ◌-ℤ◌}
use nanoprintf.Config.{Config}
use nanoprintf.Spec.{ConvSpec, FormatSpec, index}
use nanoprintf.Float.{
  man_bits, exp_bias, exp_values, dec_prec, Converted, number, Special, ftoa_special,
}
use nanoprintf.Float.Sci.Tail.{generate}
use nanoprintf.Float.Sci.Round.{Digits, rounded, strip_zeros}
use nanoprintf.Float.Sci.Compose.{compose_fixed, compose_sci}

-- The locals that say which digits are wanted. INT_MIN as `dstop` is never reached.
pub record Mode : Type 0 where
  pub prec : ℕ
  pub nsig_max : ℕ
  pub fmode : Bool
  pub g : Bool
  pub strip : Bool
  pub dstop : ℤ

-- What 'f' sets: digits down to 10^-prec and one more.
unfoldable pub fixed_mode : Config → ℕ → Bool → Mode
fixed_mode cfg prec strip = record {
  prec = prec;
  nsig_max = cfg.conversion_buffer_size - 1;
  fmode = true;
  g = false;
  strip = strip;
  dstop = negsuc prec;
}

-- The mode of a directive, whose precision is not negative; `none` where it cannot fit the buffer.
unfoldable pub mode_of : Config → FormatSpec → Option Mode
mode_of cfg fs =
    let size = cfg.conversion_buffer_size in
    let prec = dec_prec cfg fs in
    let fmode = index fs.conv_spec == index ConvSpec.float_dec in
    let g =
      cfg.float_shortest
      && (if cfg.float_sci
          then index fs.conv_spec == index ConvSpec.float_shortest
          else not fmode) in
    let strip = not (cfg.alt_forms && not (fs.alt_form == 0)) in
    let gprec = if prec == 0 then 1 else prec in
    let nsig_max = if g then gprec else prec + 1 in
    if ltb (size - 2) prec
    then none
    else if fmode
    then some (fixed_mode cfg prec strip)
    else if ltb (size - 7) nsig_max
    then none
    else some (record {
      prec = if g then gprec else prec;
      nsig_max = nsig_max;
      fmode = false;
      g = g;
      strip = strip;
      dstop = negsuc (2 ^ 31 - 1);
    })

-- The digits are generated and rounded.
unfoldable pub digits_of : Config → Mode → ℕ → Bool → ℕ → Bytes → Option Digits
digits_of cfg m bin neg e buf = generate cfg m.fmode m.nsig_max m.dstop bin neg e buf >>= λ d.
    some (rounded cfg m.fmode m.prec m.nsig_max d)

-- The base-10 exponent of the highest digit.
unfoldable pub exponent_of : Config → Digits → ℤ
exponent_of cfg s = s.dec +ℤ pos (cfg.conversion_buffer_size - s.end) -ℤ pos 1

-- The layout of 'g' for the digits of the first pass: 'f' of digits generated anew, or 'e'.
unfoldable pub shortest : Config → FormatSpec → Mode → ℕ → Bool → ℕ → Digits → Option (ℕ × Bytes)
shortest cfg fs m bin neg e s0 =
    let size = cfg.conversion_buffer_size in
    let x = exponent_of cfg s0 in
    let s = if m.strip then strip_zeros (size - s0.end) s0 else s0 in
    let kept = if m.strip then size - s.end else m.prec in
    let prec = pos_part (pos kept -ℤ pos 1 -ℤ x) in
    if leb_ℤ (negsuc 3) x && ltb_ℤ x (pos m.prec)
    then digits_of cfg (fixed_mode cfg prec m.strip) bin neg e s.buf >>= compose_fixed cfg fs prec
    else some (compose_sci cfg fs (kept - 1) x s)

-- The significand of a finite number, whether its exponent is negative, and the magnitude of that.
unfoldable pub unpack : Config → ℕ → ℕ → ℕ × Bool × ℕ
unpack cfg e0 man =
    let e1 = if e0 == 0 then 1 else e0 in
    let neg = ltb e1 (exp_bias cfg) in
    (
      if e0 == 0 then man else man + 2 ^ man_bits cfg,
      neg,
      if neg then exp_bias cfg - e1 else e1 - exp_bias cfg,
    )

-- The conversion of a finite number whose exponent field is `e0`.
unfoldable pub etoa_finite : Config → FormatSpec → Mode → ℕ → ℕ → Option (ℕ × Bytes)
etoa_finite cfg fs m e0 man =
    let (bin, neg, e) = unpack cfg e0 man in
    digits_of cfg m bin neg e (replicate cfg.conversion_buffer_size 0) >>= λ s.
    if m.g
    then shortest cfg fs m bin neg e s
    else if m.fmode
    then compose_fixed cfg fs m.prec s
    else some (compose_sci cfg fs m.prec (exponent_of cfg s) s)

-- `npf_etoa_rev`
unfoldable pub etoa_rev : Config → FormatSpec → ℕ → Converted
etoa_rev cfg fs f =
    let e0 = f / 2 ^ man_bits cfg % exp_values cfg in
    let man = f % 2 ^ man_bits cfg in
    if (e0 + 1) % exp_values cfg == 0
    then ftoa_special fs.case_adjust (if man == 0 then Special.inf else Special.nan)
    else elim (mode_of cfg fs >>= λ m. etoa_finite cfg fs m e0 man) [
      | none ↦ ftoa_special fs.case_adjust Special.err
      | some (o, buf) ↦ number (take o buf)
    ]
