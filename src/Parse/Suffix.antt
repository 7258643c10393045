-- ===== src/Parse/Suffix.antt =====
-- The parser stays inside the string: what it passes holds no terminator.
use nanoprintf.Base.{
  ℕ, ◌+◌, ◌<◌, ◌≡◌, ◌≢◌, refl, true, false, some, none, [], ◌∷◌, ◌++◌, arith, All, All-append, Bool,
  Bool-cases, Option-cases, inl, inr, ◌≤◌, length,
}
use mathlib.Core.List.{append_assoc}
use nanoprintf.Base.Bytes.{Bytes, peek, advance}
use nanoprintf.Config.{Config}
use nanoprintf.Spec.{LengthModifier, ConvSpec, FormatSpec, index}
use nanoprintf.Parse.{
  fmt_digits, fmt_num, flag, flags, parse_width, parse_point, parse_prec, fixed_digits,
  plain_modifier, parse_modifier, conversion, parse_conversion, parse_format_spec_end, clear_flags,
  is_digit,
}

-- `cur` lies in the string `format`: the bytes passed are not the terminator.
pub data Within (format : Bytes) : Bytes → Type 0 where
  here : Within format format
  past : {c : ℕ} {cs : Bytes} → Within format (c ∷ cs) → c ≢ 0 → Within format cs

pub Within-advance :
    {format : Bytes} (cur : Bytes) → Within format cur → peek cur ≢ 0 → Within format (advance cur)
Within-advance [] w h = absurd (h refl)
Within-advance (c ∷ cs) w h = past w h

Within-advance_twice :
    {format : Bytes} (cur : Bytes)
    → Within format cur
    → peek cur ≢ 0
    → peek (advance cur) ≢ 0
    → Within format (advance (advance cur))
Within-advance_twice cur w h k = Within-advance (advance cur) (Within-advance cur w h) k

pub Within-trans : {f g h : Bytes} → Within f g → Within g h → Within f h
Within-trans w here = w
Within-trans w (past v n) = past (Within-trans w v) n

-- What was passed, written out.
pub Within-append :
    {format cur : Bytes}
    → Within format cur
    → (used : Bytes) × (format ≡ used ++ cur) × All (λ c. c ≢ 0) used
Within-append here = ([], refl, tt)
Within-append (past {c = c} {cs = cs} w n) =
    let (used, e, h) = Within-append w in
    (
      used ++ c ∷ [],
      rw (append_assoc used (c ∷ []) cs) e,
      All-append (λ c. c ≢ 0) used (c ∷ []) h (n, tt),
    )

is_digit-nonzero : (c : ℕ) → is_digit c ≡ true → c ≢ 0
unfolding is_digit
is_digit-nonzero c h = ground arith

flag-nonzero : (cfg : Config) (c : ℕ) (out out' : FormatSpec) → flag cfg c out ≡ some out' → c ≢ 0
unfolding flag
flag-nonzero cfg c out out' h = ground arith

-- The terminator is no conversion.
pub conversion-zero : (cfg : Config) → conversion cfg 0 ≡ ConvSpec.none
unfolding conversion
conversion-zero cfg = refl

conversion-nonzero : (cfg : Config) (c : ℕ) → conversion cfg c ≢ ConvSpec.none → c ≢ 0
conversion-nonzero cfg c h e = h (rw e (conversion-zero cfg))

module _ {format : Bytes} where
  fmt_digits-Within : (cur : Bytes) (n : ℕ) → Within format cur → Within format (fmt_digits n cur).1
  unfolding fmt_digits
  fmt_digits-Within [] n w = w
  fmt_digits-Within (c ∷ cs) n w = elim (Bool-cases (is_digit c)) [
    | inl d ↦ rw d (fmt_digits-Within cs _ (past w (is_digit-nonzero c d)))
    | inr d ↦ rw d w
  ]

  fmt_num-Within : (cur : Bytes) → Within format cur → Within format (fmt_num cur).1
  unfolding fmt_num
  fmt_num-Within cur w = fmt_digits-Within cur 0 w

  flags-Within :
      (cfg : Config) (cur : Bytes) (out : FormatSpec)
      → Within format cur
      → Within format (flags cfg cur out).1
  unfolding flags
  flags-Within cfg [] out w = w
  flags-Within cfg (c ∷ cs) out w = elim (Option-cases (flag cfg c out)) [
    | inl e ↦ rw (e, flags) w
    | inr (out', e) ↦
        rw (e, flags) (flags-Within cfg cs out' (past w (flag-nonzero cfg c out out' e)))
  ]

  pub parse_width-Within :
      (cfg : Config) (cur : Bytes) (out : FormatSpec)
      → Within format cur
      → Within format (parse_width cfg out cur).1
  unfolding parse_width
  parse_width-Within cfg cur out w = ground (arith, Within-advance cur w, fmt_num-Within cur w)

  parse_point-Within :
      (cur : Bytes) (out : FormatSpec) → Within format cur → Within format (parse_point out cur).1
  unfolding parse_point
  parse_point-Within cur out w =
      ground (arith, Within-advance cur w, fmt_num-Within cur w, fmt_num-Within (advance cur))

  pub parse_prec-Within :
      (cfg : Config) (cur : Bytes) (out : FormatSpec)
      → Within format cur
      → Within format (parse_prec cfg out cur).1
  unfolding parse_prec
  parse_prec-Within cfg cur out w =
      ground (arith, Within-advance cur w, parse_point-Within (advance cur) out)

  fixed_digits-Within :
      (cfg : Config) (fast : Bool) (cur : Bytes) (m : LengthModifier) (cur' : Bytes)
      → Within format cur
      → fixed_digits cfg fast cur ≡ some (m, cur')
      → Within format cur'
  unfolding fixed_digits
  fixed_digits-Within cfg fast cur m cur' w h =
      ground (arith, Within-advance cur w, Within-advance_twice cur w)

  plain_modifier-Within :
      (cfg : Config) (cur : Bytes) → Within format cur → Within format (plain_modifier cfg cur).1
  unfolding plain_modifier
  plain_modifier-Within cfg cur w = ground (arith, Within-advance cur w, Within-advance_twice cur w)

  pub parse_modifier-Within :
      (cfg : Config) (cur : Bytes) (m : LengthModifier) (cur' : Bytes)
      → Within format cur
      → parse_modifier cfg cur ≡ some (m, cur')
      → Within format cur'
  unfolding parse_modifier
  parse_modifier-Within cfg cur m cur' w h = ground (
    arith,
    Within-advance cur w,
    Within-advance_twice cur w,
    plain_modifier-Within cfg cur w,
    fixed_digits-Within cfg true (advance (advance cur)) m cur',
    fixed_digits-Within cfg false (advance cur) m cur',
  )

  pub parse_conversion-Within :
      (cfg : Config) (cur : Bytes) (out : FormatSpec) {out' : FormatSpec} {cur' : Bytes}
      → Within format cur
      → parse_conversion cfg out cur ≡ some (out', cur')
      → Within format cur' × (length cur ≡ length cur' + 1)
  unfolding parse_conversion index
  parse_conversion-Within cfg [] out w h = ground (arith, conversion-zero cfg)
  parse_conversion-Within cfg (c ∷ cs) out w h =
      ground (arith, conversion-nonzero cfg c, Within-advance (c ∷ cs) w)

pub none-ne : {A : Type 0} {a : A} → ¬ (none ≡ some a)
none-ne h = cc

pub Within-length : {f g : Bytes} → Within f g → length g ≤ length f
Within-length here = omega arith
Within-length (past w n) = omega (arith, Within-length w)

-- A directive that is accepted ends inside the string: none of the bytes passed is the terminator,
-- and at least one byte behind the '%' was passed.
pub parse_format_spec_end-Within :
    (cfg : Config) (cs : Bytes) (out : FormatSpec) {out' : FormatSpec} {cur : Bytes}
    → parse_format_spec_end cfg (b'%' ∷ cs) out ≡ some (out', cur)
    → Within cs cur × (length cur < length cs)
unfolding parse_format_spec_end
parse_format_spec_end-Within cfg cs out {out'} {cur} h =
    let (out1, cur1) = flags cfg cs (clear_flags cfg out) in
    let (out2, cur2) = parse_width cfg out1 cur1 in
    let (out3, cur3) = parse_prec cfg out2 cur2 in
    let w : Within cs cur3 =
      parse_prec-Within cfg cur2 out2
        (parse_width-Within cfg cur1 out1 (flags-Within cfg cs (clear_flags cfg out) here)) in
    elim (Option-cases (parse_modifier cfg cur3)) [
      | inl e ↦ absurd (none-ne (rw (e, parse_format_spec_end) at h))
      | inr ((m, cur4), e) ↦
          let v : Within cs cur4 = parse_modifier-Within cfg cur3 m cur4 w e in
          let (u, l) =
            parse_conversion-Within cfg cur4 (record out3 { length_modifier = m }) v
              (rw (e, parse_format_spec_end) at h) in
          (u, omega (arith, Within-length v))
    ]
