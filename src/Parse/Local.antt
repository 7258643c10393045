-- ===== src/Parse/Local.antt =====
-- The parser does not look past the directive: what stands behind one that is accepted does not
-- change what is read.
use nanoprintf.Base.{
  ℕ, ◌+◌, ap, ◌∙◌, Option, ◌&&◌, eq_of_some, ◌<◌, ◌≤◌, ◌≡◌, refl, true, false, some, [], ◌∷◌, ◌++◌,
  arith, Bool, Option-cases, Bool-cases, inl, inr, length, ◌==◌,
}
use nanoprintf.Base.Bytes.{Bytes}
use nanoprintf.Config.{Config}
use nanoprintf.Spec.{LengthModifier, FormatSpec, index}
use nanoprintf.Parse.{
  fmt_digits, fmt_num, flag, flags, parse_width, parse_point, parse_prec, fixed_digits,
  plain_modifier, parse_modifier, conversion, parse_conversion, parse_format_spec_end, clear_flags,
  is_digit,
}
use nanoprintf.Parse.Fresh.{tail}
use nanoprintf.Parse.Suffix.{
  parse_conversion-Within, parse_modifier-Within, parse_prec-Within, parse_width-Within,
  Within-length, here, conversion-zero, none-ne,
}

-- The stages from the precision and from the width on.
abbrev prec_tail : Config → FormatSpec → Bytes → Option (FormatSpec × Bytes)
prec_tail cfg out cur = let (out', cur') = parse_prec cfg out cur in tail cfg out' cur'

abbrev width_tail : Config → FormatSpec → Bytes → Option (FormatSpec × Bytes)
width_tail cfg out cur = let (out', cur') = parse_width cfg out cur in prec_tail cfg out' cur'

module _ (bs : Bytes) where
  fmt_digits-append :
      (cur : Bytes) (n : ℕ)
      → 0 < length (fmt_digits n cur).1
      → fmt_digits n (cur ++ bs) ≡ ((fmt_digits n cur).0, (fmt_digits n cur).1 ++ bs)
  unfolding fmt_digits
  fmt_digits-append [] n h = absurd (omega (arith, h))
  fmt_digits-append (c ∷ cs) n h = elim (Bool-cases (is_digit c)) [
    | inl d ↦ rw d (fmt_digits-append cs _ (rw d at h))
    | inr d ↦ rw d refl
  ]

  fmt_num-append :
      (cur : Bytes)
      → 0 < length (fmt_num cur).1
      → fmt_num (cur ++ bs) ≡ ((fmt_num cur).0, (fmt_num cur).1 ++ bs)
  unfolding fmt_num
  fmt_num-append cur h = fmt_digits-append cur 0 h

  flags-append :
      (cfg : Config) (cur : Bytes) (out : FormatSpec)
      → 0 < length (flags cfg cur out).1
      → flags cfg (cur ++ bs) out ≡ ((flags cfg cur out).0, (flags cfg cur out).1 ++ bs)
  unfolding flags
  flags-append cfg [] out h = absurd (omega (arith, h))
  flags-append cfg (c ∷ cs) out h = elim (Option-cases (flag cfg c out)) [
    | inl e ↦ rw (e, flags) refl
    | inr (out', e) ↦ rw (e, flags) (flags-append cfg cs out' (rw (e, flags) at h))
  ]

  parse_width-append :
      (cfg : Config) (cur : Bytes) (out : FormatSpec)
      → 0 < length (parse_width cfg out cur).1
      → parse_width cfg out (cur ++ bs)
        ≡ ((parse_width cfg out cur).0, (parse_width cfg out cur).1 ++ bs)
  unfolding parse_width
  parse_width-append cfg [] out h = absurd (unfold fmt_num fmt_digits in ground (arith, h))
  parse_width-append cfg (c ∷ cs) out h = elim (Bool-cases cfg.field_widths) [
    | inr f ↦ rw f refl
    | inl f ↦ elim (Bool-cases (c == b'*')) [
      | inl s ↦ rw (f, s) refl
      | inr s ↦ rw (f, s, fmt_num-append (c ∷ cs) (rw (f, s) at h)) refl
    ]
  ]

  parse_point-append :
      (cur : Bytes) (out : FormatSpec)
      → 0 < length (parse_point out cur).1
      → parse_point out (cur ++ bs) ≡ ((parse_point out cur).0, (parse_point out cur).1 ++ bs)
  unfolding parse_point
  parse_point-append [] out h = absurd (unfold fmt_num fmt_digits in ground (arith, h))
  parse_point-append (c ∷ cs) out h = elim (Bool-cases (c == b'*')) [
    | inl s ↦ rw s refl
    | inr s ↦ elim (Bool-cases (c == b'-')) [
      | inl m ↦ rw (s, m, fmt_num-append cs (rw (s, m) at h)) refl
      | inr m ↦ rw (s, m, fmt_num-append (c ∷ cs) (rw (s, m) at h)) refl
    ]
  ]

  parse_prec-append :
      (cfg : Config) (cur : Bytes) (out : FormatSpec)
      → 0 < length (parse_prec cfg out cur).1
      → parse_prec cfg out (cur ++ bs)
        ≡ ((parse_prec cfg out cur).0, (parse_prec cfg out cur).1 ++ bs)
  unfolding parse_prec
  parse_prec-append cfg [] out h = absurd (ground (arith, h))
  parse_prec-append cfg (c ∷ cs) out h = elim (Bool-cases cfg.precisions) [
    | inr p ↦ rw p refl
    | inl p ↦ elim (Bool-cases (c == b'.')) [
      | inl d ↦ rw (p, d, parse_point-append cs out (rw (p, d) at h)) refl
      | inr d ↦ rw (p, d) refl
    ]
  ]

  plain_modifier-append :
      (cfg : Config) (cur : Bytes)
      → 0 < length (plain_modifier cfg cur).1
      → plain_modifier cfg (cur ++ bs)
        ≡ ((plain_modifier cfg cur).0, (plain_modifier cfg cur).1 ++ bs)
  unfolding plain_modifier
  plain_modifier-append cfg [] h = absurd (ground (arith, h))
  plain_modifier-append cfg (c ∷ []) h = ground (arith, h)
  plain_modifier-append cfg (c ∷ d ∷ cs) h = ground arith

  fixed_digits-append :
      (cfg : Config) (fast : Bool) (cur : Bytes) (m : LengthModifier) (cur' : Bytes)
      → fixed_digits cfg fast cur ≡ some (m, cur')
      → fixed_digits cfg fast (cur ++ bs) ≡ some (m, cur' ++ bs)
  unfolding fixed_digits
  fixed_digits-append cfg fast [] m cur' h = absurd (ground (arith, h))
  fixed_digits-append cfg fast (c ∷ []) m cur' h = ground (arith, h)
  fixed_digits-append cfg fast (c ∷ d ∷ cs) m cur' h = ground arith

  fixed_digits-nil :
      (cfg : Config) (m : LengthModifier) (cur' : Bytes)
      → ¬ (fixed_digits cfg false [] ≡ some (m, cur'))
  unfolding fixed_digits
  fixed_digits-nil cfg m cur' h = ground (arith, h)

  plain_read :
      (cfg : Config) (cur : Bytes) (m : LengthModifier) (cur' : Bytes)
      → some (plain_modifier cfg cur) ≡ some (m, cur')
      → 0 < length cur'
      → some (plain_modifier cfg (cur ++ bs)) ≡ some (m, cur' ++ bs)
  plain_read cfg cur m cur' h l =
      let e = eq_of_some h in rw (plain_modifier-append cfg cur (rw e l), e) refl

  parse_modifier-append :
      (cfg : Config) (cur : Bytes) (m : LengthModifier) (cur' : Bytes)
      → parse_modifier cfg cur ≡ some (m, cur')
      → 0 < length cur'
      → parse_modifier cfg (cur ++ bs) ≡ some (m, cur' ++ bs)
  unfolding parse_modifier
  parse_modifier-append cfg [] m cur' h l = absurd (unfold plain_modifier in ground (arith, h, l))
  parse_modifier-append cfg (c ∷ []) m cur' h l = elim (Bool-cases (cfg.fixed_width && c == b'w')) [
    | inr t ↦ rw t (plain_read cfg (c ∷ []) m cur' (rw t at h) l)
    | inl t ↦ absurd (fixed_digits-nil cfg m cur' (rw t at h))
  ]
  parse_modifier-append cfg (c ∷ d ∷ ds) m cur' h l =
      elim (Bool-cases (cfg.fixed_width && c == b'w')) [
        | inr t ↦ rw t (plain_read cfg (c ∷ d ∷ ds) m cur' (rw t at h) l)
        | inl t ↦ elim (Bool-cases (d == b'f')) [
          | inl f ↦ rw (t, f) (fixed_digits-append cfg true ds m cur' (rw (t, f) at h))
          | inr f ↦ rw (t, f) (fixed_digits-append cfg false (d ∷ ds) m cur' (rw (t, f) at h))
        ]
      ]

  parse_conversion-append :
      (cfg : Config) (cur : Bytes) (out out' : FormatSpec) (cur' : Bytes)
      → parse_conversion cfg out cur ≡ some (out', cur')
      → parse_conversion cfg out (cur ++ bs) ≡ some (out', cur' ++ bs)
  unfolding parse_conversion
  parse_conversion-append cfg [] out out' cur' h =
      absurd (unfold index in ground (arith, h, conversion-zero cfg))
  parse_conversion-append cfg (c ∷ cs) out out' cur' h =
      elim (Bool-cases (index (conversion cfg c) == 0)) [
        | inl t ↦ absurd (none-ne (rw t at h))
        | inr t ↦ rw t (ap (λ r. some (r.0, r.1 ++ bs)) (eq_of_some (rw t at h)))
      ]

  -- What stands behind a directive that the parser accepts does not change what it stores, and it ends
  -- where the directive does.
  pub parse_format_spec_end-append :
      (cfg : Config) (cs : Bytes) (out out' : FormatSpec) (cur : Bytes)
      → parse_format_spec_end cfg (b'%' ∷ cs) out ≡ some (out', cur)
      → parse_format_spec_end cfg (b'%' ∷ (cs ++ bs)) out ≡ some (out', cur ++ bs)
  unfolding parse_format_spec_end
  parse_format_spec_end-append cfg cs out out' cur h =
      let (out1, cur1) = flags cfg cs (clear_flags cfg out) in
      let (out2, cur2) = parse_width cfg out1 cur1 in
      let (out3, cur3) = parse_prec cfg out2 cur2 in
      elim (Option-cases (parse_modifier cfg cur3)) [
        | inl e ↦ absurd (none-ne (rw (e, parse_format_spec_end) at h))
        | inr ((m, cur4), e) ↦
            let mid : FormatSpec = record out3 { length_modifier = m } in
            let k = rw (e, parse_format_spec_end) at h in
            let l4 : length cur4 ≡ length cur + 1 =
              (parse_conversion-Within {format = cur4} cfg cur4 mid here k).1 in
            let l3 : length cur4 ≤ length cur3 =
              Within-length (parse_modifier-Within cfg cur3 m cur4 here e) in
            let l2 : length cur3 ≤ length cur2 =
              Within-length (parse_prec-Within cfg cur2 out2 here) in
            let l1 : length cur2 ≤ length cur1 =
              Within-length (parse_width-Within cfg cur1 out1 here) in
            ap (λ r. width_tail cfg r.0 r.1)
              (flags-append cfg cs (clear_flags cfg out) (omega arith))
            ∙ (ap (λ r. prec_tail cfg r.0 r.1) (parse_width-append cfg cur1 out1 (omega arith))
                ∙ (ap (λ r. tail cfg r.0 r.1) (parse_prec-append cfg cur2 out2 (omega arith))
                    ∙ rw (parse_modifier-append cfg cur3 m cur4 e (omega arith), tail)
                        (parse_conversion-append cfg cur4 mid out' cur k)))
      ]
