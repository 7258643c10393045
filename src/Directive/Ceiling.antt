-- ===== src/Directive/Ceiling.antt =====
-- NPF_FMT_NUM_MAX bounds the width and the precision of a directive, whatever its source.
use mathlib.Core.Path.{subst}
use nanoprintf.Base.{
  ℕ, ◌^◌, ◌≤◌, ◌<◌, ◌≡◌, true, false, Option, some, none, >>=-eq-some, eq_of_some, arith, All,
  Bool-cases, Option-cases, inl, inr, sym, ap, [], ◌∷◌,
}
use nanoprintf.Config.{Config, int_max, fmt_num_max}
use nanoprintf.Spec.{FormatSpec, is_none, is_star}
use nanoprintf.Args.{Arg, Args, arg_word32}
use nanoprintf.Directive.{
  star_width, cap_width, take_width, star_prec, cap_prec, take_prec, default_prec, drop_zero_flag,
  prepare,
}

-- The width is no more than the ceiling.
abbrev IsWide : Config → FormatSpec → Type 0
IsWide cfg fs = fs.field_width ≤ fmt_num_max cfg

-- A precision that was given is no more than the ceiling.
abbrev IsPrecise : Config → FormatSpec → Type 0
IsPrecise cfg fs = is_none fs.prec_opt ≡ false → fs.prec ≤ fmt_num_max cfg

star_width_int :
    (cfg : Config) (fs : FormatSpec) (v : ℕ)
    → v < 2 ^ 32
    → cfg.conversion_buffer_size ≤ int_max
    → (star_width cfg fs v).field_width ≤ int_max
unfolding star_width fmt_num_max
star_width_int cfg fs v h b = ground arith

cap_width-IsWide :
    (cfg : Config) (fs : FormatSpec) → fs.field_width ≤ int_max → IsWide cfg (cap_width cfg fs)
unfolding cap_width
cap_width-IsWide cfg fs h = ground arith

cap_prec-IsPrecise :
    (cfg : Config) (fs : FormatSpec)
    → (is_none fs.prec_opt ≡ false → fs.prec ≤ int_max)
    → IsPrecise cfg (cap_prec cfg fs)
unfolding cap_prec
cap_prec-IsPrecise cfg fs h = ground arith

star_prec_int :
    (fs : FormatSpec) (v : ℕ)
    → v < 2 ^ 32
    → is_none (star_prec fs v).prec_opt ≡ false
    → (star_prec fs v).prec ≤ int_max
unfolding star_prec
star_prec_int fs v h n = ground arith

-- An int argument is a pattern of 32 bits.
abbrev pub IsInt : Arg → Type 0
IsInt (Arg.word32 v) = v < 2 ^ 32
IsInt _ = Unit

arg_word32-IsInt :
    (args args' : Args) (v : ℕ)
    → All IsInt args
    → arg_word32 args ≡ some (v, args')
    → (v < 2 ^ 32) × All IsInt args'
unfolding arg_word32
arg_word32-IsInt [] args' v h e = cc
arg_word32-IsInt (Arg.word32 w ∷ args) args' v (k, h) e =
    let q = eq_of_some e in rw (sym (ap (λ x. x.0) q), sym (ap (λ x. x.1) q)) (k, h)
arg_word32-IsInt (_ ∷ args) args' v h e = cc

cap_width-prec : (cfg : Config) (fs : FormatSpec) → (cap_width cfg fs).prec ≡ fs.prec
unfolding cap_width
cap_width-prec cfg fs = ground arith

cap_prec-field_width :
    (cfg : Config) (fs : FormatSpec) → (cap_prec cfg fs).field_width ≡ fs.field_width
unfolding cap_prec
cap_prec-field_width cfg fs = ground arith

-- A stage that succeeds gives what is promised.
abbrev Result : (FormatSpec → Args → Type 0) → Option (FormatSpec × Args) → Type 0
Result P none = Unit
Result P (some (fs, args)) = P fs args

abbrev AfterWidth : Config → FormatSpec → Args → Type 0
AfterWidth cfg fs args = IsWide cfg fs × (fs.prec ≤ int_max) × All IsInt args

abbrev AfterPrec : Config → FormatSpec → Args → Type 0
AfterPrec cfg fs args = IsWide cfg fs × IsPrecise cfg fs

module _ (cfg : Config) (buffer : cfg.conversion_buffer_size ≤ int_max) where
  take_width-AfterWidth :
      (fs : FormatSpec) (args : Args)
      → cfg.field_widths ≡ true
      → All IsInt args
      → fs.field_width ≤ int_max
      → fs.prec ≤ int_max
      → Result (AfterWidth cfg) (take_width cfg fs args)
  unfolding take_width star_width fmt_num_max cap_width
  take_width-AfterWidth fs args on ints w p = elim (Bool-cases (is_star fs.field_width_opt)) [
    | inr s ↦ rw (on, s, take_width) (cap_width-IsWide cfg fs w, rw (cap_width-prec cfg fs) p, ints)
    | inl s ↦ elim (Option-cases (arg_word32 args)) [
      | inl e ↦ rw (on, s, e) tt
      | inr ((v, mid), e) ↦
          let (small, ints') = arg_word32-IsInt args mid v ints e in
          let fs1 = star_width cfg fs v in
          rw (on, s, e, take_width)
            (
              cap_width-IsWide cfg fs1 (star_width_int cfg fs v small buffer),
              rw (cap_width-prec cfg fs1) p,
              ints',
            )
    ]
  ]

  take_prec-AfterPrec :
      (fs : FormatSpec) (args : Args)
      → cfg.precisions ≡ true
      → AfterWidth cfg fs args
      → Result (AfterPrec cfg) (take_prec cfg fs args)
  unfolding take_prec star_prec cap_prec fmt_num_max
  take_prec-AfterPrec fs args on (w, p, ints) = elim (Bool-cases (is_star fs.prec_opt)) [
    | inr s ↦
        rw (on, s, take_prec)
          (rw (cap_prec-field_width cfg fs) w, cap_prec-IsPrecise cfg fs (λ n. p))
    | inl s ↦ elim (Option-cases (arg_word32 args)) [
      | inl e ↦ rw (on, s, e) tt
      | inr ((v, mid), e) ↦
          let (small, ints') = arg_word32-IsInt args mid v ints e in
          let fs1 = star_prec fs v in
          rw (on, s, e, take_prec)
            (
              rw (cap_prec-field_width cfg fs1) w,
              cap_prec-IsPrecise cfg fs1 (star_prec_int fs v small),
            )
    ]
  ]

  finish_bounded :
      (fs : FormatSpec)
      → cfg.precisions ≡ true
      → IsWide cfg fs
      → IsPrecise cfg fs
      → let fs' = drop_zero_flag cfg (default_prec cfg fs) in
        IsWide cfg fs' × (fs'.prec ≤ fmt_num_max cfg)
  unfolding drop_zero_flag default_prec fmt_num_max
  finish_bounded fs on w p = ground arith

  -- With field widths and precisions compiled in, and a conversion buffer whose size is an int: after
  -- the arguments of the stars are taken, width and precision are at most NPF_FMT_NUM_MAX, if
  -- those that the parser stored are no negative ints, for any ints as arguments, negative ones
  -- included.
  pub prepare_bounded :
      (fs : FormatSpec) (args : Args) {fs' : FormatSpec} {args' : Args}
      → cfg.field_widths ≡ true
      → cfg.precisions ≡ true
      → All IsInt args
      → fs.field_width ≤ int_max
      → fs.prec ≤ int_max
      → prepare cfg fs args ≡ some (fs', args')
      → (fs'.field_width ≤ fmt_num_max cfg) × (fs'.prec ≤ fmt_num_max cfg)
  unfolding prepare
  prepare_bounded fs args {fs'} {args'} fw pr ints w p h =
      let ((fs1, args1), e1, h1) = >>=-eq-some (take_width cfg fs args) _ h in
      let ((fs2, args2), e2, h2) = >>=-eq-some (take_prec cfg fs1 args1) _ h1 in
      let after1 : AfterWidth cfg fs1 args1 =
        subst (Result (AfterWidth cfg)) e1 (take_width-AfterWidth fs args fw ints w p) in
      let after2 : AfterPrec cfg fs2 args2 =
        subst (Result (AfterPrec cfg)) e2 (take_prec-AfterPrec fs1 args1 pr after1) in
      subst (λ r. (r.0.field_width ≤ fmt_num_max cfg) × (r.0.prec ≤ fmt_num_max cfg))
        (eq_of_some h2) (finish_bounded fs2 pr after2.0 after2.1)
