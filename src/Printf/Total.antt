-- ===== src/Printf/Total.antt =====
-- A call whose arguments fit its format is defined.
use nanoprintf.Base.{
  ℕ, zero, suc, ◌<◌, ◌≡◌, refl, sym, true, false, some, none, [], ◌∷◌, ◌++◌, ◌==◌, arith,
  Bool-cases, Option-cases, inl, inr, length,
}
use nanoprintf.Base.Bytes.{Bytes, peek, advance}
use nanoprintf.Config.{Config}
use nanoprintf.Spec.{FormatSpec}
use nanoprintf.Args.{Args}
use nanoprintf.Samples.{blank}
use nanoprintf.Parse.Suffix.{parse_format_spec_end-Within}
use nanoprintf.Parse.Fresh.{Same, SameResult, parse_format_spec_end-SameResult}
use nanoprintf.Printf.{State, parse_at, putc, directive, run, vpprintf}
use nanoprintf.Printf.Needs.{Takes, Takes-eq, Takes-append, directive_needs, format_needs}
use nanoprintf.Printf.Stages.{prepare_defined}
use nanoprintf.Printf.Conversions.{convert-Defined}

-- What a directive takes is stored by the parser.
directive_needs-Same :
    (cfg : Config) (a b : FormatSpec) → Same cfg a b → directive_needs cfg a ≡ directive_needs cfg b
unfolding directive_needs
directive_needs-Same cfg a b h = ground arith

parse_at-SameResult :
    (cfg : Config) (cur : Bytes) (a b : FormatSpec)
    → SameResult cfg (parse_at cfg cur a) (parse_at cfg cur b)
unfolding parse_at
parse_at-SameResult cfg cur a b = elim (Bool-cases (peek cur == b'%')) [
  | inl e ↦ rw e (parse_format_spec_end-SameResult cfg cur a b)
  | inr e ↦ rw e tt
]

pub none-ne-some : {A : Type 0} {a : A} → ¬ (none ≡ some a)
none-ne-some h = cc

-- A directive passes a byte.
pub parse_at-length :
    (cfg : Config) (cur : Bytes) (fs fs' : FormatSpec) (end : Bytes)
    → parse_at cfg cur fs ≡ some (fs', end)
    → length end < length cur
unfolding parse_at
parse_at-length cfg [] fs fs' end h = cc
parse_at-length cfg (c ∷ cs) fs fs' end h = elim (Bool-cases (c == b'%')) [
  | inl e ↦
      let k : c ≡ b'%' = ground arith in
      let (w, l) = parse_format_spec_end-Within cfg cs fs (rw (k, parse_at) at h) in
      omega (arith, l)
  | inr e ↦ absurd (none-ne-some (rw e at h))
]

advance-length :
    (cur : Bytes) (fuel : ℕ)
    → length cur < suc fuel
    → (peek cur == 0) ≡ false
    → length (advance cur) < fuel
advance-length [] fuel l e = cc
advance-length (c ∷ cs) fuel l e = omega (arith, l)

-- The two runs of the parser, on a struct that is blank and on the one of the loop.
module _ (cfg : Config) (cur : Bytes) (fs : FormatSpec) where
  pub SameResult-none :
      (r : FormatSpec × Bytes) → parse_at cfg cur blank ≡ none → parse_at cfg cur fs ≡ some r → ⊥
  SameResult-none r n m = let k = parse_at-SameResult cfg cur blank fs in rw (n, m) at k

  pub SameResult-some :
      (r : FormatSpec × Bytes) → parse_at cfg cur blank ≡ some r → parse_at cfg cur fs ≡ none → ⊥
  SameResult-some r n m = let k = parse_at-SameResult cfg cur blank fs in rw (n, m) at k

  pub SameResult-both :
      (a b : FormatSpec) (x y : Bytes)
      → parse_at cfg cur blank ≡ some (a, x)
      → parse_at cfg cur fs ≡ some (b, y)
      → Same cfg a b × (x ≡ y)
  SameResult-both a b x y n m = let k = parse_at-SameResult cfg cur blank fs in rw (n, m) at k

-- One round of what a format needs.
module _ (cfg : Config) (fuel : ℕ) (cur : Bytes) where
  format_needs_stop : (peek cur == 0) ≡ true → format_needs cfg (suc fuel) cur ≡ []
  unfolding format_needs
  format_needs_stop e = rw e refl

  format_needs_verbatim :
      (peek cur == 0) ≡ false
      → parse_at cfg cur blank ≡ none
      → format_needs cfg (suc fuel) cur ≡ format_needs cfg fuel (advance cur)
  unfolding format_needs
  format_needs_verbatim e n = rw (e, n, format_needs) refl

  format_needs_directive :
      (fs : FormatSpec) (end : Bytes)
      → (peek cur == 0) ≡ false
      → parse_at cfg cur blank ≡ some (fs, end)
      → format_needs cfg (suc fuel) cur ≡ directive_needs cfg fs ++ format_needs cfg fuel end
  unfolding format_needs
  format_needs_directive fs end e n = rw (e, n, format_needs) refl

module _ {ℓ} {S : Type ℓ} (pc : S → ℕ → S) (cfg : Config) where
  directive_defined :
      (fs : FormatSpec) (st : State S) (rest : Args)
      → Takes (directive_needs cfg fs) st.args rest
      → (st' : State S) × (directive pc cfg fs st ≡ some st') × (st'.args ≡ rest)
  unfolding directive
  directive_defined fs st rest h =
      let (fs1, mid, e, t) = prepare_defined cfg fs st.args rest h in
      let (p, stores, d) = convert-Defined cfg fs1 mid rest st.npf_n fs1.conv_spec refl t in
      rw (e, d) (_, refl, refl)

  run_defined :
      (fuel : ℕ) (cur : Bytes) (st : State S) (rest : Args)
      → length cur < fuel
      → Takes (format_needs cfg fuel cur) st.args rest
      → (st' : State S) × (run pc cfg fuel cur st ≡ some st') × (st'.args ≡ rest)
  unfolding run putc
  run_defined zero cur st rest l h = absurd (omega arith)
  run_defined (suc fuel) cur st rest l h = elim (Bool-cases (peek cur == 0)) [
    | inl e ↦ (st, rw e refl, Takes-eq st.args rest (format_needs_stop cfg fuel cur e) h)
    | inr e ↦ elim (Option-cases (parse_at cfg cur blank)) [
      | inl n ↦ elim (Option-cases (parse_at cfg cur st.fs)) [
        | inr (r, m) ↦ absurd (SameResult-none cfg cur st.fs r n m)
        | inl m ↦
            let k = Takes-eq st.args rest (format_needs_verbatim cfg fuel cur e n) h in
            rw (e, m, run)
              (run_defined fuel (advance cur) (putc pc (peek cur) st) rest
                (advance-length cur fuel l e) k)
      ]
      | inr ((fs, end), n) ↦ elim (Option-cases (parse_at cfg cur st.fs)) [
        | inl m ↦ absurd (SameResult-some cfg cur st.fs _ n m)
        | inr ((fs', end'), m) ↦
            let (same, x) = SameResult-both cfg cur st.fs fs fs' end end' n m in
            let k = Takes-eq st.args rest (format_needs_directive cfg fuel cur fs end e n) h in
            let (mid, t, u) =
              Takes-append (directive_needs cfg fs) (format_needs cfg fuel end) st.args rest k in
            let (st', d, a) =
              directive_defined fs' st mid
                (Takes-eq st.args mid (directive_needs-Same cfg fs fs' same) t) in
            let less : length end' < fuel =
              omega (arith, parse_at-length cfg cur st.fs fs' end' m) in
            let u' : Takes (format_needs cfg fuel end') st'.args rest = rw (sym x, a) u in
            rw (e, m, run) (rw d (run_defined fuel end' st' rest less u'))
      ]
    ]
  ]

  -- A call whose arguments start with those that its format asks for, a string among them in at most
  -- 2^31 bytes with its terminator, returns: the rounds of the loop suffice, no string is read past
  -- its terminator, no count of one overflows, and exactly those arguments are consumed.
  pub vpprintf_defined :
      (fs : FormatSpec) (ctx : S) (format : Bytes) (args rest : Args)
      → Takes (format_needs cfg (suc (length format)) format) args rest
      → (st : State S) × (vpprintf pc cfg fs ctx format args ≡ some st) × (st.args ≡ rest)
  unfolding vpprintf
  vpprintf_defined fs ctx format args rest h =
      run_defined (suc (length format)) format
        (record { ctx = ctx; fs = fs; npf_n = 0; args = args; stores = [] }) rest (omega arith) h
