-- ===== src/Printf/Fresh.antt =====
-- A call does not depend on what its struct, which is not initialised, held before.
use mathlib.Core.Option
use nanoprintf.Base.{
  ℕ, zero, suc, ◌≡◌, refl, sym, ap, ◌∙◌, some, none, [], length, ◌==◌, eq_of_some, Bool-cases,
  Option-cases, inl, inr,
}
use nanoprintf.Base.Bytes.{Bytes, peek, advance}
use nanoprintf.Base.Both.{Both-cases}
use nanoprintf.Config.{Config}
use nanoprintf.Spec.{FormatSpec}
use nanoprintf.Args.{Args}
use nanoprintf.Samples.{blank}
use nanoprintf.Parse.Fresh.{Same}
use nanoprintf.Directive.{prepare}
use nanoprintf.Directive.Fresh.{Alike, prepare-Ready}
use nanoprintf.Convert.{convert}
use nanoprintf.Convert.Alike.{AlikeConvert}
use nanoprintf.Convert.Fresh.{convert-Same}
use nanoprintf.Emit.Fresh.{emit-Same, spec_len-Same}
use nanoprintf.Printf.{State, putc, parse_at, directive, run, vpprintf}
use nanoprintf.Printf.Total.{SameResult-none, SameResult-some, SameResult-both}

-- The state without the struct, which the caller does not see.
abbrev pub visible {ℓ} : {S : Type ℓ} → State S → State S
visible st = record st { fs = blank }

none-ne {ℓ} : {A : Type ℓ} {a : A} → ¬ (none ≡ some a)
none-ne h = cc

module _ {ℓ} {S : Type ℓ} (pc : S → ℕ → S) (cfg : Config) where
  directive-fresh :
      (a b : FormatSpec) (st : State S)
      → Same cfg a b
      → Option.map visible (directive pc cfg a (visible st))
        ≡ Option.map visible (directive pc cfg b st)
  unfolding directive
  directive-fresh a b st h =
      elim (Both-cases (Alike cfg) (prepare cfg a st.args) (prepare cfg b st.args)
        (prepare-Ready cfg a b st.args h)) [
          | inl (e, f) ↦ rw (e, f) refl
          | inr ((a1, x), (b1, y), e, f, (r, q)) ↦
              elim (Both-cases (AlikeConvert cfg) (convert cfg a1 st.npf_n y)
                (convert cfg b1 st.npf_n y) (convert-Same cfg a1 b1 r st.npf_n y)) [
                  | inl (u, v) ↦ rw (e, f, q, u, v) refl
                  | inr ((p, w, s), (p', w', s'), u, v, (same, ew, es)) ↦
                      rw (e, f, q, u, v, ew, es)
                        (rw (emit-Same cfg p p' same pc st.ctx, spec_len-Same cfg p p' same) refl)
                ]
        ]

  run-fresh :
      (fuel : ℕ) (cur : Bytes) (st : State S)
      → Option.map visible (run pc cfg fuel cur (visible st))
        ≡ Option.map visible (run pc cfg fuel cur st)
  unfolding run putc
  run-fresh zero cur st = refl
  run-fresh (suc fuel) cur st = elim (Bool-cases (peek cur == 0)) [
    | inl z ↦ rw z refl
    | inr z ↦ elim (Option-cases (parse_at cfg cur blank)) [
      | inl n ↦ elim (Option-cases (parse_at cfg cur st.fs)) [
        | inr (r, m) ↦ absurd (SameResult-none cfg cur st.fs r n m)
        | inl m ↦ rw (z, n, m, run) (run-fresh fuel (advance cur) (putc pc (peek cur) st))
      ]
      | inr ((a, end), n) ↦ elim (Option-cases (parse_at cfg cur st.fs)) [
        | inl m ↦ absurd (SameResult-some cfg cur st.fs _ n m)
        | inr ((b, end'), m) ↦
            let (same, x) = SameResult-both cfg cur st.fs a b end end' n m in
            let d = directive-fresh a b st same in
            elim (Option-cases (directive pc cfg a (visible st))) [
              | inl e ↦ elim (Option-cases (directive pc cfg b st)) [
                | inl f ↦ rw (z, n, m, run) (rw (e, f) refl)
                | inr (v, f) ↦ absurd (none-ne (rw (e, f) at d))
              ]
              | inr (u, e) ↦ elim (Option-cases (directive pc cfg b st)) [
                | inl f ↦ absurd (none-ne (sym (rw (e, f) at d)))
                | inr (v, f) ↦
                    let alike : visible u ≡ visible v = eq_of_some (rw (e, f) at d) in
                    rw (z, n, m, run)
                      (rw (e, f, x)
                        (sym (run-fresh fuel end' u)
                          ∙ (ap (λ w. Option.map visible (run pc cfg fuel end' w)) alike
                              ∙ run-fresh fuel end' v)))
              ]
            ]
      ]
    ]
  ]

  -- For every build and callback: what a call gives the callback, counts, stores and leaves of the
  -- arguments, and whether it is defined, does not depend on what its struct held before.
  pub vpprintf-fresh :
      (a b : FormatSpec) (ctx : S) (format : Bytes) (args : Args)
      → Option.map visible (vpprintf pc cfg a ctx format args)
        ≡ Option.map visible (vpprintf pc cfg b ctx format args)
  unfolding vpprintf
  vpprintf-fresh a b ctx format args =
      let fuel = suc (length format) in
      let start : FormatSpec → State S =
        λ fs. record { ctx = ctx; fs = fs; npf_n = 0; args = args; stores = [] } in
      sym (run-fresh fuel format (start a)) ∙ run-fresh fuel format (start b)
