-- ===== src/Printf/Trace.antt =====
-- The output of npf_vpprintf does not depend on the callback: it is a list of bytes, which the
-- callback is given in order.
use mathlib.Core.List.{foldl-append, append-nil, append_assoc}
use mathlib.Core.Option
use mathlib.Core.Path.{subst}
use nanoprintf.Base.{
  ℕ, zero, suc, ◌%◌, ◌^◌, ◌≡◌, refl, sym, ◌∙◌, >>=-eq-some, eq_of_some, some, [], ◌∷◌, ◌++◌, foldl,
  ◌==◌, length, length-append, Bool-cases, Option-cases, inl, inr, arith,
}
use nanoprintf.Base.Bytes.{Bytes, peek, advance}
use nanoprintf.Config.{Config}
use nanoprintf.Spec.{FormatSpec}
use nanoprintf.Args.{Args}
use nanoprintf.Directive.{prepare}
use nanoprintf.Convert.{Piece, convert}
use nanoprintf.Emit.{emit}
use nanoprintf.Emit.Layout.{layout, emit-layout}
use nanoprintf.Emit.Length.{length-layout}
use nanoprintf.Printf.{State, add_int, putc, directive, parse_at, run, vpprintf}

-- A callback that keeps what it is given.
abbrev pub record_byte : Bytes → ℕ → Bytes
record_byte out c = out ++ c ∷ []

pub foldl-record_byte : (out cs : Bytes) → foldl record_byte out cs ≡ out ++ cs
foldl-record_byte out [] = sym (append-nil out)
foldl-record_byte out (c ∷ cs) = foldl-record_byte (out ++ c ∷ []) cs ∙ append_assoc out (c ∷ []) cs

emit-record_byte :
    (cfg : Config) (p : Piece) (out : Bytes) → emit record_byte cfg p out ≡ out ++ layout cfg p
emit-record_byte cfg p out =
    emit-layout record_byte cfg p out ∙ foldl-record_byte out (layout cfg p)

module _ {ℓ} {S : Type ℓ} (pc : S → ℕ → S) (s : S) where
  -- What the callback makes of a recorded state.
  abbrev pub replay : State Bytes → State S
  replay st = record {
    ctx = foldl pc s st.ctx;
    fs = st.fs;
    npf_n = st.npf_n;
    args = st.args;
    stores = st.stores;
  }

  putc-replay : (c : ℕ) (st : State Bytes) → putc pc c (replay st) ≡ replay (putc record_byte c st)
  unfolding putc
  putc-replay c st = rw foldl-append refl

  directive-replay :
      (cfg : Config) (fs : FormatSpec) (st : State Bytes)
      → directive pc cfg fs (replay st) ≡ Option.map replay (directive record_byte cfg fs st)
  unfolding directive
  directive-replay cfg fs st = elim (Option-cases (prepare cfg fs st.args)) [
    | inl e ↦ rw e refl
    | inr ((fs1, args1), e) ↦ rw e (elim (Option-cases (convert cfg fs1 st.npf_n args1)) [
      | inl e' ↦ rw e' refl
      | inr ((p, args2, stores), e') ↦ rw e' (rw (emit-layout, emit-record_byte, foldl-append) refl)
    ])
  ]

  run-replay :
      (cfg : Config) (fuel : ℕ) (cur : Bytes) (st : State Bytes)
      → run pc cfg fuel cur (replay st) ≡ Option.map replay (run record_byte cfg fuel cur st)
  unfolding run
  run-replay cfg zero cur st = refl
  run-replay cfg (suc fuel) cur st = elim (Bool-cases (peek cur == 0)) [
    | inl e ↦ rw e refl
    | inr e ↦ rw e (elim (Option-cases (parse_at cfg cur st.fs)) [
      | inl n ↦
          rw (n, run)
            (rw putc-replay (run-replay cfg fuel (advance cur) (putc record_byte (peek cur) st)))
      | inr ((fs, end), n) ↦
          rw (n, run)
            (rw directive-replay (elim (Option-cases (directive record_byte cfg fs st)) [
              | inl d ↦ rw d refl
              | inr (st', d) ↦ rw d (run-replay cfg fuel end st')
            ]))
    ])
  ]

  -- For every callback, a call does what the callback makes of the bytes that a recording call
  -- collects, in their order; the count, the arguments left and the stores are the same, and so is
  -- whether the call is defined.
  pub vpprintf-replay :
      (cfg : Config) (fs : FormatSpec) (format : Bytes) (args : Args)
      → vpprintf pc cfg fs s format args
        ≡ Option.map replay (vpprintf record_byte cfg fs [] format args)
  unfolding vpprintf
  vpprintf-replay cfg fs format args =
      run-replay cfg (suc (length format)) format
        (record { ctx = []; fs = fs; npf_n = 0; args = args; stores = [] })

-- The counter holds the number of bytes so far, as an int that wraps around.
abbrev pub IsCounted : State Bytes → Type 0
IsCounted st = st.npf_n ≡ length st.ctx % 2 ^ 32

putc-IsCounted : (c : ℕ) (st : State Bytes) → IsCounted st → IsCounted (putc record_byte c st)
unfolding putc add_int
putc-IsCounted c st h = omega (arith, h, length-append st.ctx (c ∷ []))

directive-IsCounted :
    (cfg : Config) (fs : FormatSpec) (st st' : State Bytes)
    → IsCounted st
    → directive record_byte cfg fs st ≡ some st'
    → IsCounted st'
unfolding directive add_int
directive-IsCounted cfg fs st st' h d =
    let ((fs1, args1), e, d1) = >>=-eq-some (prepare cfg fs st.args) _ d in
    let ((p, args2, stores), e', d2) = >>=-eq-some (convert cfg fs1 st.npf_n args1) _ d1 in
    subst IsCounted (eq_of_some d2) (
      rw
        (emit-record_byte cfg p st.ctx, length-append st.ctx (layout cfg p), length-layout cfg p, h)
        (omega arith))

run-IsCounted :
    (cfg : Config) (fuel : ℕ) (cur : Bytes) (st st' : State Bytes)
    → IsCounted st
    → run record_byte cfg fuel cur st ≡ some st'
    → IsCounted st'
unfolding run
run-IsCounted cfg zero cur st st' h r = cc
run-IsCounted cfg (suc fuel) cur st st' h r = elim (Bool-cases (peek cur == 0)) [
  | inl e ↦ subst IsCounted (eq_of_some (rw e at r)) h
  | inr e ↦ elim (Option-cases (parse_at cfg cur st.fs)) [
    | inl n ↦
        run-IsCounted cfg fuel (advance cur) (putc record_byte (peek cur) st) st'
          (putc-IsCounted (peek cur) st h) (rw (e, n, run) at r)
    | inr ((fs, end), n) ↦
        let (mid, d, r') = >>=-eq-some (directive record_byte cfg fs st) _ (rw (e, n, run) at r) in
        run-IsCounted cfg fuel end mid st' (directive-IsCounted cfg fs st mid h d) r'
  ]
]

-- For a call that returns: the int that it returns is the number of bytes that it gave to the callback, modulo 2^32.
pub vpprintf-IsCounted :
    (cfg : Config) (fs : FormatSpec) (format : Bytes) (args : Args) {st : State Bytes}
    → vpprintf record_byte cfg fs [] format args ≡ some st
    → IsCounted st
unfolding vpprintf
vpprintf-IsCounted cfg fs format args h =
    run-IsCounted cfg (suc (length format)) format _ _ (omega arith) h
