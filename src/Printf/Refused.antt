-- ===== src/Printf/Refused.antt =====
-- Percent signs that start no directive.
use nanoprintf.Base.{
  ℕ, zero, suc, ◌+◌, ◌%◌, ◌^◌, ◌<◌, ◌≡◌, ◌≢◌, refl, ◌∙◌, false, some, none, [], ◌∷◌, foldl, length,
  ◌==◌, arith, Bool-cases, inl, inr,
}
use nanoprintf.Base.Bytes.{Bytes}
use nanoprintf.Config.{Config}
use nanoprintf.Spec.{FormatSpec}
use nanoprintf.Args.{Args}
use nanoprintf.Parse.{parse_format_spec_end}
use nanoprintf.Printf.{State, add_int, putc, parse_at, run, vpprintf}

-- The parser refuses the string behind each percent sign of a format.
abbrev pub IsRefused : Config → FormatSpec → Bytes → Type 0
IsRefused cfg fs [] = Unit
IsRefused cfg fs (c ∷ cs) =
    (c ≢ 0) × (c ≡ b'%' → parse_format_spec_end cfg (c ∷ cs) fs ≡ none) × IsRefused cfg fs cs

parse_at_refused :
    (cfg : Config) (c : ℕ) (cs : Bytes) (fs : FormatSpec)
    → (c ≡ b'%' → parse_format_spec_end cfg (c ∷ cs) fs ≡ none)
    → parse_at cfg (c ∷ cs) fs ≡ none
unfolding parse_at
parse_at_refused cfg c cs fs h = elim (Bool-cases (c == b'%')) [
  | inl t ↦ rw t (h (ground arith))
  | inr t ↦ rw t refl
]

module _ {ℓ} {S : Type ℓ} (pc : S → ℕ → S) (cfg : Config) where
  -- The state behind a text that is written as it stands.
  abbrev after : Bytes → State S → State S
  after cs st = record st { ctx = foldl pc st.ctx cs; npf_n = (st.npf_n + length cs) % 2 ^ 32 }

  run_refused :
      (fuel : ℕ) (cs : Bytes) (st : State S)
      → IsRefused cfg st.fs cs
      → length cs < fuel
      → st.npf_n < 2 ^ 32
      → run pc cfg fuel cs st ≡ some (after cs st)
  unfolding run putc add_int
  run_refused zero cs st a l n = absurd (omega arith)
  run_refused (suc fuel) [] st a l n = ground arith
  run_refused (suc fuel) (c ∷ cs) st (z, p, a) l n =
      let st1 = putc pc c st in
      let zero_test : (c == 0) ≡ false = ground arith in
      let count : ((st.npf_n + 1) % 2 ^ 32 + length cs) % 2 ^ 32
          ≡ (st.npf_n + length {A = ℕ} (c ∷ cs)) % 2 ^ 32 =
        omega arith in
      rw (zero_test, parse_at_refused cfg c cs st.fs p, run)
        (run_refused fuel cs st1 a (omega arith) (omega arith) ∙ rw count refl)

  -- A format each of whose percent signs starts a directive that the parser refuses is given to the
  -- callback as it stands, its percent signs with it: the length is returned, modulo 2^32, no argument
  -- is taken, and nothing is stored.
  pub vpprintf_refused :
      (fs : FormatSpec) (ctx : S) (format : Bytes) (args : Args)
      → IsRefused cfg fs format
      → vpprintf pc cfg fs ctx format args
        ≡ some (record {
          ctx = foldl pc ctx format;
          fs = fs;
          npf_n = length format % 2 ^ 32;
          args = args;
          stores = [];
        })
  unfolding vpprintf
  vpprintf_refused fs ctx format args a =
      let z : 0 + length format ≡ length format = omega arith in
      run_refused (suc (length format)) format
        (record { ctx = ctx; fs = fs; npf_n = 0; args = args; stores = [] }) a (omega arith)
        (omega arith)
      ∙ rw z refl
