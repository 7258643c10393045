-- ===== src/Printf/Progress.antt =====
-- The bound on the rounds of npf_vpprintf's loop.
use nanoprintf.Base.{ℕ, zero, suc, ◌<◌, ◌≡◌, refl, [], ◌∷◌, length, Option-cases, inl, inr, arith}
use nanoprintf.Base.Bytes.{Bytes}
use nanoprintf.Config.{Config}
use nanoprintf.Spec.{FormatSpec}
use nanoprintf.Args.{Args}
use nanoprintf.Printf.{State, putc, parse_at, directive, run, vpprintf}
use nanoprintf.Printf.Total.{parse_at-length}

module _ {ℓ} {S : Type ℓ} (pc : S → ℕ → S) (cfg : Config) where
  pub run_enough :
      (fuel more : ℕ) (cur : Bytes) (st : State S)
      → length cur < fuel
      → length cur < more
      → run pc cfg fuel cur st ≡ run pc cfg more cur st
  unfolding run
  run_enough zero more cur st h k = absurd (omega (arith, h))
  run_enough (suc fuel) zero cur st h k = absurd (omega (arith, k))
  run_enough (suc fuel) (suc more) [] st h k = refl
  run_enough (suc fuel) (suc more) (c ∷ cs) st h k =
      elim (Option-cases (parse_at cfg (c ∷ cs) st.fs)) [
        | inl e ↦
            let rest =
              run_enough fuel more cs (putc pc c st) (omega (arith, h)) (omega (arith, k)) in
            rw (e, run) (rw rest refl)
        | inr ((fs, end), e) ↦
            let shorter = parse_at-length cfg (c ∷ cs) st.fs fs end e in
            rw (e, run)
              (elim (Option-cases (directive pc cfg fs st)) [
                | inl d ↦ rw d refl
                | inr (st', d) ↦
                    let rest =
                      run_enough fuel more end st' (omega (arith, h, shorter))
                        (omega (arith, k, shorter)) in
                    rw d (rw rest refl)
              ])
      ]

  -- For every bound above the length of the format the loop has the same result: each round passes
  -- a byte, and that there is no result is never due to the bound.
  pub vpprintf_rounds :
      (fs : FormatSpec) (ctx : S) (format : Bytes) (args : Args) (rounds : ℕ)
      → length format < rounds
      → run pc cfg rounds format
          (record { ctx = ctx; fs = fs; npf_n = 0; args = args; stores = [] })
        ≡ vpprintf pc cfg fs ctx format args
  unfolding vpprintf
  vpprintf_rounds fs ctx format args rounds h =
      run_enough rounds (suc (length format)) format
        (record { ctx = ctx; fs = fs; npf_n = 0; args = args; stores = [] }) h (omega arith)
