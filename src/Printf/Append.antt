-- ===== src/Printf/Append.antt =====
-- Calls whose format is put together from two.
use nanoprintf.Base.{
  ◌>>=◌, ℕ, zero, suc, ◌<◌, ◌≡◌, refl, sym, Bool, true, false, ◌&&◌, not, some, none, [], ◌∷◌, ◌++◌,
  length, length-append, ◌==◌, Bool-cases, Option-cases, inl, inr, arith,
}
use nanoprintf.Base.Bytes.{Bytes}
use nanoprintf.Config.{Config}
use nanoprintf.Spec.{FormatSpec}
use nanoprintf.Args.{Args}
use nanoprintf.Samples.{blank}
use nanoprintf.Parse.Local.{parse_format_spec_end-append}
use nanoprintf.Printf.{State, putc, parse_at, directive, run, vpprintf}
use nanoprintf.Printf.Total.{none-ne-some, parse_at-length, SameResult-some, SameResult-both}
use nanoprintf.Printf.Progress.{run_enough}

-- A string without a terminator in which every percent sign starts a directive that ends in it. The fuel is a
-- number above its length.
unfoldable pub is_complete : Config → ℕ → Bytes → Bool
is_complete cfg zero cur = false
is_complete cfg (suc fuel) [] = true
is_complete cfg (suc fuel) (c ∷ cs) =
    let rest = is_complete cfg fuel cs in
    elim (parse_at cfg (c ∷ cs) blank) [
      | none ↦ not (c == 0) && not (c == b'%') && rest
      | some (fs, end) ↦ is_complete cfg fuel end
    ]

parse_at-append :
    (cfg : Config) (cur : Bytes) (fs fs' : FormatSpec) (end bs : Bytes)
    → parse_at cfg cur fs ≡ some (fs', end)
    → parse_at cfg (cur ++ bs) fs ≡ some (fs', end ++ bs)
unfolding parse_at
parse_at-append cfg [] fs fs' end bs h = cc
parse_at-append cfg (c ∷ cs) fs fs' end bs h = elim (Bool-cases (c == b'%')) [
  | inl t ↦
      let k : c ≡ b'%' = ground arith in
      rw (k, parse_at) (parse_format_spec_end-append bs cfg cs fs fs' end (rw (k, parse_at) at h))
  | inr t ↦ absurd (none-ne-some (rw t at h))
]

-- A byte of a complete string that starts no directive.
plain_byte :
    (c : ℕ) (rest : Bool)
    → (not (c == 0) && not (c == b'%') && rest) ≡ true
    → ((c == 0) ≡ false) × ((c == b'%') ≡ false) × (rest ≡ true)
plain_byte c rest h = ground (arith, h)

parse_at_plain :
    (cfg : Config) (c : ℕ) (cs : Bytes) (fs : FormatSpec)
    → (c == b'%') ≡ false
    → parse_at cfg (c ∷ cs) fs ≡ none
unfolding parse_at
parse_at_plain cfg c cs fs t = rw t refl

parse_at_nonzero :
    (cfg : Config) (c : ℕ) (cs : Bytes) (fs : FormatSpec) (r : FormatSpec × Bytes)
    → parse_at cfg (c ∷ cs) fs ≡ some r
    → (c == 0) ≡ false
unfolding parse_at
parse_at_nonzero cfg c cs fs r h = elim (Bool-cases (c == b'%')) [
  | inl t ↦ ground (arith, t)
  | inr t ↦ absurd (none-ne-some (rw t at h))
]

module _ {ℓ} {S : Type ℓ} (pc : S → ℕ → S) (cfg : Config) where
  run-append :
      (fuel more : ℕ) (cur bs : Bytes) (st : State S)
      → is_complete cfg fuel cur ≡ true
      → length (cur ++ bs) < more
      → length cur < fuel
      → run pc cfg more (cur ++ bs) st
        ≡ (do st' ← run pc cfg fuel cur st; run pc cfg (suc (length bs)) bs st')
  unfolding run is_complete
  run-append zero more cur bs st h l k = absurd (omega arith)
  run-append (suc fuel) more [] bs st h l k =
      run_enough pc cfg more (suc (length bs)) bs st l (omega arith)
  run-append (suc fuel) zero (c ∷ cs) bs st h l k = absurd (omega arith)
  run-append (suc fuel) (suc more) (c ∷ cs) bs st h l k =
      elim (Option-cases (parse_at cfg (c ∷ cs) blank)) [
        | inl n ↦
            let (z, p, r) = plain_byte c (is_complete cfg fuel cs) (rw (n, is_complete) at h) in
            let ih =
              run-append fuel more cs bs (putc pc c st) r (omega (arith, l)) (omega (arith, k)) in
            rw (z, parse_at_plain cfg c (cs ++ bs) st.fs p, parse_at_plain cfg c cs st.fs p, run) ih
        | inr ((fs, end), n) ↦ elim (Option-cases (parse_at cfg (c ∷ cs) st.fs)) [
          | inl m ↦ absurd (SameResult-some cfg (c ∷ cs) st.fs _ n m)
          | inr ((fs', end'), m) ↦
              let (same, x) = SameResult-both cfg (c ∷ cs) st.fs fs fs' end end' n m in
              let z = parse_at_nonzero cfg c cs st.fs (fs', end') m in
              let shorter = parse_at-length cfg (c ∷ cs) st.fs fs' end' m in
              let long = parse_at-append cfg (c ∷ cs) st.fs fs' end' bs m in
              let r : is_complete cfg fuel end' ≡ true = rw (sym x) (rw (n, is_complete) at h) in
              let s = length-append end' bs in
              let s' = length-append (c ∷ cs) bs in
              rw (z, long, m, run)
                (elim (Option-cases (directive pc cfg fs' st)) [
                  | inl d ↦ rw d refl
                  | inr (st', d) ↦ rw d (
                      run-append fuel more end' bs st' r (omega (arith, shorter, l, s, s'))
                        (omega (arith, shorter, k)))
                ])
        ]
      ]

  -- After a format without a terminator in which every percent sign starts a directive that ends in it, what
  -- stands behind it is a format of its own: a call with the two put together is a call with the
  -- first, and then the loop over the second, with the bytes counted and the arguments left.
  pub vpprintf-append :
      (fs : FormatSpec) (ctx : S) (first second : Bytes) (args : Args)
      → is_complete cfg (suc (length first)) first ≡ true
      → vpprintf pc cfg fs ctx (first ++ second) args
        ≡ (do st ← vpprintf pc cfg fs ctx first args; run pc cfg (suc (length second)) second st)
  unfolding vpprintf
  vpprintf-append fs ctx first second args h =
      run-append (suc (length first)) (suc (length (first ++ second))) first second
        (record { ctx = ctx; fs = fs; npf_n = 0; args = args; stores = [] }) h (omega arith)
        (omega arith)
