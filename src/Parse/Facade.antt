-- ===== src/Parse/Facade.antt =====
-- The length that `npf_parse_format_spec` returns.
use nanoprintf.Base.{
  ℕ, ◌+◌, ◌-◌, ◌≤◌, ◌≡◌, ◌≢◌, refl, ap, ◌∙◌, some, none, ◌∷◌, ◌++◌, All, length, length-append,
  Option-cases, inl, inr, arith,
}
use nanoprintf.Base.Bytes.{Bytes}
use nanoprintf.Config.{Config}
use nanoprintf.Spec.{FormatSpec}
use nanoprintf.Parse.{parse_format_spec_end, parse_format_spec}
use nanoprintf.Parse.Suffix.{Within-append, parse_format_spec_end-Within}

-- What an accepted directive is: the bytes `used`, the rest of the string, and what is stored.
abbrev pub Accepts : Config → Bytes → FormatSpec → ℕ → Type 0
Accepts cfg format out n =
    (used : Bytes) × (rest : Bytes) × (out' : FormatSpec) × (parse_format_spec_end cfg format out
      ≡ some (out', rest))
    × (format ≡ used ++ rest)
    × (n ≡ length used)
    × (2 ≤ n)
    × All (λ c. c ≢ 0) used

parse_format_spec-none :
    (cfg : Config) (format : Bytes) (out : FormatSpec)
    → parse_format_spec_end cfg format out ≡ none
    → parse_format_spec cfg format out ≡ 0
unfolding parse_format_spec
parse_format_spec-none cfg format out e = rw (e, parse_format_spec) refl

parse_format_spec-some :
    (cfg : Config) (format : Bytes) (out out' : FormatSpec) (rest : Bytes)
    → parse_format_spec_end cfg format out ≡ some (out', rest)
    → parse_format_spec cfg format out ≡ length format - length rest
unfolding parse_format_spec
parse_format_spec-some cfg format out out' rest e = rw (e, parse_format_spec) refl

-- Behind a '%', the facade returns 0 or the number of bytes that the directive takes up, which is at
-- least 2: they are the start of the string and hold no terminator.
pub parse_format_spec-Accepts :
    (cfg : Config) (cs : Bytes) (out : FormatSpec)
    → let format = b'%' ∷ cs in
      let n = parse_format_spec cfg format out in n ≢ 0 → Accepts cfg format out n
parse_format_spec-Accepts cfg cs out h =
    elim (Option-cases (parse_format_spec_end cfg (b'%' ∷ cs) out)) [
      | inl e ↦ absurd (h (parse_format_spec-none cfg (b'%' ∷ cs) out e))
      | inr ((out', rest), e) ↦
          let (w, l) = parse_format_spec_end-Within cfg cs out e in
          let (used, s, a) = Within-append w in
          let k : length cs ≡ length used + length rest = ap length s ∙ length-append used rest in
          let n = parse_format_spec-some cfg (b'%' ∷ cs) out out' rest e in
          (
            b'%' ∷ used,
            rest,
            out',
            e,
            ap (λ x. b'%' ∷ x) s,
            omega (arith, n, k),
            omega (arith, n, k, l),
            (omega arith, a),
          )
    ]
