-- ===== src/Convert/Text.antt =====
-- What the 's' conversion takes of a string.
use nanoprintf.Base.{
  ℕ, suc, ◌+◌, ◌-◌, ◌≤◌, ◌≡◌, ◌≢◌, refl, sym, ap, ◌∙◌, Bool, true, false, not, ◌&&◌, ◌||◌, some, [],
  ◌∷◌, ◌++◌, ltb, if◌then◌else◌, take, take-nil, length, All, Bool-cases, inl, inr, arith,
}
use nanoprintf.Base.Bytes.{Bytes}
use nanoprintf.Config.{Config}
use nanoprintf.Spec.{FormatSpec, is_none}
use nanoprintf.Convert.{span, string_of}

-- The directive limits the string.
abbrev pub limited : Config → FormatSpec → Bool
limited cfg fs = cfg.precisions && not (is_none fs.prec_opt)

-- Whether the loop looks at another byte behind `len` of them.
abbrev more : Config → FormatSpec → ℕ → Bool
more cfg fs len = not cfg.precisions || is_none fs.prec_opt || ltb len fs.prec

-- What the directive keeps of a string, behind `len` bytes.
abbrev pub kept : Config → FormatSpec → ℕ → Bytes → Bytes
kept cfg fs len cs = if limited cfg fs then take (fs.prec - len) cs else cs

module _ (cfg : Config) (fs : FormatSpec) where
  span_stop : (len : ℕ) (cs : Bytes) → more cfg fs len ≡ false → span cfg fs len cs ≡ some []
  unfolding span
  span_stop len [] h = rw h refl
  span_stop len (c ∷ cs) h = rw h refl

  span_step :
      (len c : ℕ) (cs r : Bytes)
      → more cfg fs len ≡ true
      → c ≢ 0
      → span cfg fs (len + 1) cs ≡ some r
      → span cfg fs len (c ∷ cs) ≡ some (c ∷ r)
  unfolding span
  span_step len c cs r h n e = rw (h, e) (ground arith)

  span_zero : (len : ℕ) (cs : Bytes) → more cfg fs len ≡ true → span cfg fs len (0 ∷ cs) ≡ some []
  unfolding span
  span_zero len cs h = rw h refl

  kept_nil : (len : ℕ) → kept cfg fs len [] ≡ []
  kept_nil len = ground (arith, take-nil {A = ℕ} (fs.prec - len))

  kept_stop : (len : ℕ) (cs : Bytes) → more cfg fs len ≡ false → kept cfg fs len cs ≡ []
  kept_stop len cs h =
      let l : limited cfg fs ≡ true = ground arith in
      let z : fs.prec - len ≡ 0 = ground arith in rw (l, z) refl

  kept_step :
      (len c : ℕ) (cs : Bytes)
      → more cfg fs len ≡ true
      → kept cfg fs len (c ∷ cs) ≡ c ∷ kept cfg fs (len + 1) cs
  kept_step len c cs h = elim (Bool-cases (limited cfg fs)) [
    | inr l ↦ rw l refl
    | inl l ↦ let z : fs.prec - len ≡ suc (fs.prec - (len + 1)) = ground arith in rw (l, z) refl
  ]

  -- A string up to its terminator.
  span_terminated :
      (cs tail : Bytes) (len : ℕ)
      → All (λ c. c ≢ 0) cs
      → span cfg fs len (cs ++ 0 ∷ tail) ≡ some (kept cfg fs len cs)
  span_terminated [] tail len a = elim (Bool-cases (more cfg fs len)) [
    | inr h ↦ rw (span_stop len (0 ∷ tail) h, kept_stop len [] h) refl
    | inl h ↦ rw (span_zero len tail h, kept_nil len) refl
  ]
  span_terminated (c ∷ cs) tail len (n, a) = elim (Bool-cases (more cfg fs len)) [
    | inr h ↦ rw (span_stop len (c ∷ cs ++ 0 ∷ tail) h, kept_stop len (c ∷ cs) h) refl
    | inl h ↦
        span_step len c (cs ++ 0 ∷ tail) (kept cfg fs (len + 1) cs) h n
          (span_terminated cs tail (len + 1) a)
        ∙ ap some (sym (kept_step len c cs h))
  ]

  -- A string of at least as many bytes as the precision asks for.
  span-limited :
      (cs tail : Bytes) (len : ℕ)
      → limited cfg fs ≡ true
      → All (λ c. c ≢ 0) cs
      → fs.prec ≤ len + length cs
      → span cfg fs len (cs ++ tail) ≡ some (kept cfg fs len cs)
  span-limited [] tail len l a hi =
      let h : more cfg fs len ≡ false = ground arith in
      rw (span_stop len tail h, kept_stop len [] h) refl
  span-limited (c ∷ cs) tail len l (n, a) hi = elim (Bool-cases (more cfg fs len)) [
    | inr h ↦ rw (span_stop len (c ∷ cs ++ tail) h, kept_stop len (c ∷ cs) h) refl
    | inl h ↦
        span_step len c (cs ++ tail) (kept cfg fs (len + 1) cs) h n
          (span-limited cs tail (len + 1) l a (omega (arith, hi)))
        ∙ ap some (sym (kept_step len c cs h))
  ]

  -- 's' takes the bytes before the terminator, cut to the precision if the directive has one; and with
  -- a precision of no more than the bytes at hand it needs no terminator and reads nothing behind them.
  pub string_of-kept :
      (cs tail : Bytes)
      → All (λ c. c ≢ 0) cs
      → (string_of cfg fs (some (cs ++ 0 ∷ tail)) ≡ some (kept cfg fs 0 cs))
        × (limited cfg fs ≡ true
            → fs.prec ≤ length cs
            → string_of cfg fs (some (cs ++ tail)) ≡ some (kept cfg fs 0 cs))
  unfolding string_of
  string_of-kept cs tail a =
      (span_terminated cs tail 0 a, λ l h. span-limited cs tail 0 l a (omega (arith, h)))
