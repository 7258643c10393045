-- ===== src/Printf/Literal.antt =====
-- Formats without directives.
use nanoprintf.Base.{ℕ, ◌%◌, ◌^◌, ◌≡◌, ◌≢◌, some, [], ◌∷◌, foldl, length, All}
use nanoprintf.Base.Bytes.{Bytes}
use nanoprintf.Config.{Config}
use nanoprintf.Spec.{FormatSpec}
use nanoprintf.Args.{Args}
use nanoprintf.Printf.{vpprintf}
use nanoprintf.Printf.Refused.{IsRefused, vpprintf_refused}

-- A byte that ends nothing and starts nothing.
abbrev pub IsPlain : ℕ → Type 0
IsPlain c = (c ≢ 0) × (c ≢ b'%')

plain-IsRefused :
    (cfg : Config) (fs : FormatSpec) (cs : Bytes) → All IsPlain cs → IsRefused cfg fs cs
plain-IsRefused cfg fs [] a = tt
plain-IsRefused cfg fs (c ∷ cs) ((z, p), a) = (z, λ e. absurd (p e), plain-IsRefused cfg fs cs a)

module _ {ℓ} {S : Type ℓ} (pc : S → ℕ → S) (cfg : Config) where
  -- A format with no '%' is given to the callback as it stands, and takes no argument.
  pub vpprintf_plain :
      (fs : FormatSpec) (ctx : S) (format : Bytes) (args : Args)
      → All IsPlain format
      → vpprintf pc cfg fs ctx format args
        ≡ some (record {
          ctx = foldl pc ctx format;
          fs = fs;
          npf_n = length format % 2 ^ 32;
          args = args;
          stores = [];
        })
  vpprintf_plain fs ctx format args a =
      vpprintf_refused pc cfg fs ctx format args (plain-IsRefused cfg fs format a)
