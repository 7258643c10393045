-- ===== src/Front/LongDouble.antt =====
-- A long double in a single-precision build with C++, GCC or Clang.
use nanoprintf.Base.{
  ℕ, suc, ◌<◌, ◌≡◌, refl, ◌∙◌, Bool, true, false, ◌&&◌, Option, some, none, List, [], ◌∷◌, map,
  length, leb, ◌==◌, All, arith,
}
use nanoprintf.Base.Bytes.{Bytes}
use nanoprintf.Config.{Config}
use nanoprintf.Spec.{FormatSpec, ConvSpec, is_star, index}
use nanoprintf.Args.{Arg, Args, arg_single}
use nanoprintf.Convert.{take_real, convert_real, convert}
use nanoprintf.Printf.{State, parse_at, directive, run, vpprintf}
use nanoprintf.Printf.Needs.{Takes, star_needs}
use nanoprintf.Printf.Stages.{prepare_stars}
use nanoprintf.Printf.Total.{none-ne-some}
use nanoprintf.Snprintf.{BufputcCtx, bufputc, vsnprintf}
use nanoprintf.Front.{MacroArg, passed, wrap, npf_snprintf}
use nanoprintf.Front.Single.{single_build}
use nanoprintf.Front.Wrap.{format_arg, macro_call}

-- A directive of the float family that takes no argument for its width or its precision.
abbrev pub IsRealDirective : Config → FormatSpec → Type 0
IsRealDirective cfg d =
    (leb (index ConvSpec.float_dec) (index d.conv_spec) ≡ true)
    × ((cfg.field_widths && is_star d.field_width_opt) ≡ false)
    × ((cfg.precisions && is_star d.prec_opt) ≡ false)

no_star : (star : Bool) (args : Args) → star ≡ false → Takes (star_needs star) args args
unfolding star_needs
no_star star args h = rw h refl

module _ (cfg : Config) (d : FormatSpec) (v : ℕ) (rest : Args) where
  -- The conversion reads an `npf_float_t`.
  convert_long_double :
      (fs : FormatSpec) (n : ℕ)
      → cfg.floats ≡ true
      → leb (index ConvSpec.float_dec) (index fs.conv_spec) ≡ true
      → convert (single_build cfg) fs n (Arg.long_real v ∷ rest) ≡ none
  unfolding convert convert_real take_real arg_single
  convert_long_double fs n f r = rw (f, r) refl

  directive_long_double {ℓ} :
      {S : Type ℓ} (pc : S → ℕ → S) (st : State S)
      → cfg.floats ≡ true
      → IsRealDirective cfg d
      → st.args ≡ Arg.long_real v ∷ rest
      → directive pc (single_build cfg) d st ≡ none
  unfolding directive
  directive_long_double pc st f (r, w, p) e =
      let args : Args = Arg.long_real v ∷ rest in
      let (fs, prepared, k) =
        prepare_stars (single_build cfg) d args args args
          (no_star (cfg.field_widths && is_star d.field_width_opt) args w)
          (no_star (cfg.precisions && is_star d.prec_opt) args p) in
      rw (e, prepared, convert_long_double fs st.npf_n f (rw k.0 r)) refl

undefined_call :
    (cfg : Config) (fs d : FormatSpec) (buffer : Option Bytes) (bufsz v : ℕ) (format end : Bytes)
    (rest : Args)
    → cfg.floats ≡ true
    → All (λ c. 0 < c) format
    → parse_at (single_build cfg) format fs ≡ some (d, end)
    → IsRealDirective cfg d
    → vsnprintf (single_build cfg) fs buffer bufsz format (Arg.long_real v ∷ rest) ≡ none
unfolding vsnprintf vpprintf run
undefined_call cfg fs d buffer bufsz v [] end rest f plain parsed real =
    absurd (unfold parse_at in none-ne-some parsed)
undefined_call cfg fs d buffer bufsz v (c ∷ cs) end rest f (pos, plain) parsed real =
    let start : BufputcCtx = elim buffer [
      | none ↦ record { dst = none; len = bufsz; memory = [] }
      | some mem ↦ record { dst = some 0; len = bufsz; memory = mem }
    ] in
    let st : State BufputcCtx = record {
      ctx = start;
      fs = fs;
      npf_n = 0;
      args = Arg.long_real v ∷ rest;
      stores = [];
    } in
    let nonzero : (c == 0) ≡ false = ground arith in
    rw (nonzero, parsed, run) (rw (directive_long_double cfg d v rest bufputc st f real refl) refl)

-- In every single-precision build with floats: if the format, which holds no terminator, starts with
-- a directive of the float family without a star and the first of at most 63 arguments behind it is a
-- long double, then the call is undefined, whatever the buffer, the value and the other arguments. The
-- macro passes the long double on, and npf_vpprintf reads an `npf_float_t`.
pub npf_snprintf_long_double :
    (cfg : Config) (fs d : FormatSpec) (buffer : Option Bytes) (bufsz v : ℕ) (format end : Bytes)
    (xs : List MacroArg)
    → cfg.floats ≡ true
    → All (λ c. 0 < c) format
    → suc (length xs) < 64
    → parse_at (single_build cfg) format fs ≡ some (d, end)
    → IsRealDirective cfg d
    → npf_snprintf
        (single_build cfg)
        fs
        buffer
        bufsz
        (format_arg format ∷ passed (Arg.long_real v) ∷ xs)
      ≡ none
unfolding wrap
npf_snprintf_long_double cfg fs d buffer bufsz v format end xs f plain few parsed real =
    macro_call cfg fs buffer bufsz format (passed (Arg.long_real v) ∷ xs) plain few
    ∙ undefined_call cfg fs d buffer bufsz v format end (map wrap xs) f plain parsed real
