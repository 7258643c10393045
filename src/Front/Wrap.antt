-- ===== src/Front/Wrap.antt =====
-- A call through npf_snprintf whose arguments fit its format in a double build fits it in a
-- single-precision build, and is defined there.
use mathlib.Core.Path.{subst}
use nanoprintf.Base.{
  ℕ, zero, suc, ◌<◌, ◌≡◌, refl, sym, ◌∙◌, inl, inr, false, Option, none, some, List, [], ◌∷◌, ◌++◌,
  map, arith, length, All,
}
use nanoprintf.Base.Bytes.{Bytes}
use nanoprintf.Config.{Config}
use nanoprintf.Spec.{FormatSpec}
use nanoprintf.Args.{Arg, Args}
use nanoprintf.Printf.Needs.{Kind, IsKind, Takes, format_needs}
use nanoprintf.Printf.Total.{vpprintf_defined}
use nanoprintf.Snprintf.{BufputcCtx, Outcome, bufputc, vsnprintf}
use nanoprintf.Front.{
  MacroArg, float, passed, wrap, promote, map_args, c_string, split_format, snprintf, npf_snprintf,
}
use nanoprintf.Front.Single.{single_build, single_kind, format_needs-single}
use nanoprintf.Front.Map.{macro_map_lem}

-- An argument that is no long double, which the macro leaves unwrapped.
abbrev pub IsWrapped : MacroArg → Type 0
IsWrapped (passed (Arg.long_real v)) = ⊥
IsWrapped _ = Unit

wrap-IsKind :
    (k : Kind) (a : MacroArg) → IsWrapped a → IsKind k (promote a) → IsKind (single_kind k) (wrap a)
unfolding wrap promote
wrap-IsKind Kind.double (float f) w h = tt
wrap-IsKind Kind.double (passed (Arg.real d)) w h = tt
wrap-IsKind Kind.int (passed (Arg.word32 v)) w h = tt
wrap-IsKind Kind.long (passed (Arg.word64 v)) w h = tt
wrap-IsKind Kind.address (passed (Arg.pointer v)) w h = tt
wrap-IsKind Kind.text (passed (Arg.text none)) w h = tt
wrap-IsKind Kind.text (passed (Arg.text (some cs))) w h = h
wrap-IsKind Kind.single (passed (Arg.single v)) w h = tt
wrap-IsKind Kind.long_double (passed (Arg.long_real v)) w h = absurd w
wrap-IsKind k a w h = absurd h

wrap-Takes :
    (ks : List Kind) (xs : List MacroArg)
    → All IsWrapped xs
    → Takes ks (map promote xs) []
    → Takes (map single_kind ks) (map wrap xs) []
wrap-Takes [] [] w h = refl
wrap-Takes [] (x ∷ xs) w h = cc
wrap-Takes (k ∷ ks) [] w h = h
wrap-Takes (k ∷ ks) (x ∷ xs) (w, ws) (i, h) = (wrap-IsKind k x w i, wrap-Takes ks xs ws h)

pub c_string-format :
    (format : Bytes) → All (λ c. 0 < c) format → c_string (format ++ 0 ∷ []) ≡ some format
unfolding c_string
c_string-format [] h = refl
c_string-format (zero ∷ cs) (p, h) = absurd (omega (arith, p))
c_string-format (suc c ∷ cs) (p, h) = let e = c_string-format cs h in rw (e, c_string) refl

-- The format of a macro's call, as the pointer that is passed.
abbrev pub format_arg : Bytes → MacroArg
format_arg format = passed (Arg.text (some (format ++ 0 ∷ [])))

-- In a single-precision build the macro calls npf_vsnprintf with the wrapped arguments.
pub macro_call :
    (cfg : Config) (fs : FormatSpec) (buffer : Option Bytes) (bufsz : ℕ) (format : Bytes)
    (xs : List MacroArg)
    → All (λ c. 0 < c) format
    → length xs < 64
    → npf_snprintf (single_build cfg) fs buffer bufsz (format_arg format ∷ xs)
      ≡ vsnprintf (single_build cfg) fs buffer bufsz format (map wrap xs)
unfolding npf_snprintf snprintf map_args split_format wrap
macro_call cfg fs buffer bufsz format xs plain few =
    elim (macro_map_lem wrap (format_arg format) xs) [
      | inl (l, e) ↦ rw (e, c_string-format format plain) refl
      | inr (l, e) ↦ absurd (omega (arith, l, few))
    ]

pub vsnprintf_defined :
    (cfg : Config) (fs : FormatSpec) (buffer : Option Bytes) (bufsz : ℕ) (format : Bytes)
    (args : Args)
    → Takes (format_needs cfg (suc (length format)) format) args []
    → (out : Outcome) × (vsnprintf cfg fs buffer bufsz format args ≡ some out)
unfolding vsnprintf
vsnprintf_defined cfg fs buffer bufsz format args h =
    let ctx : BufputcCtx = elim buffer [
      | none ↦ record { dst = none; len = bufsz; memory = [] }
      | some mem ↦ record { dst = some 0; len = bufsz; memory = mem }
    ] in
    let (st, e, r) = vpprintf_defined bufputc cfg fs ctx format args [] h in rw e (_, refl)

-- For a format without a terminator inside and at most 63 further arguments, none of them a long
-- double: if those fit the format in a double build, then npf_snprintf is defined in the
-- single-precision build, where each float and double goes through the macro, and it is
-- npf_vsnprintf of the wrapped arguments.
pub npf_snprintf-single :
    (cfg : Config) (fs : FormatSpec) (buffer : Option Bytes) (bufsz : ℕ) (format : Bytes)
    (xs : List MacroArg)
    → cfg.single_precision ≡ false
    → All (λ c. 0 < c) format
    → length xs < 64
    → All IsWrapped xs
    → Takes (format_needs cfg (suc (length format)) format) (map promote xs) []
    → (out : Outcome) × (npf_snprintf (single_build cfg) fs buffer bufsz (format_arg format ∷ xs)
        ≡ some out)
      × (vsnprintf (single_build cfg) fs buffer bufsz format (map wrap xs) ≡ some out)
npf_snprintf-single cfg fs buffer bufsz format xs double plain few ok h =
    let needs =
      subst (λ ks. Takes ks (map wrap xs) [])
        (sym (format_needs-single cfg double (suc (length format)) format))
        (wrap-Takes (format_needs cfg (suc (length format)) format) xs ok h) in
    let (out, e) =
      vsnprintf_defined (single_build cfg) fs buffer bufsz format (map wrap xs) needs in
    (out, macro_call cfg fs buffer bufsz format xs plain few ∙ e, e)
