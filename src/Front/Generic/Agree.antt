-- ===== src/Front/Generic/Agree.antt =====
-- What _Generic makes of the arguments, against the formats and the other NPF__WRAP.
use mathlib.Core.Path.{subst}
use nanoprintf.Base.{
  ℕ, suc, ◌<◌, arith, inl, inr, ◌++◌, ◌≡◌, refl, sym, false, Option, none, some, List, [], ◌∷◌, map,
  length, All,
}
use nanoprintf.Base.Bytes.{Bytes}
use nanoprintf.Config.{Config}
use nanoprintf.Spec.{FormatSpec}
use nanoprintf.Args.{Arg}
use nanoprintf.Printf.Needs.{Kind, IsKind, Takes, format_needs}
use nanoprintf.Snprintf.{Outcome, vsnprintf}
use nanoprintf.Front.{MacroArg, float, passed, wrap, promote, snprintf, split_format}
use nanoprintf.Front.Narrow.{narrow}
use nanoprintf.Front.Single.{single_build, single_kind, format_needs-single}
use nanoprintf.Front.Map.{macro_map_lem}
use nanoprintf.Front.Wrap.{format_arg, c_string-format, vsnprintf_defined}
use nanoprintf.Front.Generic.{
  CType, select, apply, wrap_generic, HasType, collect, wrap_all, npf_snprintf_generic,
}

-- What an argument becomes.
abbrev pub wrapped : MacroArg → Arg
wrapped (passed (Arg.long_real d)) = Arg.single (narrow d)
wrapped a = wrap a

wrap_generic_lem : (t : CType) (a : MacroArg) → HasType t a → wrap_generic t a ≡ some (wrapped a)
unfolding wrap_generic select apply wrap
wrap_generic_lem CType.float (float f) h = refl
wrap_generic_lem CType.double (passed (Arg.real d)) h = refl
wrap_generic_lem CType.long_double (passed (Arg.long_real d)) h = refl
wrap_generic_lem CType.int (passed (Arg.word32 v)) h = refl
wrap_generic_lem CType.unsigned (passed (Arg.word32 v)) h = refl
wrap_generic_lem CType.char (passed (Arg.word32 v)) h = refl
wrap_generic_lem CType.signed_char (passed (Arg.word32 v)) h = refl
wrap_generic_lem CType.unsigned_char (passed (Arg.word32 v)) h = refl
wrap_generic_lem CType.short (passed (Arg.word32 v)) h = refl
wrap_generic_lem CType.unsigned_short (passed (Arg.word32 v)) h = refl
wrap_generic_lem CType.long (passed (Arg.word64 v)) h = refl
wrap_generic_lem CType.unsigned_long (passed (Arg.word64 v)) h = refl
wrap_generic_lem CType.long_long (passed (Arg.word64 v)) h = refl
wrap_generic_lem CType.unsigned_long_long (passed (Arg.word64 v)) h = refl
wrap_generic_lem CType.char_pointer (passed (Arg.text s)) h = refl
wrap_generic_lem CType.const_char_pointer (passed (Arg.text s)) h = refl
wrap_generic_lem CType.void_pointer (passed (Arg.pointer p)) h = refl
wrap_generic_lem CType.const_void_pointer (passed (Arg.pointer p)) h = refl
wrap_generic_lem CType.int_pointer (passed (Arg.pointer p)) h = refl
wrap_generic_lem CType.short_pointer (passed (Arg.pointer p)) h = refl
wrap_generic_lem CType.long_pointer (passed (Arg.pointer p)) h = refl
wrap_generic_lem CType.long_long_pointer (passed (Arg.pointer p)) h = refl
wrap_generic_lem CType.signed_char_pointer (passed (Arg.pointer p)) h = refl
wrap_generic_lem t a h = absurd h

wrapped-IsKind :
    (k : Kind) (a : MacroArg) → IsKind k (promote a) → IsKind (single_kind k) (wrapped a)
unfolding wrap promote
wrapped-IsKind Kind.double (float f) h = tt
wrapped-IsKind Kind.double (passed (Arg.real d)) h = tt
wrapped-IsKind Kind.long_double (passed (Arg.long_real v)) h = tt
wrapped-IsKind Kind.int (passed (Arg.word32 v)) h = tt
wrapped-IsKind Kind.long (passed (Arg.word64 v)) h = tt
wrapped-IsKind Kind.address (passed (Arg.pointer v)) h = tt
wrapped-IsKind Kind.text (passed (Arg.text none)) h = tt
wrapped-IsKind Kind.text (passed (Arg.text (some cs))) h = h
wrapped-IsKind Kind.single (passed (Arg.single v)) h = tt
wrapped-IsKind k a h = absurd h

-- The arguments of a call without their types.
abbrev pub values : List (CType × MacroArg) → List MacroArg
values [] = []
values ((t, a) ∷ xs) = a ∷ values xs

wrapped-Takes :
    (ks : List Kind) (xs : List MacroArg)
    → Takes ks (map promote xs) []
    → Takes (map single_kind ks) (map wrapped xs) []
wrapped-Takes [] [] h = refl
wrapped-Takes [] (x ∷ xs) h = cc
wrapped-Takes (k ∷ ks) [] h = h
wrapped-Takes (k ∷ ks) (x ∷ xs) (i, h) = (wrapped-IsKind k x i, wrapped-Takes ks xs h)

collect-wrapped :
    (xs : List (CType × MacroArg))
    → All (λ x. HasType x.0 x.1) xs
    → collect (map (λ x. wrap_generic x.0 x.1) xs) ≡ some (map wrapped (values xs))
unfolding collect
collect-wrapped [] h = refl
collect-wrapped ((t, a) ∷ xs) (i, h) =
    rw (wrap_generic_lem t a i, collect, collect-wrapped xs h) refl

-- What the macro makes of a format and at most 63 arguments behind it.
wrap_all_lem :
    (format : Bytes) (xs : List (CType × MacroArg))
    → length xs < 64
    → All (λ x. HasType x.0 x.1) xs
    → wrap_all ((CType.const_char_pointer, format_arg format) ∷ xs)
      ≡ some (Arg.text (some (format ++ 0 ∷ [])) ∷ map wrapped (values xs))
unfolding wrap_all wrap
wrap_all_lem format xs few h =
    let x : CType × MacroArg = (CType.const_char_pointer, format_arg format) in
    elim (macro_map_lem (λ y. wrap_generic y.0 y.1) x xs) [
      | inl (l, e) ↦ rw e (collect-wrapped (x ∷ xs) (tt, h))
      | inr (l, e) ↦ absurd (omega (arith, l, few))
    ]

-- For a format without a terminator inside and at most 63 further arguments, of the types that
-- _Generic lists: if those fit the format in a double build, then npf_snprintf is defined in the
-- single-precision build, where each float, double and long double goes through its wrapper, and it is
-- npf_vsnprintf of the wrapped arguments.
pub npf_snprintf_generic-single :
    (cfg : Config) (fs : FormatSpec) (buffer : Option Bytes) (bufsz : ℕ) (format : Bytes)
    (xs : List (CType × MacroArg))
    → cfg.single_precision ≡ false
    → All (λ c. 0 < c) format
    → length xs < 64
    → All (λ x. HasType x.0 x.1) xs
    → Takes (format_needs cfg (suc (length format)) format) (map promote (values xs)) []
    → (out : Outcome) × (npf_snprintf_generic
          (single_build cfg)
          fs
          buffer
          bufsz
          ((CType.const_char_pointer, format_arg format) ∷ xs)
        ≡ some out)
      × (vsnprintf (single_build cfg) fs buffer bufsz format (map wrapped (values xs)) ≡ some out)
unfolding npf_snprintf_generic snprintf split_format
npf_snprintf_generic-single cfg fs buffer bufsz format xs double plain few typed h =
    let args = map wrapped (values xs) in
    let needs =
      subst (λ ks. Takes ks args [])
        (sym (format_needs-single cfg double (suc (length format)) format))
        (wrapped-Takes (format_needs cfg (suc (length format)) format) (values xs) h) in
    let (out, e) = vsnprintf_defined (single_build cfg) fs buffer bufsz format args needs in
    (out, rw (wrap_all_lem format xs few typed, c_string-format format plain) e, e)
