-- ===== src/Printf/Needs.antt =====
-- The arguments that a format asks for: the promise that a caller of npf_vpprintf keeps.
use mathlib.Core.Path.{subst}
use nanoprintf.Base.{
  ℕ, zero, suc, ◌^◌, ◌≤◌, ◌≡◌, length, refl, Bool, ◌&&◌, some, none, List, [], ◌∷◌, ◌++◌, ◌==◌,
  if◌then◌else◌,
}
use nanoprintf.Base.Bytes.{Bytes, peek, advance}
use nanoprintf.Config.{Config}
use nanoprintf.Spec.{LengthModifier, ConvSpec, FormatSpec, is_star}
use nanoprintf.Args.{Arg, Args}
use nanoprintf.Samples.{blank}
use nanoprintf.Convert.{is_word64}
use nanoprintf.Printf.{parse_at}

pub data Kind : Type 0 where
  int long address text double long_double single : Kind

-- The bytes hold a terminator.
abbrev pub IsTerminated : Bytes → Type 0
IsTerminated [] = ⊥
IsTerminated (zero ∷ cs) = Unit
IsTerminated (suc c ∷ cs) = IsTerminated cs

-- An argument of a kind; a char pointer is null or reaches at most 2^31 bytes, a terminator among them.
abbrev pub IsKind : Kind → Arg → Type 0
IsKind Kind.int (Arg.word32 v) = Unit
IsKind Kind.long (Arg.word64 v) = Unit
IsKind Kind.address (Arg.pointer p) = Unit
IsKind Kind.text (Arg.text none) = Unit
IsKind Kind.text (Arg.text (some cs)) = IsTerminated cs × (length cs ≤ 2 ^ 31)
IsKind Kind.double (Arg.real v) = Unit
IsKind Kind.long_double (Arg.long_real v) = Unit
IsKind Kind.single (Arg.single v) = Unit
IsKind _ _ = ⊥

-- The arguments start with one of each kind, and `rest` is behind them.
abbrev pub Takes : List Kind → Args → Args → Type 0
Takes [] args rest = args ≡ rest
Takes (k ∷ ks) [] rest = ⊥
Takes (k ∷ ks) (a ∷ args) rest = IsKind k a × Takes ks args rest

pub Takes-eq :
    {ks ls : List Kind} (args rest : Args) → ks ≡ ls → Takes ks args rest → Takes ls args rest
Takes-eq args rest e h = subst (λ ks. Takes ks args rest) e h

pub Takes-append :
    (ks ls : List Kind) (args rest : Args)
    → Takes (ks ++ ls) args rest
    → (mid : Args) × Takes ks args mid × Takes ls mid rest
Takes-append [] ls args rest h = (args, refl, h)
Takes-append (k ∷ ks) ls [] rest h = absurd h
Takes-append (k ∷ ks) ls (a ∷ args) rest (i, h) =
    let (mid, t, u) = Takes-append ks ls args rest h in (mid, (i, t), u)

-- A star takes an int.
unfoldable pub star_needs : Bool → List Kind
star_needs star = if star then Kind.int ∷ [] else []

unfoldable pub integer_needs : LengthModifier → List Kind
integer_needs m = (if is_word64 m then Kind.long else Kind.int) ∷ []

unfoldable pub real_needs : Config → LengthModifier → List Kind
real_needs cfg LengthModifier.long_double =
    (if cfg.single_precision then Kind.single else Kind.long_double) ∷ []
real_needs cfg _ = (if cfg.single_precision then Kind.single else Kind.double) ∷ []

-- What a conversion takes; one that is compiled out is never parsed.
unfoldable pub conversion_needs : Config → ConvSpec → LengthModifier → List Kind
conversion_needs cfg ConvSpec.none m = []
conversion_needs cfg ConvSpec.percent m = []
conversion_needs cfg ConvSpec.char m = Kind.int ∷ []
conversion_needs cfg ConvSpec.string m = Kind.text ∷ []
conversion_needs cfg ConvSpec.pointer m = Kind.address ∷ []
conversion_needs cfg ConvSpec.writeback m =
    if cfg.writeback then Kind.address ∷ [] else integer_needs m
conversion_needs cfg ConvSpec.float_dec m = if cfg.floats then real_needs cfg m else integer_needs m
conversion_needs cfg ConvSpec.float_hex m = if cfg.floats then real_needs cfg m else integer_needs m
conversion_needs cfg ConvSpec.float_sci m = if cfg.floats then real_needs cfg m else integer_needs m
conversion_needs cfg ConvSpec.float_shortest m =
    if cfg.floats then real_needs cfg m else integer_needs m
conversion_needs cfg _ m = integer_needs m

unfoldable pub directive_needs : Config → FormatSpec → List Kind
directive_needs cfg fs =
    star_needs (cfg.field_widths && is_star fs.field_width_opt)
    ++ (star_needs (cfg.precisions && is_star fs.prec_opt)
        ++ conversion_needs cfg fs.conv_spec fs.length_modifier)

-- What a format takes, directive by directive; the fuel is a number above its length.
unfoldable pub format_needs : Config → ℕ → Bytes → List Kind
format_needs cfg zero cur = []
format_needs cfg (suc fuel) cur =
    let verbatim = format_needs cfg fuel (advance cur) in
    let next : List Kind = elim (parse_at cfg cur blank) [
      | none ↦ verbatim
      | some (fs, end) ↦ directive_needs cfg fs ++ format_needs cfg fuel end
    ] in
    if peek cur == 0 then [] else next
