-- ===== src/Front.antt =====
-- The macros and functions that a caller of nanoprintf.h names: npf_snprintf and npf_pprintf, with
-- NPF_MAP_ARGS and the preprocessor machinery behind it, in C++ and with GCC or Clang. In a
-- single-precision build a float or double argument is wrapped into an `npf_float_t`.
mod Tests
pub mod Narrow
pub mod Map
pub mod Single
pub mod Wrap
pub mod Generic
pub mod LongDouble
use nanoprintf.Base.{
  ◌>>=◌, ℕ, zero, suc, ◌⊎◌, inl, inr, Option, none, some, List, [], ◌∷◌, ◌++◌, map, get_elem?,
  if◌then◌else◌,
}
use nanoprintf.Base.Bytes.{Bytes}
use nanoprintf.Config.{Config}
use nanoprintf.Spec.{FormatSpec}
use nanoprintf.Args
use nanoprintf.Args.{Arg, Args}
use nanoprintf.Float.Hex.{widen}
use nanoprintf.Printf.{State, vpprintf}
use nanoprintf.Snprintf.{Outcome, vsnprintf}
use nanoprintf.Front.Narrow.{narrow}

-- An argument of the macros by its type: a float, given by its bits, or a value that a variadic call
-- passes as it is.
pub data MacroArg : Type 0 where
  float : ℕ → MacroArg
  passed : Arg → MacroArg

-- NPF__WRAP: a float or a double becomes an `npf_float_t`, all else stays.
unfoldable pub wrap : MacroArg → Arg
wrap (float f) = Arg.single f
wrap (passed (Arg.real d)) = Arg.single (narrow d)
wrap (passed a) = a

-- The default promotion of an argument that is not wrapped.
unfoldable pub promote : MacroArg → Arg
promote (float f) = Arg.real (widen f)
promote (passed a) = a

-- NPF__RSEQ: `n` down to 0.
unfoldable pub rseq : ℕ → List ℕ
rseq zero = 0 ∷ []
rseq (suc n) = suc n ∷ rseq n

module _ {ℓ} {A : Type ℓ} where
  -- A token that stands for a number. Another is an argument, for which there is no NPF__MAP_.
  unfoldable pub token_number : Option (A ⊎ ℕ) → Option ℕ
  token_number none = none
  token_number (some (inl x)) = none
  token_number (some (inr n)) = some n

  -- NPF__NARG: the 65th of the arguments and the numbers that follow them.
  unfoldable pub narg : List A → Option ℕ
  narg xs = token_number (get_elem? (map (λ x. inl x) xs ++ map (λ n. inr n) (rseq 64)) 64)

module _ {ℓ κ} {A : Type ℓ} {B : Type κ} (f : A → B) where
  -- NPF__MAP_1 and the macros above it, by their number.
  unfoldable pub map_n : ℕ → List A → Option (List B)
  map_n (suc zero) (a ∷ []) = some (f a ∷ [])
  map_n (suc (suc n)) (a ∷ x ∷ xs) = map_n (suc n) (x ∷ xs) >>= λ ys. some (f a ∷ ys)
  map_n _ _ = none

  -- NPF__MAP
  unfoldable pub macro_map : List A → Option (List B)
  macro_map xs = narg xs >>= λ n. map_n n xs

-- NPF_MAP_ARGS, and the promotion of what it leaves as it is.
unfoldable pub map_args : Config → List MacroArg → Option Args
map_args cfg xs = if cfg.single_precision then macro_map wrap xs else some (map promote xs)

-- The string that a pointer reaches.
unfoldable pub c_string : Bytes → Option Bytes
c_string [] = none
c_string (zero ∷ cs) = some []
c_string (suc c ∷ cs) = c_string cs >>= λ s. some (suc c ∷ s)

-- A format and the va_list behind it, as a variadic function gets them.
unfoldable pub split_format : Args → Option (Bytes × Args)
split_format (Arg.text (some cs) ∷ args) = c_string cs >>= λ s. some (s, args)
split_format _ = none

-- `npf_snprintf_`: its last named parameter is the format.
unfoldable pub snprintf : Config → FormatSpec → Option Bytes → ℕ → Args → Option Outcome
snprintf cfg fs buffer bufsz args = split_format args >>= λ r. vsnprintf cfg fs buffer bufsz r.0 r.1

-- `npf_pprintf_`
unfoldable pub pprintf {ℓ} :
    {S : Type ℓ} → (S → ℕ → S) → Config → FormatSpec → S → Args → Option (State S)
pprintf pc cfg fs ctx args = split_format args >>= λ r. vpprintf pc cfg fs ctx r.0 r.1

-- The macros npf_snprintf and npf_pprintf.
unfoldable pub npf_snprintf :
    Config → FormatSpec → Option Bytes → ℕ → List MacroArg → Option Outcome
npf_snprintf cfg fs buffer bufsz xs = map_args cfg xs >>= λ args. snprintf cfg fs buffer bufsz args

unfoldable pub npf_pprintf {ℓ} :
    {S : Type ℓ} → (S → ℕ → S) → Config → FormatSpec → S → List MacroArg → Option (State S)
npf_pprintf pc cfg fs ctx xs = map_args cfg xs >>= λ args. pprintf pc cfg fs ctx args
