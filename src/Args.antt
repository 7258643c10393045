-- ===== src/Args.antt =====
-- The variable arguments of npf_vpprintf. The compiler's va_list is a list of the values passed, each
-- with the type that the caller gave it. `none` is undefined behaviour: a read of an argument that is
-- missing or of another type.
use nanoprintf.Base.{ℕ, Option, some, none, List, ◌∷◌}
use nanoprintf.Base.Bytes.{Bytes}

-- A number is its bit pattern. `text` is a char pointer with the bytes that may be read from it on,
-- `none` for the null pointer; `single` is an `npf_float_t`, and `long_real` a long double, given by
-- the double that its conversion yields.
pub data Arg : Type 0 where
  word32 : ℕ → Arg
  word64 : ℕ → Arg
  pointer : ℕ → Arg
  text : Option Bytes → Arg
  real : ℕ → Arg
  long_real : ℕ → Arg
  single : ℕ → Arg

abbrev pub Args : Type 0
Args = List Arg

-- `va_arg(args, int)` and `va_arg(args, unsigned)`
unfoldable pub arg_word32 : Args → Option (ℕ × Args)
arg_word32 (word32 v ∷ args) = some (v, args)
arg_word32 _ = none

-- `va_arg` at long, long long, intmax_t, size_t, ptrdiff_t and their unsigned counterparts.
unfoldable pub arg_word64 : Args → Option (ℕ × Args)
arg_word64 (word64 v ∷ args) = some (v, args)
arg_word64 _ = none

-- `va_arg(args, void *)`
unfoldable pub arg_pointer : Args → Option (ℕ × Args)
arg_pointer (pointer p ∷ args) = some (p, args)
arg_pointer _ = none

-- `va_arg(args, char *)`
unfoldable pub arg_text : Args → Option (Option Bytes × Args)
arg_text (text s ∷ args) = some (s, args)
arg_text _ = none

-- `va_arg(args, double)`
unfoldable pub arg_real : Args → Option (ℕ × Args)
arg_real (real v ∷ args) = some (v, args)
arg_real _ = none

-- `(double)va_arg(args, long double)`
unfoldable pub arg_long_real : Args → Option (ℕ × Args)
arg_long_real (long_real v ∷ args) = some (v, args)
arg_long_real _ = none

-- `va_arg(args, npf_float_t).val`
unfoldable pub arg_single : Args → Option (ℕ × Args)
arg_single (single v ∷ args) = some (v, args)
arg_single _ = none
