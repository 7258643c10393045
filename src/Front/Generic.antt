-- ===== src/Front/Generic.antt =====
-- NPF__WRAP for a compiler of C that is neither GCC nor Clang: _Generic picks a function by the type
-- of the argument, and a type that it does not list is refused.
pub mod Agree
use nanoprintf.Base.Bytes.{Bytes}
use nanoprintf.Config.{Config}
use nanoprintf.Spec.{FormatSpec}
use nanoprintf.Snprintf.{Outcome}
use nanoprintf.Base.{ℕ, ◌>>=◌, Option, none, some, List, [], ◌∷◌}
use nanoprintf.Args.{Arg, Args}
use nanoprintf.Front.{MacroArg, passed, macro_map, snprintf}
use nanoprintf.Front.Narrow.{narrow}

-- The types of the association list, and all others.
pub data CType : Type 0 where
  float double long_double : CType
  int unsigned long unsigned_long long_long unsigned_long_long : CType
  char signed_char unsigned_char short unsigned_short : CType
  char_pointer const_char_pointer void_pointer const_void_pointer : CType
  int_pointer short_pointer long_pointer long_long_pointer signed_char_pointer : CType
  other : CType

-- npf__wf, npf__wd, npf__wld, and the functions npf__id_*, which return what they are given.
pub data Selected : Type 0 where
  wf wd wld id : Selected

-- The function that _Generic picks.
unfoldable pub select : CType → Option Selected
select CType.float = some Selected.wf
select CType.double = some Selected.wd
select CType.long_double = some Selected.wld
select CType.other = none
select _ = some Selected.id

-- Its call. A long double is given by the double that it becomes, so the cast is that double's.
unfoldable pub apply : Selected → MacroArg → Option Arg
apply Selected.wf (MacroArg.float f) = some (Arg.single f)
apply Selected.wd (passed (Arg.real d)) = some (Arg.single (narrow d))
apply Selected.wld (passed (Arg.long_real d)) = some (Arg.single (narrow d))
apply Selected.id (passed a) = some a
apply _ _ = none

unfoldable pub wrap_generic : CType → MacroArg → Option Arg
wrap_generic t a = select t >>= λ s. apply s a

-- An argument of a type, as a variadic call would pass it.
abbrev pub HasType : CType → MacroArg → Type 0
HasType CType.float (MacroArg.float f) = Unit
HasType CType.double (passed (Arg.real d)) = Unit
HasType CType.long_double (passed (Arg.long_real d)) = Unit
HasType CType.int (passed (Arg.word32 v)) = Unit
HasType CType.unsigned (passed (Arg.word32 v)) = Unit
HasType CType.char (passed (Arg.word32 v)) = Unit
HasType CType.signed_char (passed (Arg.word32 v)) = Unit
HasType CType.unsigned_char (passed (Arg.word32 v)) = Unit
HasType CType.short (passed (Arg.word32 v)) = Unit
HasType CType.unsigned_short (passed (Arg.word32 v)) = Unit
HasType CType.long (passed (Arg.word64 v)) = Unit
HasType CType.unsigned_long (passed (Arg.word64 v)) = Unit
HasType CType.long_long (passed (Arg.word64 v)) = Unit
HasType CType.unsigned_long_long (passed (Arg.word64 v)) = Unit
HasType CType.char_pointer (passed (Arg.text s)) = Unit
HasType CType.const_char_pointer (passed (Arg.text s)) = Unit
HasType CType.void_pointer (passed (Arg.pointer p)) = Unit
HasType CType.const_void_pointer (passed (Arg.pointer p)) = Unit
HasType CType.int_pointer (passed (Arg.pointer p)) = Unit
HasType CType.short_pointer (passed (Arg.pointer p)) = Unit
HasType CType.long_pointer (passed (Arg.pointer p)) = Unit
HasType CType.long_long_pointer (passed (Arg.pointer p)) = Unit
HasType CType.signed_char_pointer (passed (Arg.pointer p)) = Unit
HasType _ _ = ⊥

-- The arguments that have all been wrapped.
unfoldable pub collect : List (Option Arg) → Option Args
collect [] = some []
collect (x ∷ xs) = do a ← x; rest ← collect xs; some (a ∷ rest)

-- `NPF__MAP(NPF__WRAP, ...)` over the arguments of a call, each with its type, the format first.
unfoldable pub wrap_all : List (CType × MacroArg) → Option Args
wrap_all xs = macro_map (λ x. wrap_generic x.0 x.1) xs >>= collect

-- npf_snprintf of a single-precision build, as those compilers expand it.
unfoldable pub npf_snprintf_generic :
    Config → FormatSpec → Option Bytes → ℕ → List (CType × MacroArg) → Option Outcome
npf_snprintf_generic cfg fs buffer bufsz xs =
    wrap_all xs >>= λ args. snprintf cfg fs buffer bufsz args
