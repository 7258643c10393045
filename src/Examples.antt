-- ===== src/Examples.antt =====
-- The programs under examples, up to the line that they print: each builds nanoprintf with macros of
-- its own and makes one call. A local buffer holds some bytes before that call.
pub mod WrapNpf
pub mod WrapNpfFloat
pub mod UseNpfDirectly
mod Tests
use nanoprintf.Base.{some, [], ◌∷◌, ◌++◌}
use nanoprintf.Base.Bytes.{Bytes}
use nanoprintf.Args.{Arg}

-- A string literal as an argument.
abbrev pub literal : Bytes → Arg
literal cs = Arg.text (some (cs ++ 0 ∷ []))
