-- ===== src/Examples/WrapNpfFloat.antt =====
-- examples/wrap_npf_float: a macro of the project that wraps its arguments before it calls a variadic
-- function around npf_vsnprintf.
use nanoprintf.Base.{◌>>=◌, ℕ, Option, some, List, [], ◌∷◌, true, false}
use nanoprintf.Base.Bytes.{Bytes, codes}
use nanoprintf.Config.Defines.{Defines, configure}
use nanoprintf.Samples.{no_defines}
use nanoprintf.Spec.{FormatSpec}
use nanoprintf.Args.{Args}
use nanoprintf.Snprintf.{Outcome, vsnprintf}
use nanoprintf.Examples.{literal}
use nanoprintf.Front.{MacroArg, float, passed, map_args, split_format}

-- The macros of your_project_printf.h.
abbrev pub project_defines : Defines
project_defines = record no_defines {
  field_widths = some false;
  precisions = some true;
  floats = some true;
  single_precision = some true;
  small = some false;
  large = some false;
  binary = some false;
  writeback = some false;
}

unfoldable pub your_project_snprintf_ : FormatSpec → Option Bytes → ℕ → Args → Option Outcome
your_project_snprintf_ fs buffer bufsz args = do
  cfg ← configure project_defines
  (format, val) ← split_format args
  vsnprintf cfg fs buffer bufsz format val

-- The macro your_project_snprintf.
unfoldable pub your_project_snprintf :
    FormatSpec → Option Bytes → ℕ → List MacroArg → Option Outcome
your_project_snprintf fs buffer bufsz xs = do
  cfg ← configure project_defines
  args ← map_args cfg xs
  your_project_snprintf_ fs buffer bufsz args

-- 3.14f is given by its bits.
unfoldable pub main : FormatSpec → Bytes → Option Outcome
main fs buf =
    your_project_snprintf fs (some buf) 64 (
      passed (literal (codes "%s %.2f"))
      ∷ passed (literal (codes "pi is"))
      ∷ float 0x4048_f5c3
      ∷ [])
