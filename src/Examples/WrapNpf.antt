-- ===== src/Examples/WrapNpf.antt =====
-- examples/wrap_npf: a variadic function of the project around npf_vsnprintf.
use nanoprintf.Base.{◌>>=◌, ℕ, Option, some, [], ◌∷◌, true, false}
use nanoprintf.Base.Bytes.{Bytes, codes}
use nanoprintf.Config.Defines.{Defines, configure}
use nanoprintf.Samples.{no_defines}
use nanoprintf.Spec.{FormatSpec}
use nanoprintf.Args.{Args}
use nanoprintf.Snprintf.{Outcome, vsnprintf}
use nanoprintf.Examples.{literal}
use nanoprintf.Front.{split_format}

-- The macros of your_project_printf.cc.
abbrev pub project_defines : Defines
project_defines = record no_defines {
  field_widths = some true;
  precisions = some true;
  large = some true;
  small = some true;
  floats = some true;
  binary = some true;
  writeback = some false;
  cplusplus = some 201703;
}

unfoldable pub your_project_snprintf : FormatSpec → Option Bytes → ℕ → Args → Option Outcome
your_project_snprintf fs buffer bufsz args = do
  cfg ← configure project_defines
  (format, val) ← split_format args
  vsnprintf cfg fs buffer bufsz format val

unfoldable pub main : FormatSpec → Bytes → Option Outcome
main fs buf =
    your_project_snprintf fs (some buf) 32
      (literal (codes "%s %s") ∷ literal (codes "hello") ∷ literal (codes "nanoprintf") ∷ [])
