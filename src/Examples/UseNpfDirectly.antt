-- ===== src/Examples/UseNpfDirectly.antt =====
-- examples/use_npf_directly: a call of npf_snprintf, with nanoprintf built in another file.
use nanoprintf.Base.{◌>>=◌, Option, some, [], ◌∷◌, true}
use nanoprintf.Base.Bytes.{Bytes, codes}
use nanoprintf.Config.Defines.{Defines, configure}
use nanoprintf.Samples.{no_defines}
use nanoprintf.Spec.{FormatSpec}
use nanoprintf.Snprintf.{Outcome}
use nanoprintf.Examples.{literal}
use nanoprintf.Front.{passed, npf_snprintf}

-- The macros of your_project_nanoprintf.cc.
abbrev pub project_defines : Defines
project_defines = record no_defines {
  field_widths = some true;
  precisions = some true;
  large = some true;
  small = some true;
  floats = some true;
  binary = some true;
  writeback = some true;
  cplusplus = some 201703;
}

unfoldable pub main : FormatSpec → Bytes → Option Outcome
main fs buf = do
  cfg ← configure project_defines
  npf_snprintf cfg fs (some buf) 32 (
      passed (literal (codes "%s %s"))
      ∷ passed (literal (codes "hello"))
      ∷ passed (literal (codes "nanoprintf"))
      ∷ [])
