-- ===== src/Snprintf/Tests.antt =====
-- Runs of `npf_vsnprintf`.
use nanoprintf.Base.{◌≡◌, refl, ◌<◌, ◌≤◌, some, none, [], ◌∷◌, ◌++◌, true, drop, arith}
use nanoprintf.Base.Bytes.{Bytes, peek, codes}
use nanoprintf.Config.{Config}
use nanoprintf.Samples.{full, blank}
use nanoprintf.Printf.Tests.{signed_args, signed_state, call_state, safe_state}
use nanoprintf.Snprintf.{Outcome, vsnprintf}
use nanoprintf.Args.{Arg}
use nanoprintf.Snprintf.Copy.{vsnprintf-string}
use nanoprintf.Snprintf.Buffer.{vsnprintf_truncates, vsnprintf_empties, vsnprintf_counts}

abbrev buffer : Bytes
buffer = codes "abcdef"

vsnprintf_truncates_example :
    vsnprintf full blank (some buffer) 3 (codes "%d") signed_args
    ≡ some (record { returned = 3; memory = codes "-4" ++ 0 ∷ codes "def"; stores = [] })
vsnprintf_truncates_example =
    vsnprintf_truncates full blank (codes "%d") signed_args {st = signed_state} call_state buffer 3
      refl (omega arith) (omega arith) (omega arith)

vsnprintf_counts_example :
    (vsnprintf full blank (some buffer) 0 (codes "%d") signed_args
      ≡ some (record { returned = 3; memory = buffer; stores = [] }))
    × (vsnprintf full blank none 7 (codes "%d") signed_args
        ≡ some (record { returned = 3; memory = []; stores = [] }))
vsnprintf_counts_example =
    vsnprintf_counts full blank (codes "%d") signed_args {st = signed_state} call_state buffer 7

abbrev safe : Config
safe = record full { safe_empty = true }

vsnprintf_empties_example :
    (o : Outcome) × (vsnprintf safe blank (some buffer) 3 (codes "%d") signed_args ≡ some o)
    × (o.returned ≡ 3)
    × (3 ≤ 3 → (peek o.memory ≡ 0) × (drop 3 o.memory ≡ drop 3 buffer))
    × (3 < 3 → o.memory ≡ codes "-42" ++ 0 ∷ drop 4 buffer)
vsnprintf_empties_example =
    vsnprintf_empties safe blank (codes "%d") signed_args {st = signed_state} safe_state buffer 3
      refl (omega arith) (omega arith) (omega arith)

vsnprintf-string_example :
    vsnprintf full blank
      (some buffer)
      4
      (codes "%s")
      (Arg.text (some (codes "wxyz" ++ 0 ∷ [])) ∷ [])
    ≡ some (record { returned = 4; memory = codes "wxy" ++ 0 ∷ codes "ef"; stores = [] })
vsnprintf-string_example =
    vsnprintf-string blank (codes "wxyz") [] buffer 4
      (
        (omega arith, omega arith),
        (
          (omega arith, omega arith),
          ((omega arith, omega arith), ((omega arith, omega arith), tt)),
        ),
      )
      (omega arith) (omega arith) (omega arith)
