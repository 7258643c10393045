-- ===== src/Snprintf/Copy.antt =====
-- npf_snprintf as a copy of a string.
use Prim.Native.Nat.{min}
use native.Mathlib.Nat.{mod-eq_of_lt}
use nanoprintf.Base.{
  ℕ, suc, ◌-◌, ◌%◌, ◌^◌, ◌≤◌, ◌<◌, ◌≡◌, ◌≢◌, refl, ◌∙◌, some, [], ◌∷◌, ◌++◌, map, length, take,
  drop, All, arith,
}
use nanoprintf.Base.Bytes.{Bytes, codes}
use nanoprintf.Samples.{full}
use nanoprintf.Spec.{FormatSpec}
use nanoprintf.Args.{text}
use nanoprintf.Printf.{State, vpprintf}
use nanoprintf.Printf.Trace.{record_byte, foldl-record_byte}
use nanoprintf.Printf.Text.{string_spec, vpprintf-string}
use nanoprintf.Snprintf.{vsnprintf}
use nanoprintf.Snprintf.Overlay.{low_byte}
use nanoprintf.Snprintf.Buffer.{vsnprintf_truncates}

-- The bytes of a string are chars.
map-low_byte : (cs : Bytes) → All (λ c. (c ≢ 0) × (c < 2 ^ 8)) cs → map low_byte cs ≡ cs
map-low_byte [] h = refl
map-low_byte (c ∷ cs) ((_, h), hs) = rw (mod-eq_of_lt h, map-low_byte cs hs) refl

nonzero : (cs : Bytes) → All (λ c. (c ≢ 0) × (c < 2 ^ 8)) cs → All (λ c. c ≢ 0) cs
nonzero [] h = tt
nonzero (c ∷ cs) ((n, _), hs) = (n, nonzero cs hs)

-- In the configuration Samples.full, "%s" with a terminated string of fewer than 2^31 chars copies
-- into a buffer of `bufsz` bytes, not 0 of them, as much of the string as fits before a terminator,
-- leaves what stands behind the terminator, and returns the length of the string.
pub vsnprintf-string :
    (fs : FormatSpec) (cs tail mem : Bytes) (bufsz : ℕ)
    → All (λ c. (c ≢ 0) × (c < 2 ^ 8)) cs
    → 0 < bufsz
    → bufsz ≤ length mem
    → length cs < 2 ^ 31
    → let k = min (length cs) (bufsz - 1) in
      vsnprintf full fs (some mem) bufsz (codes "%s") (text (some (cs ++ 0 ∷ tail)) ∷ [])
      ≡ some
          (record { returned = length cs; memory = take k cs ++ 0 ∷ drop (suc k) mem; stores = [] })
vsnprintf-string fs cs tail mem bufsz h pos room small =
    let st : State Bytes = record {
      ctx = cs;
      fs = string_spec;
      npf_n = length cs % 2 ^ 32;
      args = [];
      stores = [];
    } in
    let printed : vpprintf record_byte full fs [] (codes "%s") (text (some (cs ++ 0 ∷ tail)) ∷ [])
        ≡ some st =
      vpprintf-string record_byte fs [] cs tail [] (nonzero cs h) small
      ∙ rw (foldl-record_byte [] cs) refl in
    vsnprintf_truncates full fs (codes "%s") (text (some (cs ++ 0 ∷ tail)) ∷ []) printed mem bufsz
      refl pos room (omega (arith, small))
    ∙ rw (map-low_byte cs h) refl
