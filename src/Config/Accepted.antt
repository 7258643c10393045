-- ===== src/Config/Accepted.antt =====
-- The builds that the #error lines accept.
use nanoprintf.Base.{ℕ, ◌≤◌, ◌≡◌, ◌⊎◌, Bool, true, false, ◌||◌, Option, none, some}
use nanoprintf.Config.{Config}
use nanoprintf.Config.Defines.{Defines, is_defined, value, is_unconfigured}

-- The seven macros that have no default of their own are defined.
abbrev pub IsComplete : Defines → Type 0
IsComplete d =
    (is_defined d.field_widths ≡ true)
    × (is_defined d.precisions ≡ true)
    × (is_defined d.floats ≡ true)
    × (is_defined d.large ≡ true)
    × (is_defined d.small ≡ true)
    × (is_defined d.binary ≡ true)
    × (is_defined d.writeback ≡ true)

-- Each feature has what it depends on.
abbrev pub IsCompatible : Defines → Type 0
IsCompatible d =
    (value d.float_hex ≡ true → value d.floats ≡ true)
    × ((value d.float_sci || value d.float_shortest) ≡ true → value d.floats ≡ true)
    × (value d.single_precision ≡ true → value d.floats ≡ true)
    × (value d.fixed_width ≡ true → value d.small ≡ true)

-- A compiler of the C++ of 2011 or the C of 2011, or one that had what the wrapping needs before.
abbrev pub IsModern : Option ℕ → Bool → Bool → Option ℕ → Type 0
IsModern (some version) msc_ver gnuc_or_clang stdc = (201103 ≤ version) ⊎ (msc_ver ≡ true)
IsModern none msc_ver true stdc = Unit
IsModern none msc_ver false none = ⊥
IsModern none msc_ver false (some version) = 201112 ≤ version

-- Single precision has the compiler that it needs.
abbrev pub IsWrappable : Defines → Type 0
IsWrappable d =
    value d.single_precision ≡ true
    → (value d.msvc_traditional ≡ false)
      × IsModern d.cplusplus d.msc_ver d.gnuc_or_clang d.stdc_version

-- Fixed-width specifiers have a stdint.h without other widths.
abbrev pub HasWidths : Defines → Type 0
HasWidths d = value d.fixed_width ≡ true → d.other_stdint_width ≡ false

-- A conversion buffer of less than 23 bytes is not asked for.
abbrev pub IsRoomy : Option ℕ → Type 0
IsRoomy none = Unit
IsRoomy (some n) = 23 ≤ n

-- Nothing has been configured, or everything, with features that go together and that the compiler
-- supports; the widths are there; and the buffer is large enough.
abbrev pub IsAccepted : Defines → Type 0
IsAccepted d =
    ((is_unconfigured d ≡ true)
      ⊎ ((is_unconfigured d ≡ false) × IsComplete d × IsCompatible d × IsWrappable d))
    × HasWidths d
    × IsRoomy d.conversion_buffer_size
