-- ===== src/Config/Defines.antt =====
-- The preprocessor's part in the configuration of nanoprintf.h: the defaults that it picks and the
-- macros, combinations and compilers that its #error lines refuse.
use nanoprintf.Base.{
  ℕ, Bool, true, false, not, ◌&&◌, ◌||◌, Option, none, some, List, [], ◌∷◌, ltb, if◌then◌else◌,
}
use nanoprintf.Config.{Config}

-- What the translation unit has defined before it includes the header: a switch that is undefined, or
-- defined to 0 or 1. `safe_empty` is tested by #ifdef only. Behind the two sizes stands what the target
-- defines: `other_stdint_width` is whether stdint.h has one of INTn_MAX and INT_LEASTn_MAX with an n of
-- 24, 40, 48 or 128, the four maxima are those of its int_fastN_t, and the last fields are
-- _MSVC_TRADITIONAL, _MSC_VER, __GNUC__ or __clang__, __cplusplus and __STDC_VERSION__.
pub record Defines : Type 0 where
  pub field_widths : Option Bool
  pub precisions : Option Bool
  pub floats : Option Bool
  pub large : Option Bool
  pub small : Option Bool
  pub binary : Option Bool
  pub writeback : Option Bool
  pub alt_forms : Option Bool
  pub single_precision : Option Bool
  pub float_hex : Option Bool
  pub float_sci : Option Bool
  pub float_shortest : Option Bool
  pub fixed_width : Option Bool
  pub division_free : Option Bool
  pub safe_empty : Bool
  pub conversion_buffer_size : Option ℕ
  pub conversion_float_bits : Option ℕ
  pub int_fast8_max : ℕ
  pub int_fast16_max : ℕ
  pub int_fast32_max : ℕ
  pub int_fast64_max : ℕ
  pub other_stdint_width : Bool
  pub msvc_traditional : Option Bool
  pub msc_ver : Bool
  pub gnuc_or_clang : Bool
  pub cplusplus : Option ℕ
  pub stdc_version : Option ℕ

-- An #error line.
pub data Error : Type 0 where
  field_widths_undefined : Error
  precisions_undefined : Error
  floats_undefined : Error
  large_undefined : Error
  small_undefined : Error
  binary_undefined : Error
  writeback_undefined : Error
  hex_without_floats : Error
  sci_without_floats : Error
  single_without_floats : Error
  fixed_without_small : Error
  other_widths : Error
  traditional_preprocessor : Error
  old_cplusplus : Error
  old_c : Error
  buffer_too_small : Error

-- `defined(...)`
unfoldable pub is_defined {ℓ} : {A : Type ℓ} → Option A → Bool
is_defined none = false
is_defined (some x) = true

-- A macro in a condition, where an undefined one is 0.
unfoldable pub value : Option Bool → Bool
value none = false
value (some b) = b

-- `#ifndef`, and the definition under it.
unfoldable pub default {ℓ} : {A : Type ℓ} → A → Option A → Option A
default x none = some x
default x (some y) = some y

-- None of the macros is defined that the defaults depend on.
unfoldable pub is_unconfigured : Defines → Bool
is_unconfigured d =
    not (is_defined d.field_widths)
    && not (is_defined d.precisions)
    && not (is_defined d.floats)
    && not (is_defined d.large)
    && not (is_defined d.small)
    && not (is_defined d.binary)
    && not (is_defined d.writeback)
    && not (is_defined d.alt_forms)
    && not (is_defined d.single_precision)

-- The definitions where nothing has been configured.
unfoldable pub defaults : Defines → Defines
defaults d = record d {
  field_widths = some true;
  precisions = some true;
  floats = some true;
  large = some false;
  small = some true;
  binary = some false;
  writeback = some false;
  alt_forms = some true;
  single_precision = some false;
}

unfoldable pub pick_defaults : Defines → Defines
pick_defaults d = if is_unconfigured d then defaults d else d

-- The flags that are off unless they are defined.
unfoldable pub optional_flags : Defines → Defines
optional_flags d = record d {
  single_precision = default false d.single_precision;
  float_hex = default false d.float_hex;
  float_sci = default false d.float_sci;
  float_shortest = default false d.float_shortest;
  fixed_width = default false d.fixed_width;
  division_free = default false d.division_free;
}

-- The default size of the conversion buffer.
unfoldable pub buffer_size : Defines → Defines
buffer_size d = record d {
  conversion_buffer_size = default (if value d.floats then 64 else 23) d.conversion_buffer_size;
}

unfoldable pub int_value : Option ℕ → ℕ
int_value none = 0
int_value (some n) = n

-- `__cplusplus < 201103L && !defined(_MSC_VER)`, where __cplusplus is defined.
unfoldable pub is_old_cplusplus : Option ℕ → Bool → Bool
is_old_cplusplus none msc_ver = false
is_old_cplusplus (some version) msc_ver = ltb version 201103 && not msc_ver

-- Without __cplusplus: neither GCC nor Clang, and no __STDC_VERSION__ of at least 201112L.
unfoldable pub is_old_c : Option ℕ → Bool → Option ℕ → Bool
is_old_c (some version) gnuc_or_clang stdc_version = false
is_old_c none true stdc_version = false
is_old_c none false none = true
is_old_c none false (some version) = ltb version 201112

-- The conditions of the #error lines, in their order.
unfoldable pub checks : Defines → List (Bool × Error)
checks d =
    (not (is_defined d.field_widths), Error.field_widths_undefined)
    ∷ (not (is_defined d.precisions), Error.precisions_undefined)
    ∷ (not (is_defined d.floats), Error.floats_undefined)
    ∷ (not (is_defined d.large), Error.large_undefined)
    ∷ (not (is_defined d.small), Error.small_undefined)
    ∷ (not (is_defined d.binary), Error.binary_undefined)
    ∷ (not (is_defined d.writeback), Error.writeback_undefined)
    ∷ (value d.float_hex && not (value d.floats), Error.hex_without_floats)
    ∷ (
      (value d.float_sci || value d.float_shortest) && not (value d.floats),
      Error.sci_without_floats,
    )
    ∷ (value d.single_precision && not (value d.floats), Error.single_without_floats)
    ∷ (value d.fixed_width && not (value d.small), Error.fixed_without_small)
    ∷ (value d.fixed_width && d.other_stdint_width, Error.other_widths)
    ∷ (value d.single_precision && value d.msvc_traditional, Error.traditional_preprocessor)
    ∷ (value d.single_precision && is_old_cplusplus d.cplusplus d.msc_ver, Error.old_cplusplus)
    ∷ (value d.single_precision && is_old_c d.cplusplus d.gnuc_or_clang d.stdc_version, Error.old_c)
    ∷ (ltb (int_value d.conversion_buffer_size) 23, Error.buffer_too_small)
    ∷ []

-- The #error lines whose condition holds.
unfoldable pub errors : List (Bool × Error) → List Error
errors [] = []
errors ((b, e) ∷ cs) = if b then e ∷ errors cs else errors cs

-- What the lines behind the checks see. An undefined NANOPRINTF_CONVERSION_FLOAT_TYPE is an unsigned int.
unfoldable pub to_config : Defines → Config
to_config d = record {
  field_widths = value d.field_widths;
  precisions = value d.precisions;
  floats = value d.floats;
  large = value d.large;
  small = value d.small;
  binary = value d.binary;
  writeback = value d.writeback;
  alt_forms = value d.alt_forms;
  single_precision = value d.single_precision;
  float_hex = value d.float_hex;
  float_sci = value d.float_sci;
  float_shortest = value d.float_shortest;
  fixed_width = value d.fixed_width;
  division_free = value d.division_free;
  safe_empty = d.safe_empty;
  conversion_buffer_size = int_value d.conversion_buffer_size;
  conversion_float_bits = int_value (default 32 d.conversion_float_bits);
  int_fast8_max = d.int_fast8_max;
  int_fast16_max = d.int_fast16_max;
  int_fast32_max = d.int_fast32_max;
  int_fast64_max = d.int_fast64_max;
}

-- The macros after all defaults.
unfoldable pub settle : Defines → Defines
settle d = buffer_size (optional_flags (pick_defaults d))

-- The configuration of the build; an #error ends the compilation.
unfoldable pub configure : Defines → Option Config
configure d = elim (errors (checks (settle d))) [ [] ↦ some (to_config (settle d)) | e ∷ es ↦ none ]
