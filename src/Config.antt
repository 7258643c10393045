-- ===== src/Config.antt =====
-- The compile-time configuration of nanoprintf.h: its NANOPRINTF_USE_* macros as one record, the
-- checks that its #error lines make, and the constants of the target. The target has the LP64
-- data model: int of 32 bits, long, long long, size_t, ptrdiff_t and pointers of 64.
pub mod Defines
pub mod Accepted
mod Tests
use nanoprintf.Base.{ℕ, ◌^◌, ◌-◌, ◌≤◌, ◌≡◌, Bool, true, ◌||◌, ltb, if◌then◌else◌}

-- One field for each macro, true where it is defined to 1. `float_sci` and `float_shortest` are the
-- 'e' and the 'g' conversion. `conversion_float_bits` is the width
-- of NANOPRINTF_CONVERSION_FLOAT_TYPE. The last four are the maxima that the platform's stdint.h
-- gives to the int_fastN_t types.
pub record Config : Type 0 where
  pub field_widths : Bool
  pub precisions : Bool
  pub floats : Bool
  pub large : Bool
  pub small : Bool
  pub binary : Bool
  pub writeback : Bool
  pub alt_forms : Bool
  pub single_precision : Bool
  pub float_hex : Bool
  pub float_sci : Bool
  pub float_shortest : Bool
  pub fixed_width : Bool
  pub division_free : Bool
  pub safe_empty : Bool
  pub conversion_buffer_size : ℕ
  pub conversion_float_bits : ℕ
  pub int_fast8_max : ℕ
  pub int_fast16_max : ℕ
  pub int_fast32_max : ℕ
  pub int_fast64_max : ℕ

-- NPF_USE_SCI
unfoldable pub use_sci : Config → Bool
use_sci cfg = cfg.float_sci || cfg.float_shortest

-- What the #error lines demand.
pub record IsConfig (cfg : Config) : Type 0 where
  pub hex_needs_floats : cfg.float_hex ≡ true → cfg.floats ≡ true
  pub sci_needs_floats : use_sci cfg ≡ true → cfg.floats ≡ true
  pub single_needs_floats : cfg.single_precision ≡ true → cfg.floats ≡ true
  pub fixed_needs_small : cfg.fixed_width ≡ true → cfg.small ≡ true
  pub buffer_holds_octal : 23 ≤ cfg.conversion_buffer_size

abbrev pub schar_max : ℕ
schar_max = 2 ^ 7 - 1

abbrev pub shrt_max : ℕ
shrt_max = 2 ^ 15 - 1

abbrev pub int_max : ℕ
int_max = 2 ^ 31 - 1

abbrev pub long_max : ℕ
long_max = 2 ^ 63 - 1

-- NPF_FMT_NUM_MAX, at an int of 32 bits.
unfoldable pub fmt_num_max : Config → ℕ
fmt_num_max cfg = if ltb 65280 cfg.conversion_buffer_size then cfg.conversion_buffer_size else 65280
