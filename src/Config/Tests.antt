-- ===== src/Config/Tests.antt =====
-- Builds that are accepted and builds that are refused.
use nanoprintf.Base.{◌≡◌, refl, true, false, some, [], ◌∷◌}
use nanoprintf.Samples.{full, no_defines}
use nanoprintf.Config.{Config}
use nanoprintf.Config.Defines.{
  Defines, Error, is_defined, value, default, is_unconfigured, defaults, pick_defaults,
  optional_flags, buffer_size, int_value, checks, errors, to_config, settle, configure,
}

-- Nothing is defined.
configure_default :
    configure no_defines
    ≡ some (record full {
      large = false;
      binary = false;
      writeback = false;
      float_hex = false;
      fixed_width = false;
    })
unfolding configure settle pick_defaults is_unconfigured defaults optional_flags buffer_size default
    is_defined value int_value checks errors to_config
configure_default = refl

-- The first condition does not ask for the optional flags.
abbrev pub hex_only : Defines
hex_only = record no_defines { float_hex = some true }

configure_hex :
    configure hex_only
    ≡ some (record full { large = false; binary = false; writeback = false; fixed_width = false })
unfolding configure settle pick_defaults is_unconfigured defaults optional_flags buffer_size default
    is_defined value int_value checks errors to_config
configure_hex = refl

-- One macro only.
configure_partial :
    errors
      (checks (settle (record no_defines { large = some true; conversion_buffer_size = some 22 })))
    ≡ Error.field_widths_undefined ∷ Error.precisions_undefined ∷ Error.floats_undefined
      ∷ Error.small_undefined ∷ Error.binary_undefined ∷ Error.writeback_undefined
      ∷ Error.buffer_too_small ∷ []
unfolding configure settle pick_defaults is_unconfigured defaults optional_flags buffer_size default
    is_defined value int_value checks errors to_config
configure_partial = refl
