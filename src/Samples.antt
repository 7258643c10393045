-- ===== src/Samples.antt =====
-- A configuration, a cleared struct and inputs that the tests and the concrete instances share.
use nanoprintf.Base.{◌-◌, ◌^◌, true, false, none, some}
use nanoprintf.Config.{Config}
use nanoprintf.Config.Defines.{Defines}
use nanoprintf.Spec.{Opt, LengthModifier, ConvSpec, FormatSpec}

-- Every feature compiled in but single precision, 'e' and 'g', on glibc.
abbrev pub full : Config
full = record {
  field_widths = true;
  precisions = true;
  floats = true;
  large = true;
  small = true;
  binary = true;
  writeback = true;
  alt_forms = true;
  single_precision = false;
  float_hex = true;
  float_sci = false;
  float_shortest = false;
  fixed_width = true;
  division_free = false;
  safe_empty = false;
  conversion_buffer_size = 64;
  conversion_float_bits = 32;
  int_fast8_max = 2 ^ 7 - 1;
  int_fast16_max = 2 ^ 63 - 1;
  int_fast32_max = 2 ^ 63 - 1;
  int_fast64_max = 2 ^ 63 - 1;
}

-- The same with 'e' and 'g'.
abbrev pub full_sci : Config
full_sci = record full { float_sci = true; float_shortest = true }

abbrev pub blank : FormatSpec
blank = record {
  field_width = 0;
  prec = 0;
  prec_opt = Opt.none;
  field_width_opt = Opt.none;
  left_justified = 0;
  leading_zero_pad = 0;
  prepend = 0;
  alt_form = 0;
  case_adjust = 0;
  length_modifier = LengthModifier.none;
  conv_spec = ConvSpec.none;
}

-- No macro is defined, on glibc with GCC in the C of 2011.
abbrev pub no_defines : Defines
no_defines = record {
  field_widths = none;
  precisions = none;
  floats = none;
  large = none;
  small = none;
  binary = none;
  writeback = none;
  alt_forms = none;
  single_precision = none;
  float_hex = none;
  float_sci = none;
  float_shortest = none;
  fixed_width = none;
  division_free = none;
  safe_empty = false;
  conversion_buffer_size = none;
  conversion_float_bits = none;
  int_fast8_max = 2 ^ 7 - 1;
  int_fast16_max = 2 ^ 63 - 1;
  int_fast32_max = 2 ^ 63 - 1;
  int_fast64_max = 2 ^ 63 - 1;
  other_stdint_width = false;
  msvc_traditional = none;
  msc_ver = false;
  gnuc_or_clang = true;
  cplusplus = none;
  stdc_version = some 201112;
}
