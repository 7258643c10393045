-- ===== src/Spec.antt =====
-- The enumerations and the struct of nanoprintf.h that a parsed directive is made of.
pub mod Order
pub mod Numbers
mod Tests
use nanoprintf.Base.{ℕ, Bool, true, false}

-- NPF_FMT_SPEC_OPT_*
pub data Opt : Type 0 where
  none literal star : Opt

-- `opt == NPF_FMT_SPEC_OPT_NONE` and `opt == NPF_FMT_SPEC_OPT_STAR`
abbrev pub is_none : Opt → Bool
is_none Opt.none = true
is_none _ = false

abbrev pub is_star : Opt → Bool
is_star Opt.star = true
is_star _ = false

-- NPF_FMT_SPEC_LEN_MOD_*
pub data LengthModifier : Type 0 where
  none short char long long_double : LengthModifier
  large_long_long large_intmax large_sizet large_ptrdifft : LengthModifier

-- NPF_FMT_SPEC_CONV_*, with every optional member compiled in.
pub data ConvSpec : Type 0 where
  none percent char string signed_int binary octal hex_int unsigned_int pointer : ConvSpec
  writeback float_dec float_hex float_sci float_shortest : ConvSpec

-- The place of a member in the enumeration. A configuration leaves members out and keeps the order
-- of the others, so a comparison of two members has the same answer in each.
unfoldable pub index : ConvSpec → ℕ
index ConvSpec.none = 0
index ConvSpec.percent = 1
index ConvSpec.char = 2
index ConvSpec.string = 3
index ConvSpec.signed_int = 4
index ConvSpec.binary = 5
index ConvSpec.octal = 6
index ConvSpec.hex_int = 7
index ConvSpec.unsigned_int = 8
index ConvSpec.pointer = 9
index ConvSpec.writeback = 10
index ConvSpec.float_dec = 11
index ConvSpec.float_hex = 12
index ConvSpec.float_sci = 13
index ConvSpec.float_shortest = 14

-- `npf_format_spec_t`. A char is its code; `field_width` and `prec` are ints, as patterns of 32 bits.
pub record FormatSpec : Type 0 where
  pub field_width : ℕ
  pub prec : ℕ
  pub prec_opt : Opt
  pub field_width_opt : Opt
  pub left_justified : ℕ
  pub leading_zero_pad : ℕ
  pub prepend : ℕ
  pub alt_form : ℕ
  pub case_adjust : ℕ
  pub length_modifier : LengthModifier
  pub conv_spec : ConvSpec
