-- ===== src/Float.antt =====
-- The constants of the floating-point formats, and what the float conversions of nanoprintf.h share:
-- the fields of a number, the buffer and `npf_ftoa_special`. A float or double is its bit pattern.
pub mod Shift
pub mod Hex
pub mod Fixed
pub mod Sci
pub mod Bounds
pub mod Length
pub mod Fuel
pub mod Zeros
pub mod Exact
pub mod Naturals
pub mod HexLength
pub mod Fresh
mod Tests
use nanoprintf.Base.{ℕ, ◌+◌, ◌-◌, ◌^◌, ◌&&◌, [], ◌∷◌, ltb, if◌then◌else◌}
use nanoprintf.Base.Bytes.{Bytes}
use nanoprintf.Config.{Config}
use nanoprintf.Spec.{FormatSpec}

-- NPF_REAL_MAN_BITS, NPF_REAL_EXP_BIAS and NPF_REAL_EXP_MASK + 1, of binary32 or binary64.
unfoldable pub man_bits : Config → ℕ
man_bits cfg = if cfg.single_precision then 23 else 52

unfoldable pub exp_bias : Config → ℕ
exp_bias cfg = if cfg.single_precision then 127 else 1023

unfoldable pub exp_values : Config → ℕ
exp_values cfg = if cfg.single_precision then 256 else 2048

-- NPF_REAL_BIN_BITS: the width of uint_fast32_t or uint_fast64_t.
unfoldable pub bin_bits : Config → ℕ
bin_bits cfg = if cfg.single_precision && ltb cfg.int_fast32_max (2 ^ 31) then 32 else 64

-- NPF_REAL_SIGN_POS
unfoldable pub sign_pos : Config → ℕ
sign_pos cfg = if cfg.single_precision then 31 else 63

-- NPF_FTOA_SHIFT_BITS
unfoldable pub shift_bits : Config → ℕ
shift_bits cfg =
    (if ltb cfg.conversion_float_bits (man_bits cfg + 1)
      then cfg.conversion_float_bits
      else man_bits cfg + 1)
    - 1

-- NPF_DEC_PREC
abbrev pub dec_prec : Config → FormatSpec → ℕ
dec_prec cfg fs = if cfg.precisions then fs.prec else 6

-- What a conversion returns: the length and the text that stand in the buffer, reversed. `special`
-- is the negated length.
pub data Converted : Type 0 where
  number : Bytes → Converted
  special : Bytes → Converted

-- The three packed strings of `npf_ftoa_special`.
pub data Special : Type 0 where
  nan inf err : Special

unfoldable pub special_text : Special → Bytes
special_text nan = b'N' ∷ b'A' ∷ b'N' ∷ []
special_text inf = b'F' ∷ b'N' ∷ b'I' ∷ []
special_text err = b'R' ∷ b'R' ∷ b'E' ∷ []

-- `npf_ftoa_special`
unfoldable pub ftoa_special : ℕ → Special → Converted
ftoa_special case_adj sp = special (shift (special_text sp))
  where
    shift : Bytes → Bytes
    shift [] = []
    shift (c ∷ cs) = (c + case_adj) ∷ shift cs
