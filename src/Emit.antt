-- ===== src/Emit.antt =====
-- The output half of a directive in npf_vpprintf: the padding is computed, and the bytes go to the
-- callback `pc` one at a time. The callback is a function on the state behind `pc_ctx`.
mod Tests
pub mod Layout
pub mod Length
pub mod Binary
pub mod Text
pub mod Standard
pub mod Fresh
use nanoprintf.Base.{
  ℕ, zero, suc, ◌+◌, ◌-◌, ◌/◌, ◌%◌, ◌^◌, not, ◌&&◌, [], ◌∷◌, leb, ◌==◌, if◌then◌else◌,
}
use nanoprintf.Base.Bytes.{Bytes}
use nanoprintf.Config.{Config}
use nanoprintf.Spec.{ConvSpec, index, is_none}
use nanoprintf.Convert.{Payload, reversed, string, bits, cbuf_len, Piece}

-- `pad_c`
unfoldable pub pad_char : Config → Piece → ℕ
pad_char cfg p =
    if not (p.fs.leading_zero_pad == 0)
      && p.fs.left_justified == 0
      && not (cfg.precisions && not (is_none p.fs.prec_opt) && p.fs.prec == 0 && p.zero_value)
    then b'0'
    else b' '

-- `prec_pad` before the '0' padding is folded in.
unfoldable pub prec_zeros : Config → Piece → ℕ
prec_zeros cfg p =
    if cfg.precisions
      && not (index p.fs.conv_spec == index ConvSpec.string)
      && not (cfg.floats && leb (index ConvSpec.float_dec) (index p.fs.conv_spec))
    then p.fs.prec - cbuf_len p.payload
    else 0

-- The bytes of the conversion without the field's padding.
unfoldable pub bare_len : Config → Piece → ℕ
bare_len cfg p =
    cbuf_len p.payload
    + (if p.sign_c == 0 then 0 else 1)
    + (if p.need_0x == 0 then 0 else 2)
    + prec_zeros cfg p

-- `field_pad`, which stops at 0.
unfoldable pub field_blanks : Config → Piece → ℕ
field_blanks cfg p = if cfg.field_widths then p.fs.field_width - bare_len cfg p else 0

-- `spec_len`
unfoldable pub spec_len : Config → Piece → ℕ
spec_len cfg p = bare_len cfg p + field_blanks cfg p

module _ {ℓ} {S : Type ℓ} (pc : S → ℕ → S) where
  -- `while (n-- > 0) { NPF_PUT(c); }`
  unfoldable pub put_times : ℕ → ℕ → S → S
  put_times zero c s = s
  put_times (suc n) c s = put_times n c (pc s c)

  -- A string, from its first byte on.
  unfoldable pub put_string : Bytes → S → S
  put_string [] s = s
  put_string (c ∷ cs) s = put_string cs (pc s c)

  -- The reversed text: the last byte of the buffer goes first.
  unfoldable pub put_reversed : Bytes → S → S
  put_reversed [] s = s
  put_reversed (c ∷ cs) s = pc (put_reversed cs s) c

  -- The `n` low bits of a value, the highest first.
  unfoldable pub put_bits : ℕ → ℕ → S → S
  put_bits val zero s = s
  put_bits val (suc n) s = put_bits val n (pc s (b'0' + val / 2 ^ n % 2))

  unfoldable pub put_payload : Payload → S → S
  put_payload (reversed cs) s = put_reversed cs s
  put_payload (string cs) s = put_string cs s
  put_payload (bits val n) s = put_bits val n s

  unfoldable pub put_sign : Piece → S → S
  put_sign p s = if p.sign_c == 0 then s else pc s p.sign_c

  unfoldable pub put_0x : Piece → S → S
  put_0x p s = if p.need_0x == 0 then s else pc (pc s b'0') p.need_0x

  -- Everything that a directive writes. With precisions compiled in, '0' padding is part of the
  -- leading zeros; without them it follows the sign and the prefix.
  unfoldable pub emit : Config → Piece → S → S
  emit cfg p s =
      let zeros = cfg.field_widths && pad_char cfg p == b'0' in
      let fold = cfg.precisions && zeros in
      let blanks = if fold then 0 else field_blanks cfg p in
      let lead = if fold then prec_zeros cfg p + field_blanks cfg p else prec_zeros cfg p in
      let early = zeros && not cfg.precisions in
      let s1 = if early then put_0x p (put_sign p s) else s in
      let s2 = if p.fs.left_justified == 0 then put_times blanks (pad_char cfg p) s1 else s1 in
      let s3 = if early then s2 else put_0x p (put_sign p s2) in
      let s4 = put_payload p.payload (put_times lead b'0' s3) in
      if p.fs.left_justified == 0 then s4 else put_times blanks (pad_char cfg p) s4
