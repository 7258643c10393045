-- ===== src/Emit/Text.antt =====
-- The text of a directive as C describes it, written without the steps of npf_vpprintf: the digits are
-- filled up to the precision, and sign, prefix and digits to the field, on the side and with the
-- character that the flags ask for.
use nanoprintf.Base.{
  ℕ, ◌-◌, Bool, true, false, not, ◌&&◌, ◌++◌, ◌==◌, if◌then◌else◌, replicate, length,
}
use nanoprintf.Base.Bytes.{Bytes}
use nanoprintf.Config.{Config}
use nanoprintf.Spec.{ConvSpec, is_none}
use nanoprintf.Convert.{Piece}
use nanoprintf.Emit.Layout.{sign_text, prefix_text, payload_text}

-- What is missing of `n` bytes, as copies of a character.
unfoldable pub filler : ℕ → ℕ → Bytes → Bytes
filler n c text = replicate (n - length text) c

-- The conversions for which a precision is the least number of digits. C leaves a precision of
-- 'c' and '%' open; it counts like one of an integer here.
unfoldable pub takes_digits : Config → ConvSpec → Bool
takes_digits cfg ConvSpec.string = false
takes_digits cfg ConvSpec.float_dec = not cfg.floats
takes_digits cfg ConvSpec.float_hex = not cfg.floats
takes_digits cfg ConvSpec.float_sci = not cfg.floats
takes_digits cfg ConvSpec.float_shortest = not cfg.floats
takes_digits cfg _ = true

unfoldable pub digits_text : Config → Piece → Bytes
digits_text cfg p =
    let text = payload_text p.payload in
    if cfg.precisions && takes_digits cfg p.fs.conv_spec
    then filler p.fs.prec b'0' text ++ text
    else text

-- The flag '0' is ignored next to '-', and for a zero that a precision of 0 leaves without digits.
unfoldable pub fills_zeros : Config → Piece → Bool
fills_zeros cfg p =
    not (p.fs.leading_zero_pad == 0)
    && (p.fs.left_justified == 0
        && not
            (cfg.precisions && (not (is_none p.fs.prec_opt) && (p.fs.prec == 0 && p.zero_value))))

-- The flags '-' and '0' say where the field is filled, and with what.
unfoldable pub standard_text : Config → Piece → Bytes
standard_text cfg p =
    let head = sign_text p ++ prefix_text p in
    let digits = digits_text cfg p in
    let body = head ++ digits in
    if not cfg.field_widths
    then body
    else if not (p.fs.left_justified == 0)
    then body ++ filler p.fs.field_width b' ' body
    else if fills_zeros cfg p
    then head ++ (filler p.fs.field_width b'0' body ++ digits)
    else filler p.fs.field_width b' ' body ++ body
