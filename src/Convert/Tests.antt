-- ===== src/Convert/Tests.antt =====
-- Runs of the conversions.
use nanoprintf.Base.{
  ◌≡◌, ◌≤◌, ◌-◌, ◌^◌, refl, if◌then◌else◌, true, false, some, [], ◌∷◌, ◌++◌, inr, arith,
}
use nanoprintf.Base.Bytes.{codes}
use nanoprintf.Spec.{Opt, LengthModifier, ConvSpec, FormatSpec, index}
use nanoprintf.Samples.{full, blank}
use nanoprintf.Args.{word32, word64, arg_word64}
use nanoprintf.Utoa.{utoa_rev, wide_digits, narrow_digits, divide_bits, digit_step, digit_char}
use nanoprintf.Convert
use nanoprintf.Convert.{
  Piece, reversed, take_unsigned, int_piece, convert_signed, convert_unsigned, string_of,
  narrow_bits, is_word64,
}
use nanoprintf.Convert.Text.{limited, string_of-kept}
use nanoprintf.Convert.Integer.{
  buffered, magnitude, is_negative, convert_integer-buffered, convert_signed-magnitude,
}

abbrev signed_char : FormatSpec
signed_char = record blank {
  conv_spec = ConvSpec.signed_int;
  length_modifier = LengthModifier.char;
}

convert_signed-magnitude_example :
    (is_word64 LengthModifier.char ≡ false
      → convert_signed full signed_char (word32 384 ∷ [])
        ≡ some (
          int_piece full signed_char
              (magnitude (narrow_bits LengthModifier.char) 384)
              10
              (if is_negative (narrow_bits LengthModifier.char) 384 then b'-' else 0),
          [],
        ))
    × (is_word64 LengthModifier.char ≡ true
        → convert_signed full signed_char (word64 384 ∷ [])
          ≡ some (int_piece full signed_char 384 10 0, []))
convert_signed-magnitude_example = convert_signed-magnitude full signed_char 384 [] (omega arith)

abbrev two : FormatSpec
two = record blank { conv_spec = ConvSpec.string; prec_opt = Opt.literal; prec = 2 }

string_of-kept_example :
    (string_of full two (some (codes "abc" ++ 0 ∷ codes "x")) ≡ some (codes "ab"))
    × (limited full two ≡ true
        → 2 ≤ 3
        → string_of full two (some (codes "abc" ++ codes "x")) ≡ some (codes "ab"))
string_of-kept_example =
    string_of-kept full two (codes "abc") (codes "x")
      (omega arith, (omega arith, (omega arith, tt)))

abbrev octal : FormatSpec
octal = record blank {
  conv_spec = ConvSpec.octal;
  length_modifier = LengthModifier.long;
  alt_form = b'#';
}

abbrev octal_piece : Piece
octal_piece = record {
  fs = octal;
  payload = reversed (codes "77777777777777777777710");
  sign_c = 0;
  need_0x = 0;
  zero_value = false;
}

convert_octal : convert_unsigned full octal (word64 (2 ^ 64 - 1) ∷ []) ≡ some (octal_piece, [])
unfolding convert_unsigned take_unsigned int_piece is_word64 arg_word64 index Convert.base_of
    utoa_rev wide_digits narrow_digits divide_bits digit_step digit_char
convert_octal = refl

convert_integer-buffered_example : buffered (octal_piece.payload) ≤ 23
convert_integer-buffered_example =
    convert_integer-buffered full octal (word64 (2 ^ 64 - 1) ∷ []) (omega arith, tt) octal_piece []
      (inr convert_octal)
