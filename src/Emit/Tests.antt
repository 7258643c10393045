-- ===== src/Emit/Tests.antt =====
-- A directive with a sign, a field and a precision.
use nanoprintf.Base.{ℕ, ◌≡◌, refl, false, [], ◌∷◌, ◌++◌, foldl}
use nanoprintf.Base.Bytes.{Bytes, codes}
use nanoprintf.Spec.{Opt, ConvSpec}
use nanoprintf.Samples.{full, blank}
use nanoprintf.Convert.{reversed, Piece}
use nanoprintf.Emit.{put_bits}
use nanoprintf.Emit.Text.{standard_text}
use nanoprintf.Emit
use nanoprintf.Convert.{bin_len}
use nanoprintf.Emit.Layout.{bit_text}
use nanoprintf.Emit.Binary.{binary_value, put_bits-bin_len}
use nanoprintf.Base.Bytes.{peek}
use nanoprintf.Base.{◌<◌, arith}

-- What "%+8.3d" makes of 42.
abbrev forty_two : Piece
forty_two = record {
  fs = record blank {
    field_width = 8;
    prec = 3;
    prec_opt = Opt.literal;
    conv_spec = ConvSpec.signed_int;
  };
  payload = reversed (codes "24");
  sign_c = b'+';
  need_0x = 0;
  zero_value = false;
}

abbrev keep : Bytes → ℕ → Bytes
keep out c = out ++ c ∷ []

forty_two_text : standard_text full forty_two ≡ codes "    +042"
unfolding standard_text Emit.Text.digits_text Emit.Text.takes_digits Emit.Text.filler
    Emit.Text.fills_zeros Emit.Layout.sign_text Emit.Layout.prefix_text Emit.Layout.payload_text
forty_two_text = refl

put_bits-bin_len_example :
    (put_bits keep 10 (bin_len 10) [] ≡ foldl keep [] (bit_text 10 (bin_len 10)))
    × (binary_value 0 (bit_text 10 (bin_len 10)) ≡ 10)
    × (0 < 10 → peek (bit_text 10 (bin_len 10)) ≡ b'1')
put_bits-bin_len_example = put_bits-bin_len keep [] 10 (omega arith)
