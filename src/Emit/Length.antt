-- ===== src/Emit/Length.antt =====
-- How many bytes a directive writes.
use Prim.Native.Nat.{max}
use nanoprintf.Base.{
  ℕ, zero, suc, ◌+◌, ◌≡◌, refl, ap, true, [], length, length-append, length-reverse,
  length-replicate, ◌==◌, if◌then◌else◌, arith, ◌∙◌,
}
use nanoprintf.Config.{Config}
use nanoprintf.Convert.{Payload, reversed, string, bits, cbuf_len, Piece}
use nanoprintf.Emit.{prec_zeros, field_blanks, bare_len, spec_len}
use nanoprintf.Emit.Layout.{
  bit_text, payload_text, sign_text, prefix_text, blanks, zeros, layout, zero_filled-right,
}

length-bit_text : (val n : ℕ) → length (bit_text val n) ≡ n
unfolding bit_text
length-bit_text val zero = refl
length-bit_text val (suc n) = ap suc (length-bit_text val n)

pub length-payload_text : (p : Payload) → length (payload_text p) ≡ cbuf_len p
unfolding payload_text cbuf_len
length-payload_text (reversed cs) = length-reverse cs
length-payload_text (string cs) = refl
length-payload_text (bits val n) = length-bit_text val n

module _ (cfg : Config) (p : Piece) where
  pub length-sign_text : length (sign_text p) ≡ (if p.sign_c == 0 then 0 else 1)
  unfolding sign_text
  length-sign_text = ground arith

  pub length-prefix_text : length (prefix_text p) ≡ (if p.need_0x == 0 then 0 else 2)
  unfolding prefix_text
  length-prefix_text = ground arith

  -- The padding on the left, the zeros and the padding on the right make up the field.
  length_padding :
      length (if p.fs.left_justified == 0 then blanks cfg p else [])
        + length (zeros cfg p)
        + length (if p.fs.left_justified == 0 then [] else blanks cfg p)
      ≡ prec_zeros cfg p + field_blanks cfg p
  unfolding blanks zeros
  length_padding = ground (
    arith,
    zero_filled-right cfg p,
    length-replicate {A = ℕ} (field_blanks cfg p) b' ',
    length-replicate {A = ℕ} (prec_zeros cfg p) b'0',
    length-replicate {A = ℕ} (prec_zeros cfg p + field_blanks cfg p) b'0',
  )

  -- The count that is added to `npf_n` in bulk is the number of bytes that the directive writes.
  pub length-layout : length (layout cfg p) ≡ spec_len cfg p
  unfolding layout spec_len bare_len
  length-layout =
      rw (length-append, length-append, length-append, length-append, length-append)
        (omega (
          arith,
          length_padding,
          length-sign_text,
          length-prefix_text,
          length-payload_text p.payload,
        ))

  -- With field widths compiled in, a directive writes as many bytes as its field is wide, or more if its text is longer.
  pub length-layout-max :
      cfg.field_widths ≡ true → length (layout cfg p) ≡ max (bare_len cfg p) p.fs.field_width
  length-layout-max h = length-layout ∙ unfold spec_len field_blanks in rw h (omega arith)
