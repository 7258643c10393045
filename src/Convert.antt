-- ===== src/Convert.antt =====
-- The conversions of npf_vpprintf: the argument of a directive is fetched and turned into the text
-- that `cbuf` holds, with the sign and the "0x" that go before it. One function for each arm of the
-- dispatch. long, size_t and ptrdiff_t have 64 bits, so 'z' and 't' share the case of 'l'.
mod Tests
pub mod Text
pub mod Alike
pub mod Fresh
pub mod Integer
use nanoprintf.Base.{
  ◌>>=◌, ℕ, zero, suc, ◌+◌, ◌-◌, ◌*◌, ◌/◌, ◌%◌, ◌^◌, Bool, true, false, not, ◌&&◌, ◌||◌, Option,
  some, none, List, [], ◌∷◌, ◌++◌, ltb, leb, ◌==◌, if◌then◌else◌, length,
}
use nanoprintf.Base.Bytes.{Bytes}
use nanoprintf.Config.{Config, use_sci}
use nanoprintf.Spec.{LengthModifier, ConvSpec, FormatSpec, index, is_none}
use nanoprintf.Args.{
  Args, arg_word32, arg_word64, arg_pointer, arg_text, arg_real, arg_long_real, arg_single,
}
use nanoprintf.Utoa.{utoa_rev}
use nanoprintf.Float.{Converted, dec_prec, sign_pos, number, special}
use nanoprintf.Float.Fixed.{ftoa_rev}
use nanoprintf.Float.Sci.{etoa_rev}
use nanoprintf.Float.Hex.{atoa_rev, widen}

-- What `cbuf` and `u.binval` hold: text that is written backwards, a string, or a value whose low
-- bits are written from the highest.
pub data Payload : Type 0 where
  reversed : Bytes → Payload
  string : Bytes → Payload
  bits : ℕ → ℕ → Payload

-- `cbuf_len`
unfoldable pub cbuf_len : Payload → ℕ
cbuf_len (reversed cs) = length cs
cbuf_len (string cs) = length cs
cbuf_len (bits val n) = n

-- A write of '%n': address, bytes and the pattern that is stored.
pub record Store : Type 0 where
  pub address : ℕ
  pub size : ℕ
  pub content : ℕ

-- The locals of a directive once its argument is converted.
pub record Piece : Type 0 where
  pub fs : FormatSpec
  pub payload : Payload
  pub sign_c : ℕ
  pub need_0x : ℕ
  pub zero_value : Bool

-- A value of `w` bits as a signed one of 64.
unfoldable pub sign_extend : ℕ → ℕ → ℕ
sign_extend w v = if ltb (v % 2 ^ w) (2 ^ (w - 1)) then v % 2 ^ w else v % 2 ^ w + 2 ^ 64 - 2 ^ w

-- A length modifier whose argument has 64 bits.
unfoldable pub is_word64 : LengthModifier → Bool
is_word64 LengthModifier.long = true
is_word64 LengthModifier.large_long_long = true
is_word64 LengthModifier.large_intmax = true
is_word64 LengthModifier.large_sizet = true
is_word64 LengthModifier.large_ptrdifft = true
is_word64 _ = false

-- The width that an argument of 32 bits is narrowed to.
unfoldable pub narrow_bits : LengthModifier → ℕ
narrow_bits LengthModifier.short = 16
narrow_bits LengthModifier.char = 8
narrow_bits _ = 32

-- `sval`, as a pattern of 64 bits.
unfoldable pub take_signed : FormatSpec → Args → Option (ℕ × Args)
take_signed fs args = if is_word64 fs.length_modifier then arg_word64 args else (do
  (v, args') ← arg_word32 args
  some (sign_extend (narrow_bits fs.length_modifier) v, args'))

-- `val` of an unsigned conversion.
unfoldable pub take_unsigned : FormatSpec → Args → Option (ℕ × Args)
take_unsigned fs args =
    if is_word64 fs.length_modifier
    then arg_word64 args
    else (do (v, args') ← arg_word32 args; some (v % 2 ^ narrow_bits fs.length_modifier, args'))

-- The software loop of `npf_bin_len`, with fuel.
unfoldable pub bit_count : ℕ → ℕ → ℕ
bit_count zero u = 0
bit_count (suc fuel) u = let rest = bit_count fuel (u / 2) in if u == 0 then 0 else suc rest

-- `npf_bin_len`; the intrinsics that it prefers count the same bits.
unfoldable pub bin_len : ℕ → ℕ
bin_len u = if u == 0 then 1 else bit_count 64 u

-- The digits of a value, and the prefix that the alternate form gives it.
unfoldable pub int_piece : Config → FormatSpec → ℕ → ℕ → ℕ → Piece
int_piece cfg fs val base sign_c =
    let is_bin = cfg.binary && index fs.conv_spec == index ConvSpec.binary in
    let digits = utoa_rev cfg val base fs.case_adjust in
    let alt = cfg.alt_forms && not (val == 0) && not (fs.alt_form == 0) in
    if cfg.precisions && val == 0 && not (is_none fs.prec_opt) && fs.prec == 0
    then record {
      fs =
          if cfg.alt_forms && base == 8 && not (fs.alt_form == 0)
          then record fs { prec = 1 }
          else fs;
      payload = reversed [];
      sign_c = sign_c;
      need_0x = 0;
      zero_value = true;
    }
    else record {
      fs = fs;
      payload =
          if is_bin
          then bits val (bin_len val)
          else reversed (if alt && base == 8 then digits ++ b'0' ∷ [] else digits);
      sign_c = sign_c;
      need_0x =
          if alt && base == 16
          then b'X' + fs.case_adjust
          else if alt && not (base == 8) && is_bin
          then b'B' + fs.case_adjust
          else 0;
      zero_value = val == 0;
    }

-- 'd' and 'i'
unfoldable pub convert_signed : Config → FormatSpec → Args → Option (Piece × Args)
convert_signed cfg fs args = do
  (sval, args') ← take_signed fs args
  some (
    int_piece cfg fs (if leb (2 ^ 63) sval then (2 ^ 64 - sval) % 2 ^ 64 else sval) 10
        (if leb (2 ^ 63) sval then b'-' else fs.prepend),
    args',
  )

-- The base of an unsigned conversion; 'b' keeps 10.
unfoldable pub base_of : ConvSpec → ℕ
base_of ConvSpec.octal = 8
base_of ConvSpec.hex_int = 16
base_of _ = 10

-- 'o', 'x', 'u', 'b' and 'p'
unfoldable pub convert_unsigned : Config → FormatSpec → Args → Option (Piece × Args)
convert_unsigned cfg fs args =
    if index fs.conv_spec == index ConvSpec.pointer
    then (do (p, args') ← arg_pointer args; some (int_piece cfg fs p 16 0, args'))
    else (do
      (v, args') ← take_unsigned fs args
      some (int_piece cfg fs v (base_of fs.conv_spec) 0, args'))

-- The length loop of 's': the bytes before the terminator, at most `prec` of them where a precision
-- is given. `none` is a read behind the bytes that the pointer reaches.
unfoldable pub span : Config → FormatSpec → ℕ → Bytes → Option Bytes
span cfg fs len [] =
    if not cfg.precisions || is_none fs.prec_opt || ltb len fs.prec then none else some []
span cfg fs len (c ∷ cs) =
    let rest = span cfg fs (len + 1) cs in
    if not cfg.precisions || is_none fs.prec_opt || ltb len fs.prec
    then if c == 0 then some [] else (do r ← rest; some (c ∷ r))
    else some []

unfoldable pub string_of : Config → FormatSpec → Option Bytes → Option Bytes
string_of cfg fs none = some []
string_of cfg fs (some cs) = span cfg fs 0 cs

-- `cbuf_len` of a string counts in an int: it overflows, undefined, at the byte 2^31.
unfoldable pub counted : Bytes → Option Bytes
counted cs = if ltb (length cs) (2 ^ 31) then some cs else none

-- 's'; the null pointer prints nothing.
unfoldable pub convert_string : Config → FormatSpec → Args → Option (Piece × Args)
convert_string cfg fs args = do
  (p, args') ← arg_text args
  text ← string_of cfg fs p
  cs ← counted text
  some (record { fs = fs; payload = string cs; sign_c = 0; need_0x = 0; zero_value = false }, args')

-- '%' and 'c'
unfoldable pub convert_char : FormatSpec → Args → Option (Piece × Args)
convert_char fs args =
    let piece : ℕ → Piece = λ c. record {
      fs = fs;
      payload = reversed (c ∷ []);
      sign_c = 0;
      need_0x = 0;
      zero_value = false;
    } in
    if index fs.conv_spec == index ConvSpec.char
    then (do (v, args') ← arg_word32 args; some (piece (v % 2 ^ 8), args'))
    else some (piece b'%', args)

-- The bytes that '%n' stores, and the count in that width. Other modifiers store nothing.
unfoldable pub writeback_size : LengthModifier → ℕ
writeback_size LengthModifier.none = 4
writeback_size LengthModifier.short = 2
writeback_size LengthModifier.char = 1
writeback_size LengthModifier.long_double = 0
writeback_size _ = 8

-- 'n'
unfoldable pub convert_writeback : FormatSpec → ℕ → Args → Option (Piece × Args × List Store)
convert_writeback fs npf_n args = do
  (p, args') ← arg_pointer args
  let size = writeback_size fs.length_modifier
  let stores : List Store =
      if size == 0
      then []
      else record { address = p; size = size; content = sign_extend 32 npf_n % 2 ^ (8 * size) } ∷ []
  some (
    record { fs = fs; payload = reversed []; sign_c = 0; need_0x = 0; zero_value = false },
    args',
    stores,
  )

-- The number of a float conversion. double and long double differ, so 'L' is looked at.
unfoldable pub take_real : Config → FormatSpec → Args → Option (ℕ × Args)
take_real cfg fs args = if cfg.single_precision then arg_single args else elim fs.length_modifier [
  | LengthModifier.long_double ↦ arg_long_real args
  | _ ↦ arg_real args
]

-- The text of a float; one such as "inf" is not padded with zeros.
unfoldable pub float_piece : Config → FormatSpec → ℕ → Bytes → Converted → Piece
float_piece cfg fs sign_c hex text =
    let no_zero = if cfg.field_widths then record fs { leading_zero_pad = 0 } else fs in
    if length hex == 0
    then elim text [
      | number cs ↦ record {
        fs = fs;
        payload = reversed cs;
        sign_c = sign_c;
        need_0x = 0;
        zero_value = false;
      }
      | special cs ↦ record {
        fs = no_zero;
        payload = reversed cs;
        sign_c = sign_c;
        need_0x = 0;
        zero_value = false;
      }
    ]
    else record {
      fs = fs;
      payload = reversed hex;
      sign_c = sign_c;
      need_0x = b'X' + fs.case_adjust;
      zero_value = false;
    }

-- 'f', 'a', 'e' and 'g'
unfoldable pub convert_real : Config → FormatSpec → Args → Option (Piece × Args)
convert_real cfg fs args = do
  (val, args') ← take_real cfg fs args
  let sign_c = if val / 2 ^ sign_pos cfg == 0 then fs.prepend else b'-'
  let hex : Bytes =
      if cfg.float_hex && index fs.conv_spec == index ConvSpec.float_hex
      then atoa_rev cfg fs (if cfg.single_precision then widen val else val)
      else []
  let text = if use_sci cfg then etoa_rev cfg fs val else ftoa_rev cfg fs (dec_prec cfg fs) val
  some (float_piece cfg fs sign_c hex text, args')

-- The dispatch over the conversions, by ranges of the enumeration.
unfoldable pub convert : Config → FormatSpec → ℕ → Args → Option (Piece × Args × List Store)
convert cfg fs npf_n args =
    let plain : Option (Piece × Args) → Option (Piece × Args × List Store) =
      λ r. (do (p, args') ← r; some (p, args', [])) in
    if cfg.floats && leb (index ConvSpec.float_dec) (index fs.conv_spec)
    then plain (convert_real cfg fs args)
    else if cfg.writeback && index fs.conv_spec == index ConvSpec.writeback
    then convert_writeback fs npf_n args
    else if leb (index ConvSpec.signed_int) (index fs.conv_spec)
    then if index fs.conv_spec == index ConvSpec.signed_int
      then plain (convert_signed cfg fs args)
      else plain (convert_unsigned cfg fs args)
    else if index fs.conv_spec == index ConvSpec.string
    then plain (convert_string cfg fs args)
    else plain (convert_char fs args)
