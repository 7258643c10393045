-- ===== src/Parse.antt =====
-- The parser of format directives: `npf_fmt_num`, `npf_parse_format_spec_end` and
-- `npf_parse_format_spec` of nanoprintf.h. The stages of the parser are functions of their own, in
-- the order of the source. Each takes the struct that `out_spec` points to and the cursor, and
-- returns both; `none` is the null pointer.
mod Tests
pub mod Number
pub mod Suffix
pub mod Fresh
pub mod Facade
pub mod FixedWidth
pub mod Local
use Prim.Native.Nat.{bit_and, bit_or}
use nanoprintf.Base.{
  ℕ, ◌+◌, ◌-◌, ◌*◌, ◌/◌, ◌%◌, ◌^◌, Bool, true, false, not, ◌&&◌, ◌||◌, Option, none, some, List, [],
  ◌∷◌, ltb, leb, ◌==◌, if◌then◌else◌, get_elem?, length,
}
use nanoprintf.Base.Bytes.{Bytes, peek, advance}
use nanoprintf.Config.{Config, schar_max, shrt_max, int_max, long_max}
use nanoprintf.Spec.{Opt, LengthModifier, ConvSpec, FormatSpec, index}

-- NPF_FMT_NUM_BIG, at an int of 32 bits.
unfoldable pub fmt_num_big : ℕ → Bool
fmt_num_big n = not (n / 2 ^ 27 == 0)

-- `(unsigned)(*cur - '0') < 10u`
unfoldable pub is_digit : ℕ → Bool
is_digit c = ltb ((c + 2 ^ 32 - b'0') % 2 ^ 32) 10

-- The digit loop, with the accumulator `n`.
unfoldable pub fmt_digits : ℕ → Bytes → ℕ × Bytes
unfolding fmt_num_big is_digit
fmt_digits n [] = (n, [])
fmt_digits n (c ∷ cs) =
    let rest = fmt_digits (if fmt_num_big n then n else n * 10 + (c - b'0')) cs in
    if is_digit c then rest else (n, c ∷ cs)

unfoldable pub fmt_num : Bytes → ℕ × Bytes
unfolding fmt_digits
fmt_num cur = fmt_digits 0 cur

-- What one flag character does; `none` ends the run of flags.
unfoldable pub flag : Config → ℕ → FormatSpec → Option FormatSpec
flag cfg c out =
    if cfg.field_widths && c == b'-'
    then some (record out { left_justified = b'-' })
    else if cfg.field_widths && c == b'0'
    then some (record out { leading_zero_pad = 1 })
    else if c == b'+' || c == b' '
    then some (if out.prepend == b'+' then out else record out { prepend = c })
    else if cfg.alt_forms && c == b'#'
    then some (record out { alt_form = b'#' })
    else none

unfoldable pub flags : Config → Bytes → FormatSpec → FormatSpec × Bytes
unfolding flag
flags cfg [] out = (out, [])
flags cfg (c ∷ cs) out = elim (flag cfg c out) [
  | none ↦ (out, c ∷ cs)
  | some out' ↦ flags cfg cs out'
]

-- The fields that are cleared before the flags are read.
unfoldable pub clear_flags : Config → FormatSpec → FormatSpec
clear_flags cfg out = record out {
  left_justified = if cfg.field_widths then 0 else out.left_justified;
  leading_zero_pad = if cfg.field_widths then 0 else out.leading_zero_pad;
  prepend = 0;
  alt_form = if cfg.alt_forms then 0 else out.alt_form;
}

unfoldable pub parse_width : Config → FormatSpec → Bytes → FormatSpec × Bytes
unfolding fmt_num
parse_width cfg out cur =
    if cfg.field_widths
    then if peek cur == b'*'
      then (record out { field_width_opt = Opt.star }, advance cur)
      else (let (n, cur') = fmt_num cur in
          (record out { field_width_opt = Opt.none; field_width = n }, cur'))
    else (out, cur)

-- What stands behind the '.'.
unfoldable pub parse_point : FormatSpec → Bytes → FormatSpec × Bytes
unfolding fmt_num
parse_point out cur =
    if peek cur == b'*'
    then (record out { prec = 0; prec_opt = Opt.star }, advance cur)
    else if peek cur == b'-'
    then (let (n, cur') = fmt_num (advance cur) in
        (record out { prec = n; prec_opt = Opt.none }, cur'))
    else let (n, cur') = fmt_num cur in (record out { prec = n; prec_opt = Opt.literal }, cur')

unfoldable pub parse_prec : Config → FormatSpec → Bytes → FormatSpec × Bytes
unfolding parse_point
parse_prec cfg out cur =
    if cfg.precisions
    then if peek cur == b'.'
      then parse_point out (advance cur)
      else (record out { prec = 0; prec_opt = Opt.none }, cur)
    else (out, cur)

-- NPF_LM_OF: the narrowest length modifier whose type holds `max`. NPF_LM_WIDEST is the last case.
unfoldable pub lm_of : Config → ℕ → LengthModifier
lm_of cfg max =
    if leb max schar_max
    then LengthModifier.char
    else if leb max shrt_max
    then LengthModifier.short
    else if leb max int_max
    then LengthModifier.none
    else if leb max long_max
    then LengthModifier.long
    else if cfg.large
    then LengthModifier.large_long_long
    else LengthModifier.long

-- The digits of 'wN' from the first on: the modifier and the cursor behind them. NPF_LM_OF_W is the
-- choice between the two families; NPF_W_BITS_MAX is 64 wherever long has 64 bits.
unfoldable pub fixed_digits : Config → Bool → Bytes → Option (LengthModifier × Bytes)
unfolding lm_of
fixed_digits cfg fast cur =
    let c = peek cur in
    let cur' = advance cur in
    if c == b'1'
    then if peek cur' == b'6'
      then some (lm_of cfg (if fast then cfg.int_fast16_max else 2 ^ 15 - 1), advance cur')
      else none
    else if c == b'3'
    then if peek cur' == b'2'
      then some (lm_of cfg (if fast then cfg.int_fast32_max else 2 ^ 31 - 1), advance cur')
      else none
    else if c == b'6'
    then if peek cur' == b'4'
      then some (lm_of cfg (if fast then cfg.int_fast64_max else 2 ^ 63 - 1), advance cur')
      else none
    else if c == b'8'
    then some (lm_of cfg (if fast then cfg.int_fast8_max else 2 ^ 7 - 1), cur')
    else none

-- The switch over the length modifiers; its default leaves the cursor where it was.
unfoldable pub plain_modifier : Config → Bytes → LengthModifier × Bytes
plain_modifier cfg cur =
    let c = peek cur in
    let cur' = advance cur in
    if cfg.small && c == b'h'
    then if peek cur' == b'h'
      then (LengthModifier.char, advance cur')
      else (LengthModifier.short, cur')
    else if c == b'l'
    then if cfg.large && peek cur' == b'l'
      then (LengthModifier.large_long_long, advance cur')
      else (LengthModifier.long, cur')
    else if cfg.floats && c == b'L'
    then (LengthModifier.long_double, cur')
    else if cfg.large && c == b'j'
    then (LengthModifier.large_intmax, cur')
    else if cfg.large && c == b'z'
    then (LengthModifier.large_sizet, cur')
    else if cfg.large && c == b't'
    then (LengthModifier.large_ptrdifft, cur')
    else (LengthModifier.none, cur)

unfoldable pub parse_modifier : Config → Bytes → Option (LengthModifier × Bytes)
unfolding fixed_digits plain_modifier
parse_modifier cfg cur =
    if cfg.fixed_width && peek cur == b'w'
    then (if peek (advance cur) == b'f'
        then fixed_digits cfg true (advance (advance cur))
        else fixed_digits cfg false (advance cur))
    else some (plain_modifier cfg cur)

-- The table from letters to conversions; a conversion that is compiled out maps to 0.
unfoldable pub lookup : Config → List ConvSpec
lookup cfg =
    (if cfg.floats && cfg.float_hex then ConvSpec.float_hex else ConvSpec.none)
    ∷ (if cfg.binary then ConvSpec.binary else ConvSpec.none)
    ∷ ConvSpec.char
    ∷ ConvSpec.signed_int
    ∷ (if cfg.float_sci then ConvSpec.float_sci else ConvSpec.none)
    ∷ (if cfg.floats then ConvSpec.float_dec else ConvSpec.none)
    ∷ (if cfg.float_shortest then ConvSpec.float_shortest else ConvSpec.none)
    ∷ ConvSpec.none
    ∷ ConvSpec.signed_int
    ∷ ConvSpec.none
    ∷ ConvSpec.none
    ∷ ConvSpec.none
    ∷ ConvSpec.none
    ∷ (if cfg.writeback then ConvSpec.writeback else ConvSpec.none)
    ∷ ConvSpec.octal
    ∷ ConvSpec.pointer
    ∷ ConvSpec.none
    ∷ ConvSpec.none
    ∷ ConvSpec.string
    ∷ ConvSpec.none
    ∷ ConvSpec.unsigned_int
    ∷ ConvSpec.none
    ∷ ConvSpec.none
    ∷ ConvSpec.hex_int
    ∷ []

-- The conversion of a character; `ConvSpec.none` where there is none.
unfoldable pub conversion : Config → ℕ → ConvSpec
unfolding lookup
conversion cfg c =
    if c == b'%'
    then ConvSpec.percent
    else elim (get_elem? (lookup cfg) ((bit_or c 32 + 2 ^ 32 - b'a') % 2 ^ 32)) [
      | none ↦ ConvSpec.none
      | some cs ↦ cs
    ]

unfoldable pub parse_conversion : Config → FormatSpec → Bytes → Option (FormatSpec × Bytes)
unfolding conversion index
parse_conversion cfg out cur =
    let c = peek cur in
    let cs = conversion cfg c in
    if index cs == 0
    then none
    else some (record out { conv_spec = cs; case_adjust = bit_and c 32 }, advance cur)

-- `npf_parse_format_spec_end`: `format` points at the leading '%'.
unfoldable pub parse_format_spec_end : Config → Bytes → FormatSpec → Option (FormatSpec × Bytes)
unfolding flags clear_flags parse_width parse_prec parse_modifier parse_conversion
parse_format_spec_end cfg format out =
    let (out1, cur1) = flags cfg (advance format) (clear_flags cfg out) in
    let (out2, cur2) = parse_width cfg out1 cur1 in
    let (out3, cur3) = parse_prec cfg out2 cur2 in
    elim (parse_modifier cfg cur3) [
      | none ↦ none
      | some (m, cur4) ↦ parse_conversion cfg (record out3 { length_modifier = m }) cur4
    ]

-- `npf_parse_format_spec`: the length of the directive, or 0. `end - format` is the bytes passed.
unfoldable pub parse_format_spec : Config → Bytes → FormatSpec → ℕ
unfolding parse_format_spec_end
parse_format_spec cfg format out = elim (parse_format_spec_end cfg format out) [
  | none ↦ 0
  | some (out', cur) ↦ length format - length cur
]
