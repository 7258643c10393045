-- ===== src/Printf/Tests.antt =====
-- Runs of whole calls.
use nanoprintf.Base.{
  foldl, length, ◌%◌, ℕ, ◌+◌, arith, ◌≡◌, refl, some, none, Option, [], ◌∷◌, ◌++◌, true, ◌^◌, ◌-◌,
  ◌>>=◌,
}
use nanoprintf.Base.Bytes.{Bytes, codes}
use nanoprintf.Samples.{full, blank}
use nanoprintf.Config.{Config, fmt_num_max, use_sci}
use nanoprintf.Spec.{ConvSpec, FormatSpec, index}
use nanoprintf.Args
use nanoprintf.Args.{Args, word32, word64, pointer, text, real}
use nanoprintf.Parse.{parse_format_spec_end}
use nanoprintf.Directive.{
  star_width, cap_width, take_width, star_prec, cap_prec, take_prec, default_prec, drop_zero_flag,
  prepare,
}
use nanoprintf.Utoa.{
  utoa_rev, wide_digits, narrow_digits, divide_bits, digit_step, digit_char, div10,
}
use nanoprintf.Float.Shift.{bin_shr, bin_shl, shr_loop, shl_loop}
use nanoprintf.Float.{
  man_bits, exp_bias, exp_values, bin_bits, shift_bits, sign_pos, ftoa_special, special_text,
}
use nanoprintf.Float.Fixed.{
  ftoa_rev, ftoa_finite, whole_part, finish, frac_part, round_up, frac_start, print_frac,
  scale_frac, print_int, emit_int, write, int_part, scale_int, fifth,
}
use nanoprintf.Float.Hex.{atoa_rev, drop_nibbles, nibbles, hex_exponent}
use nanoprintf.Convert
use mathlib.Core.Option
use nanoprintf.Emit
use nanoprintf.Printf.Trace.{record_byte, IsCounted, vpprintf-IsCounted}
use nanoprintf.Printf.Needs.{
  Takes, format_needs, directive_needs, star_needs, conversion_needs, integer_needs,
}
use nanoprintf.Printf.Total.{vpprintf_defined}
use nanoprintf.Printf.Progress.{vpprintf_rounds}
use nanoprintf.Printf.Refused.{IsRefused, vpprintf_refused}
use nanoprintf.Printf.Append.{is_complete, vpprintf-append}
use nanoprintf.Printf.Fresh.{visible, vpprintf-fresh}
use nanoprintf.Printf.Hex.{hex_spec, hex_text, read_double, vpprintf-hex}
use nanoprintf.Printf.Natural.{real_spec, natural_digits, vpprintf-natural}
use nanoprintf.Float.Naturals.{HasValue, whole_value}
use nanoprintf.Printf.Signed.{decimal_text, vpprintf-decimal}
use nanoprintf.Printf.{State, vpprintf, run, directive, putc, parse_at, add_int}

-- A call whose callback appends to a list: the bytes written and the returned int.
call : Config → Bytes → Args → Option (Bytes × ℕ)
unfolding bin_shr bin_shl shr_loop shl_loop parse_format_spec_end index fmt_num_max Args.arg_word32
    Args.arg_word64 Args.arg_pointer Args.arg_text Args.arg_real Args.arg_long_real Args.arg_single
    star_width cap_width take_width star_prec cap_prec take_prec default_prec drop_zero_flag prepare
    utoa_rev wide_digits narrow_digits divide_bits digit_step digit_char div10 man_bits exp_bias
    exp_values bin_bits shift_bits sign_pos ftoa_special special_text ftoa_rev ftoa_finite
    whole_part finish frac_part round_up frac_start print_frac scale_frac print_int emit_int write
    int_part scale_int fifth atoa_rev drop_nibbles nibbles hex_exponent Convert.cbuf_len
    Convert.sign_extend Convert.is_word64 Convert.narrow_bits Convert.take_signed
    Convert.take_unsigned Convert.bit_count Convert.bin_len Convert.int_piece Convert.convert_signed
    Convert.base_of Convert.convert_unsigned Convert.span Convert.string_of Convert.counted
    Convert.convert_string Convert.convert_char Convert.writeback_size Convert.convert_writeback
    Convert.take_real Convert.convert_real Convert.float_piece Convert.convert Emit.pad_char
    Emit.prec_zeros Emit.bare_len Emit.field_blanks Emit.spec_len Emit.put_times Emit.put_string
    Emit.put_reversed Emit.put_bits Emit.put_payload Emit.put_sign Emit.put_0x Emit.emit vpprintf
    run directive putc parse_at add_int use_sci
call cfg format args =
    vpprintf (λ out c. out ++ c ∷ []) cfg blank [] format args >>= λ st. some (st.ctx, st.npf_n)

call_signed :
    call full
      (codes "[%+5d|%-6d|%05d]")
      (word32 42 ∷ word32 (2 ^ 32 - 7) ∷ word32 (2 ^ 32 - 3) ∷ [])
    ≡ some (codes "[  +42|-7    |-0003]", 20)
unfolding call
call_signed = refl

call_unsigned :
    call full
      (codes "%#x %#o %#10b %hhu %.4X")
      (word32 255 ∷ word32 8 ∷ word32 5 ∷ word32 511 ∷ word32 171 ∷ [])
    ≡ some (codes "0xff 010      0b101 255 00AB", 28)
unfolding call
call_unsigned = refl

call_text :
    call full
      (codes "%s|%.2s|%-4s|%%|%c|%y")
      (text (some (97 ∷ 98 ∷ 0 ∷ [])) ∷ text (some (97 ∷ 98 ∷ [])) ∷ text none ∷ word32 65 ∷ [])
    ≡ some (codes "ab|ab|    |%|A|%y", 17)
unfolding call
call_text = refl

call_star :
    call full (codes "%*.*d") (word32 (2 ^ 32 - 6) ∷ word32 3 ∷ word32 7 ∷ [])
    ≡ some (codes "007   ", 6)
unfolding call
call_star = refl

call_real :
    call full (codes "%8.2f|%.1a") (real 0x4009_21fb_5444_2d18 ∷ real 0xbff8_0000_0000_0000 ∷ [])
    ≡ some (codes "    3.14|-0x1.8p+0", 18)
unfolding call
call_real = refl

-- A call that the concrete instances share.
abbrev pub signed_args : Args
signed_args = word32 (2 ^ 32 - 42) ∷ []

abbrev pub signed_state : State Bytes
signed_state = record {
  ctx = codes "-42";
  fs = record blank { case_adjust = 32; conv_spec = ConvSpec.signed_int };
  npf_n = 3;
  args = [];
  stores = [];
}

pub call_state : vpprintf record_byte full blank [] (codes "%d") signed_args ≡ some signed_state
unfolding call
call_state = refl

pub safe_state :
    vpprintf record_byte (record full { safe_empty = true }) blank [] (codes "%d") signed_args
    ≡ some signed_state
unfolding call
safe_state = refl

call_missing : call full (codes "%d") [] ≡ none
unfolding call
call_missing = refl

abbrev mixed_args : Args
mixed_args = word32 5 ∷ word32 7 ∷ text (some (97 ∷ 0 ∷ [])) ∷ []

mixed_needs : Takes (format_needs full 7 (codes "%*d %s")) mixed_args []
unfolding format_needs directive_needs star_needs conversion_needs integer_needs Convert.is_word64
    parse_at parse_format_spec_end
mixed_needs = (tt, (tt, ((tt, omega arith), refl)))

vpprintf_defined_example :
    (st : State Bytes) × (vpprintf record_byte full blank [] (codes "%*d %s") mixed_args ≡ some st)
    × (st.args ≡ [])
vpprintf_defined_example =
    vpprintf_defined record_byte full blank [] (codes "%*d %s") mixed_args [] mixed_needs

vpprintf-IsCounted_example : IsCounted signed_state
vpprintf-IsCounted_example = vpprintf-IsCounted full blank (codes "%d") signed_args call_state

abbrev count : ℕ → ℕ → ℕ
count n c = n + 1

vpprintf-decimal_example :
    vpprintf record_byte full blank [] (codes "%d") (word32 (2 ^ 31) ∷ [])
    ≡ some (record signed_state {
      ctx = foldl record_byte [] (decimal_text (2 ^ 31));
      npf_n = length (decimal_text (2 ^ 31)) % 2 ^ 32;
    })
vpprintf-decimal_example = vpprintf-decimal record_byte blank [] (2 ^ 31) [] (omega arith)

unfinished-IsRefused : IsRefused full blank (codes "%-5y%")
unfolding parse_format_spec_end
unfinished-IsRefused = (
  omega arith,
  λ _. refl,
  (
    omega arith,
    λ e. absurd (omega (arith, e)),
    (
      omega arith,
      λ e. absurd (omega (arith, e)),
      (omega arith, λ e. absurd (omega (arith, e)), (omega arith, λ _. refl, tt)),
    ),
  ),
)

vpprintf_refused_example :
    vpprintf count full blank 0 (codes "%-5y%") signed_args
    ≡ some (record { ctx = 5; fs = blank; npf_n = 5; args = signed_args; stores = [] })
vpprintf_refused_example =
    vpprintf_refused count full blank 0 (codes "%-5y%") signed_args unfinished-IsRefused

vpprintf_rounds_example :
    run record_byte full 100
      (codes "%d")
      (record { ctx = []; fs = blank; npf_n = 0; args = signed_args; stores = [] })
    ≡ vpprintf record_byte full blank [] (codes "%d") signed_args
vpprintf_rounds_example =
    vpprintf_rounds record_byte full blank [] (codes "%d") signed_args 100 (omega arith)

minus_three : HasValue full 0xc008_0000_0000_0000 3
unfolding man_bits shift_bits exp_bias exp_values
minus_three = whole_value 1 3 (omega arith) refl refl

vpprintf-natural_example :
    vpprintf record_byte full blank [] (codes "%f") (real 0xc008_0000_0000_0000 ∷ [])
    ≡ some (record {
      ctx = foldl record_byte [] (natural_digits 0xc008_0000_0000_0000 3);
      fs = real_spec 6;
      npf_n = length (natural_digits 0xc008_0000_0000_0000 3) % 2 ^ 32;
      args = [];
      stores = [];
    })
vpprintf-natural_example =
    vpprintf-natural record_byte blank [] 0xc008_0000_0000_0000 3 [] minus_three

-- -3.
vpprintf-hex_example :
    (vpprintf record_byte full blank [] (codes "%a") (real 0xc008_0000_0000_0000 ∷ [])
      ≡ some (record {
        ctx = foldl record_byte [] (hex_text 0xc008_0000_0000_0000);
        fs = hex_spec 13;
        npf_n = length (hex_text 0xc008_0000_0000_0000) % 2 ^ 32;
        args = [];
        stores = [];
      }))
    × (read_double (hex_text 0xc008_0000_0000_0000) ≡ some 0xc008_0000_0000_0000)
vpprintf-hex_example =
    vpprintf-hex record_byte blank [] 0xc008_0000_0000_0000 [] (λ e. omega (arith, e)) (omega arith)

decimal_complete : is_complete full 5 (codes "%d, ") ≡ true
unfolding is_complete parse_at parse_format_spec_end index
decimal_complete = refl

vpprintf-append_example :
    vpprintf record_byte full blank [] (codes "%d, " ++ codes "%c") (word32 7 ∷ word32 b'x' ∷ [])
    ≡ (do
      st ← vpprintf record_byte full blank [] (codes "%d, ") (word32 7 ∷ word32 b'x' ∷ [])
      run record_byte full 3 (codes "%c") st)
vpprintf-append_example =
    vpprintf-append record_byte full blank [] (codes "%d, ") (codes "%c")
      (word32 7 ∷ word32 b'x' ∷ []) decimal_complete

-- A struct that holds the flags of another directive.
abbrev stale : FormatSpec
stale = record blank { prepend = b'+'; left_justified = b'-'; alt_form = b'#'; field_width = 9 }

vpprintf-fresh_example :
    Option.map visible (vpprintf record_byte full stale [] (codes "%d") (word32 7 ∷ []))
    ≡ Option.map visible (vpprintf record_byte full blank [] (codes "%d") (word32 7 ∷ []))
vpprintf-fresh_example = vpprintf-fresh record_byte full stale blank [] (codes "%d") (word32 7 ∷ [])
