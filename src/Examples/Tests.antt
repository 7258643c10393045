-- ===== src/Examples/Tests.antt =====
-- What the examples leave in their buffers.
use nanoprintf.Base.{ℕ, ◌-◌, ◌≡◌, refl, some, [], ◌∷◌, ◌++◌, replicate, length}
use nanoprintf.Base.Bytes.{Bytes, codes}
use nanoprintf.Config.Defines.{
  is_defined, value, default, is_unconfigured, defaults, pick_defaults, optional_flags, buffer_size,
  int_value, is_old_cplusplus, is_old_c, checks, errors, to_config, settle, configure,
}
use nanoprintf.Samples.{blank}
use nanoprintf.Args
use nanoprintf.Float.Shift.{bin_shr, bin_shl, shr_loop, shl_loop}
use nanoprintf.Float.Hex.{normalise, widen}
use nanoprintf.Front.{
  wrap, promote, rseq, token_number, narg, map_n, macro_map, map_args, c_string, split_format,
  snprintf, npf_snprintf,
}
use nanoprintf.Snprintf.{Outcome, bufputc, terminator, vsnprintf}
use nanoprintf.Examples.WrapNpf
use nanoprintf.Examples.WrapNpfFloat
use nanoprintf.Examples.UseNpfDirectly
use nanoprintf.Printf.{vpprintf, run, directive, putc, parse_at, add_int}
use nanoprintf.Config.{fmt_num_max, use_sci}
use nanoprintf.Spec.{index}
use nanoprintf.Args
use nanoprintf.Args.{Args, word32, word64, pointer, text, real}
use nanoprintf.Parse.{parse_format_spec_end}
use nanoprintf.Directive.{
  star_width, cap_width, take_width, star_prec, cap_prec, take_prec, default_prec, drop_zero_flag,
  prepare,
}
use nanoprintf.Utoa.{
  utoa_rev, wide_digits, narrow_digits, divide_bits, digit_step, digit_char, div10,
}
use nanoprintf.Float.{
  man_bits, exp_bias, exp_values, bin_bits, shift_bits, sign_pos, ftoa_special, special_text,
}
use nanoprintf.Float.Fixed.{
  ftoa_rev, ftoa_finite, whole_part, finish, frac_part, round_up, frac_start, print_frac,
  scale_frac, print_int, emit_int, write, int_part, scale_int, fifth,
}
use nanoprintf.Float.Hex.{atoa_rev, drop_nibbles, nibbles, hex_exponent}
use nanoprintf.Convert
use nanoprintf.Emit

-- A line in a buffer of `n` bytes that were 0xff.
abbrev line : ℕ → Bytes → Outcome
line n cs = record {
  returned = length cs;
  memory = cs ++ 0 ∷ replicate (n - length cs - 1) 255;
  stores = [];
}

lines :
    (WrapNpf.main blank (replicate 32 255) ≡ some (line 32 (codes "hello nanoprintf")))
    × (WrapNpfFloat.main blank (replicate 64 255) ≡ some (line 64 (codes "pi is 3.14")))
    × (UseNpfDirectly.main blank (replicate 32 255) ≡ some (line 32 (codes "hello nanoprintf")))
unfolding bin_shr bin_shl shr_loop shl_loop parse_format_spec_end index fmt_num_max Args.arg_word32
    Args.arg_word64 Args.arg_pointer Args.arg_text Args.arg_real Args.arg_long_real Args.arg_single
    star_width cap_width take_width star_prec cap_prec take_prec default_prec drop_zero_flag prepare
    utoa_rev wide_digits narrow_digits divide_bits digit_step digit_char div10 man_bits exp_bias
    exp_values bin_bits shift_bits sign_pos ftoa_special special_text ftoa_rev ftoa_finite
    whole_part finish frac_part round_up frac_start print_frac scale_frac print_int emit_int write
    int_part scale_int fifth atoa_rev drop_nibbles nibbles hex_exponent Convert.cbuf_len
    Convert.sign_extend Convert.is_word64 Convert.narrow_bits Convert.take_signed
    Convert.take_unsigned Convert.bit_count Convert.bin_len Convert.int_piece Convert.convert_signed
    Convert.base_of Convert.convert_unsigned Convert.span Convert.string_of Convert.counted
    Convert.convert_string Convert.convert_char Convert.writeback_size Convert.convert_writeback
    Convert.take_real Convert.convert_real Convert.float_piece Convert.convert Emit.pad_char
    Emit.prec_zeros Emit.bare_len Emit.field_blanks Emit.spec_len Emit.put_times Emit.put_string
    Emit.put_reversed Emit.put_bits Emit.put_payload Emit.put_sign Emit.put_0x Emit.emit vpprintf
    run directive putc parse_at add_int use_sci is_defined value default is_unconfigured defaults
    pick_defaults optional_flags buffer_size int_value is_old_cplusplus is_old_c checks errors
    to_config settle configure normalise widen wrap promote rseq token_number narg map_n macro_map
    map_args c_string split_format snprintf npf_snprintf bufputc terminator vsnprintf
    WrapNpf.your_project_snprintf WrapNpfFloat.your_project_snprintf
    WrapNpfFloat.your_project_snprintf_ WrapNpf.main WrapNpfFloat.main UseNpfDirectly.main
lines = (refl, refl, refl)
