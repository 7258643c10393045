-- ===== src/Lib.antt =====
-- nanoprintf: a printf of one header file, nanoprintf.h. What is named below without a file is in
-- that one.
--
-- A call of npf_vpprintf walks over a format string. Bytes that start no directive go to a callback;
-- a '%' is parsed by npf_parse_format_spec_end into an npf_format_spec_t, whose star arguments are
-- fetched and capped, whose argument is converted into `cbuf`, and whose text is padded and given to
-- the callback byte by byte. npf_vsnprintf is npf_vpprintf with a callback that writes into a buffer.
--
-- The files, each with its theorems in the folder of its name:
--   Config     the NANOPRINTF_USE_* macros as a record of switches, and the constants of the target;
--              Config/Defines is how the header gets them from what is defined
--   Spec       the enumerations and npf_format_spec_t; Spec/Order is the enumeration of the conversions
--              as a build compiles it
--   Parse      npf_fmt_num, npf_parse_format_spec_end (one function for each stage), the facade
--   Utoa       npf_div10 and npf_utoa_rev_end, with the wide and the division-free loops
--   Float      npf_ftoa_special and the constants; Float/Shift the shifts and the bit pattern of a
--              number; Float/Fixed is npf_ftoa_rev, Float/Hex npf_atoa_rev, with a
--              reader of its texts in Hex/Reader; Float/Sci is npf_etoa_rev with its stages
--              in Sci/Whole, Sci/Tail, Sci/Round, Sci/Compose
--   Args       va_list, as the list of the values that the caller passed
--   Directive  the part of npf_vpprintf between the parse and the conversion
--   Convert    the arms of its dispatch, and npf_bin_len
--   Emit       its output half, over any callback; Emit/Text is the text that C describes
--   Printf     its loop
--   Snprintf   npf_bufputc and npf_vsnprintf
--   Front      npf_snprintf and npf_pprintf with NPF_MAP_ARGS, as C++, GCC and Clang expand them;
--              Front/Generic is the NPF__WRAP of other compilers of C
--   Examples   the programs under examples
--   Base       lists, tests and bytes that the others share; Samples has inputs for the tests
--
-- The state of a call is the record Printf.State: what stands behind the callback's pointer, the
-- struct `fs`, `npf_n`, the arguments left, and the stores that '%n' made. A callback is a function
-- from a state and a byte to a state. A result `none` is undefined behaviour: an argument that is
-- missing or of another type, a read behind the end of a string, or an int that overflows on the
-- length of one.
--
-- Numbers are native, and an unsigned or an int of w bits is its pattern below 2^w with the wrap
-- written out. A char is its code from 0 to 255, also where the target's char is signed. A string is
-- the list of its bytes before the terminator, and a read at its end gives 0. The target has int of
-- 32 bits, and long, long long, size_t, ptrdiff_t and pointers of 64; every feature switch, the size
-- of the conversion buffer, the type of the conversion's mantissa and the int_fastN_t types are left
-- open. Lengths that the code keeps in an int (`cbuf_len`, `spec_len`) are natural numbers: those of
-- the conversion buffer are below its size, and a string of 2^31 bytes or more, whose count would
-- overflow, is undefined in the model too.
--
-- Loops over a list recurse on it. Those that do not take fuel: 64 rounds for the digits and the bits
-- of a 64-bit value, which has no more of them; 20 for the decimal digits of a mantissa; the buffer's
-- size plus one for the rounding, which leaves at the end of the buffer; and the format's length plus
-- one for the loop of npf_vpprintf, whose rounds each pass a byte.
--
-- Not modelled: attributes, pragmas and linkage; the #error that stands in place of NPF__WRAP where
-- the configuration has refused the compiler already. A long double is given by the double that it becomes.
mod Base
pub mod Config
pub mod Spec
pub mod Samples
pub mod Parse
pub mod Utoa
pub mod Args
pub mod Directive
pub mod Float
pub mod Convert
pub mod Emit
pub mod Printf
pub mod Snprintf
pub mod Front
pub mod Examples
