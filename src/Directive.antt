-- ===== src/Directive.antt =====
-- What npf_vpprintf does between the parse of a directive and its conversion: the star arguments,
-- the ceiling, the default precision and the '0' flag.
mod Tests
pub mod Ceiling
pub mod Fresh
use nanoprintf.Base.{
  ◌>>=◌, ℕ, ◌-◌, ◌%◌, ◌^◌, Bool, not, ◌&&◌, Option, some, none, ltb, leb, ◌==◌, if◌then◌else◌,
}
use nanoprintf.Config.{Config, int_max, fmt_num_max}
use nanoprintf.Spec.{Opt, ConvSpec, FormatSpec, index, is_star, is_none}
use nanoprintf.Args.{Args, arg_word32}

-- `a < 0` for an int, by its pattern.
abbrev pub negative32 : ℕ → Bool
negative32 v = leb (2 ^ 31) v

-- `a > b` for an int `a` and a constant `b`.
abbrev pub greater32 : ℕ → ℕ → Bool
greater32 a b = not (negative32 a) && ltb b a

-- The star width: the magnitude is taken in unsigned, and INT_MIN is pinned to the ceiling.
unfoldable pub star_width : Config → FormatSpec → ℕ → FormatSpec
star_width cfg fs v =
    let w = if negative32 v then (2 ^ 32 - v) % 2 ^ 32 else v in
    record fs {
      left_justified = if negative32 v then 1 else fs.left_justified;
      field_width = if ltb int_max w then fmt_num_max cfg else w;
    }

unfoldable pub cap_width : Config → FormatSpec → FormatSpec
cap_width cfg fs =
    if greater32 fs.field_width (fmt_num_max cfg)
    then record fs { field_width = fmt_num_max cfg }
    else fs

unfoldable pub take_width : Config → FormatSpec → Args → Option (FormatSpec × Args)
take_width cfg fs args =
    if cfg.field_widths
    then if is_star fs.field_width_opt
      then (do (v, args') ← arg_word32 args; some (cap_width cfg (star_width cfg fs v), args'))
      else some (cap_width cfg fs, args)
    else some (fs, args)

unfoldable pub star_prec : FormatSpec → ℕ → FormatSpec
star_prec fs v = record fs { prec = v; prec_opt = if negative32 v then Opt.none else fs.prec_opt }

unfoldable pub cap_prec : Config → FormatSpec → FormatSpec
cap_prec cfg fs =
    if greater32 fs.prec (fmt_num_max cfg) then record fs { prec = fmt_num_max cfg } else fs

unfoldable pub take_prec : Config → FormatSpec → Args → Option (FormatSpec × Args)
take_prec cfg fs args =
    if cfg.precisions
    then if is_star fs.prec_opt
      then (do (v, args') ← arg_word32 args; some (cap_prec cfg (star_prec fs v), args'))
      else some (cap_prec cfg fs, args)
    else some (fs, args)

-- The precision of a conversion that was given none; pointers have 64 bits, so 16 digits.
unfoldable pub default_prec : Config → FormatSpec → FormatSpec
default_prec cfg fs =
    if cfg.precisions && is_none fs.prec_opt
    then record fs {
      prec =
          if index fs.conv_spec == index ConvSpec.pointer
          then 16
          else if cfg.floats && leb (index ConvSpec.float_dec) (index fs.conv_spec)
          then if cfg.float_hex && index fs.conv_spec == index ConvSpec.float_hex then 13 else 6
          else 0;
    }
    else fs

-- A precision takes the '0' flag away from d, i, o, u, x and X.
unfoldable pub drop_zero_flag : Config → FormatSpec → FormatSpec
drop_zero_flag cfg fs =
    if cfg.precisions
      && cfg.field_widths
      && not (is_none fs.prec_opt)
      && leb (index ConvSpec.signed_int) (index fs.conv_spec)
      && leb (index fs.conv_spec) (index ConvSpec.unsigned_int)
      && not (cfg.binary && index fs.conv_spec == index ConvSpec.binary)
    then record fs { leading_zero_pad = 0 }
    else fs

-- The four stages in the order of the source.
unfoldable pub prepare : Config → FormatSpec → Args → Option (FormatSpec × Args)
prepare cfg fs args = do
  (fs1, args1) ← take_width cfg fs args
  (fs2, args2) ← take_prec cfg fs1 args1
  some (drop_zero_flag cfg (default_prec cfg fs2), args2)
