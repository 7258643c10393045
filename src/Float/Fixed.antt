-- ===== src/Float/Fixed.antt =====
-- `npf_ftoa_rev`, the 'f' conversion of a build without 'e' and 'g'. The parts of the function are
-- functions of their own. `none` is `goto exit` before `sp` was set to another value than ERR. The
-- buffer is the list of its NPF_CBUF bytes. A number of the mantissa type has `mb` bits.
use nanoprintf.Base.{
  ℕ, zero, suc, ◌+◌, ◌-◌, ◌*◌, ◌/◌, ◌%◌, ◌^◌, Bool, ◌&&◌, ◌||◌, not, Option, some, none, [], ◌∷◌,
  ltb, leb, ◌==◌, if◌then◌else◌, ◌>>=◌, set, get_or, take, replicate, length,
}
use nanoprintf.Base.Bytes.{Bytes}
use nanoprintf.Config.{Config}
use nanoprintf.Spec.{FormatSpec}
use nanoprintf.Utoa.{utoa_rev, div10}
use nanoprintf.Float.Shift.{bin_shr, bin_shl}
use nanoprintf.Float.{
  man_bits, exp_bias, exp_values, bin_bits, shift_bits, Converted, number, Special, ftoa_special,
}

-- The state of the integer part's scaling: `man_i`, `carry`, `dec` and the buffer.
pub record Scaling : Type 0 where
  pub man : ℕ
  pub carry : ℕ
  pub dec : ℕ
  pub buf : Bytes

-- `man_i / 5` with the carry that rounds it, as divided and in the division-free build.
unfoldable pub fifth : Config → ℕ → ℕ → ℕ × ℕ
fifth cfg man carry =
    if cfg.division_free && leb cfg.conversion_float_bits 32
    then (let q = div10 man in
        let r = (man + 2 ^ 32 - q * 10 % 2 ^ 32) % 2 ^ 32 in
        let man' = q * 2 % 2 ^ cfg.conversion_float_bits in
        if leb 5 r
        then ((man' + 1) % 2 ^ cfg.conversion_float_bits, (r - 5 + carry + 1) / 2 ^ 2)
        else (man', (r + carry + 1) / 2 ^ 2))
    else (man / 5, (man % 5 + carry + 1) / 2 ^ 2)

-- The loop from base 2 to base 10 over the integer part, `exp_i` rounds.
unfoldable pub scale_int : Config → ℕ → Scaling → Option Scaling
scale_int cfg zero s = some s
scale_int cfg (suc exp_i) s =
    let mb = cfg.conversion_float_bits in
    let doubled =
      scale_int cfg exp_i (record s { man = (s.man * 2 + s.carry) % 2 ^ mb; carry = 0 }) in
    let (man', carry') = fifth cfg s.man s.carry in
    let fifthed =
      scale_int cfg exp_i
        (record { man = man'; carry = carry'; dec = s.dec + 1; buf = set s.buf s.dec b'0' }) in
    if s.man / 2 ^ (mb - 1) == 0
    then doubled
    else if leb cfg.conversion_buffer_size s.dec
    then none
    else fifthed

-- The mantissa's integer part, scaled; `e` is the exponent, not negative.
unfoldable pub int_part : Config → ℕ → ℕ → ℕ → Bytes → Option Scaling
int_part cfg bin e dec buf =
    let mb = cfg.conversion_float_bits in
    let shift_i = if ltb (shift_bits cfg) e then shift_bits cfg else e in
    let shift = man_bits cfg - shift_i in
    let bin_i = bin_shr cfg bin (shift - 1) in
    scale_int cfg (e - shift_i) (record {
      man = if shift == 0 then bin % 2 ^ mb else bin_i / 2 % 2 ^ mb;
      carry = if shift == 0 then 0 else bin_i % 2;
      dec = dec;
      buf = buf;
    })

-- A run of bytes written from an index on.
unfoldable pub write : Bytes → ℕ → Bytes → Bytes
write buf i [] = buf
write buf i (c ∷ cs) = write (set buf i c) (i + 1) cs

-- The digits of a mantissa wider than 32 bits, emitted in place.
unfoldable pub emit_int : Config → ℕ → ℕ → ℕ → Bytes → Option (ℕ × Bytes)
emit_int cfg zero man end buf = none
emit_int cfg (suc fuel) man end buf =
    let buf' = set buf end (b'0' + man % 10) in
    let rest = emit_int cfg fuel (man / 10) (end + 1) buf' in
    if leb cfg.conversion_buffer_size end
    then none
    else if man / 10 == 0
    then some (end + 1, buf')
    else rest

-- The integer is printed from `end` on.
unfoldable pub print_int : Config → ℕ → ℕ → Bytes → Option (ℕ × Bytes)
print_int cfg man end buf =
    if leb cfg.conversion_float_bits 32
    then if ltb (cfg.conversion_buffer_size - 10) end
      then none
      else (let ds = utoa_rev cfg man 10 0 in some (end + length ds, write buf end ds))
    else emit_int cfg 20 man end buf

-- The state of the fraction's scaling; `rounds` is 4 minus `exp_f`.
pub record Fraction : Type 0 where
  pub rounds : ℕ
  pub man : ℕ
  pub carry : ℕ
  pub dec_f : ℕ
  pub buf : Bytes

-- The loop from base 2 to base 10 over the fraction.
unfoldable pub scale_frac : ℕ → ℕ → ℕ → ℕ → ℕ → ℕ → Bytes → Fraction
scale_frac mb zero man carry digit dec_f buf = record {
  rounds = 0;
  man = man;
  carry = carry;
  dec_f = dec_f;
  buf = buf;
}
scale_frac mb (suc k) man carry digit dec_f buf =
    let stop : Fraction = record {
      rounds = suc k;
      man = man;
      carry = carry;
      dec_f = dec_f;
      buf = buf;
    } in
    let halved = scale_frac mb k (man / 2) (man % 2) digit dec_f buf in
    let man' = if carry == 0 then man * 5 % 2 ^ mb else (man * 5 % 2 ^ mb + 3) % 2 ^ mb in
    let lead = scale_frac mb k man' 0 digit (dec_f - 1) (set buf (dec_f - 1) b'0') in
    let first = scale_frac mb k man' 0 (digit + 1) dec_f buf in
    if dec_f == 0
    then stop
    else if ltb ((2 ^ mb - 4) / 5) man || not (digit == 0)
    then halved
    else if ltb 4 (suc k)
    then lead
    else first

-- The digits of the fraction, from `dec_f - 1` down to 0, and the mantissa left.
unfoldable pub print_frac : ℕ → ℕ → ℕ → Bytes → ℕ × Bytes
print_frac mb zero man buf = (man, buf)
print_frac mb (suc dec_f) man buf =
    let buf' = set buf dec_f (b'0' + man / 2 ^ (mb - 4)) in
    let man' = man % 2 ^ (mb - 4) in
    let rest = print_frac mb dec_f (man' * 10 % 2 ^ mb) buf' in
    if dec_f == 0 then (man' * 2 ^ 4 % 2 ^ mb, buf') else rest

-- The fraction's mantissa and carry; `neg` says that the exponent is negative, else it is `e`.
unfoldable pub frac_start : Config → ℕ → Bool → ℕ → ℕ × ℕ
frac_start cfg bin neg e =
    let mb = cfg.conversion_float_bits in
    let bb = bin_bits cfg in
    let shift = if neg then bb - man_bits cfg - 1 else bb - man_bits cfg + e in
    let bin_f = bin_shl cfg bin shift in
    if ltb mb bb
    then (bin_f / 2 ^ ((bb - mb) % bb) % 2 ^ mb, bin_f / 2 ^ ((bb - mb - 1) % bb) % 2)
    else (bin_f % 2 ^ mb * 2 ^ ((mb - bb) % mb) % 2 ^ mb, 0)

-- The loop that rounds the number up; at most one round for each byte of the buffer.
unfoldable pub round_up : Config → ℕ → ℕ → ℕ → Bytes → Option (ℕ × Bytes)
round_up cfg zero dec end buf = none
round_up cfg (suc fuel) dec end buf =
    let buf1 = if leb end dec then set buf end b'0' else buf in
    let end1 = if leb end dec then end + 1 else end in
    let c = get_or buf1 dec 0 in
    let skip = round_up cfg fuel (dec + 1) end1 buf1 in
    let nine = round_up cfg fuel (dec + 1) end1 (set buf1 dec b'0') in
    if leb cfg.conversion_buffer_size dec
    then none
    else if c == b'.'
    then skip
    else if c == b'9'
    then nine
    else some (end1, set buf1 dec (c + 1))

-- The fraction part: the carry, the index that rounding starts at, and the buffer.
unfoldable pub frac_part : Config → ℕ → ℕ → Bool → ℕ → Bytes → ℕ × Bytes
frac_part cfg prec bin neg e buf =
    let mb = cfg.conversion_float_bits in
    let (man0, carry0) = frac_start cfg bin neg e in
    let fr = scale_frac mb (if neg then 3 + e else 4) man0 carry0 0 prec buf in
    let man1 = if fr.man == 2 ^ mb - 1 then fr.man else (fr.man + fr.carry) % 2 ^ mb in
    let carry1 = if leb fr.rounds 4 then 1 else 0 in
    let (man2, buf2) = print_frac mb fr.dec_f man1 fr.buf in
    let carry2 = if carry1 == 0 then 0 else man2 / 2 ^ (mb - 1) % 2 in
    let lsd =
      if cfg.alt_forms && get_or buf2 0 0 == b'.' then get_or buf2 1 0 else get_or buf2 0 0 in
    (if man2 == 2 ^ (mb - 1) then (if carry2 == 0 then 0 else lsd % 2) else carry2, buf2)

-- The integer part of a number, from `dec` on: 0 where the exponent is negative.
unfoldable pub whole_part : Config → ℕ → Bool → ℕ → ℕ → Bytes → Option Scaling
whole_part cfg bin neg e dec buf =
    if neg
    then some (record { man = 0; carry = 0; dec = dec; buf = buf })
    else int_part cfg bin e dec buf

-- The fraction part and the rounding, behind the printed integer.
unfoldable pub finish : Config → ℕ → ℕ → Bool → ℕ → Scaling → ℕ → Bytes → Option (ℕ × Bytes)
finish cfg prec bin neg e s end buf =
    let fraction = neg || (ltb e (man_bits cfg) && leb e (shift_bits cfg)) in
    let (carry, buf') =
      if fraction
      then frac_part cfg prec bin neg e buf
      else (s.carry, (print_frac cfg.conversion_float_bits prec 0 buf).1) in
    let dec = if fraction then 0 else s.dec in
    let rounded = round_up cfg (cfg.conversion_buffer_size + 1) dec end buf' in
    if carry == 0 then some (end, buf') else rounded

-- The conversion of a finite number whose exponent field is `e0`.
unfoldable pub ftoa_finite : Config → FormatSpec → ℕ → ℕ → ℕ → Option (ℕ × Bytes)
ftoa_finite cfg fs prec e0 man =
    let bin = if e0 == 0 then man else man + 2 ^ man_bits cfg in
    let e1 = if e0 == 0 then 1 else e0 in
    let neg = ltb e1 (exp_bias cfg) in
    let e = if neg then exp_bias cfg - e1 else e1 - exp_bias cfg in
    let point = not (prec == 0) || (cfg.alt_forms && not (fs.alt_form == 0)) in
    let buf = replicate cfg.conversion_buffer_size 0 in
    let buf0 = if point then set buf prec b'.' else buf in
    let dec0 = if point then prec + 1 else prec in
    whole_part cfg bin neg e dec0 buf0 >>= λ s.
    print_int cfg s.man s.dec s.buf >>= λ r. finish cfg prec bin neg e s r.0 r.1

-- `npf_ftoa_rev`
unfoldable pub ftoa_rev : Config → FormatSpec → ℕ → ℕ → Converted
ftoa_rev cfg fs prec f =
    let e0 = f / 2 ^ man_bits cfg % exp_values cfg in
    let man = f % 2 ^ man_bits cfg in
    if (e0 + 1) % exp_values cfg == 0
    then ftoa_special fs.case_adjust (if man == 0 then Special.inf else Special.nan)
    else if ltb (cfg.conversion_buffer_size - 2) prec
    then ftoa_special fs.case_adjust Special.err
    else elim (ftoa_finite cfg fs prec e0 man) [
      | none ↦ ftoa_special fs.case_adjust Special.err
      | some (end, buf) ↦ number (take end buf)
    ]
