-- ===== src/Utoa/Tests.antt =====
-- Runs of `npf_utoa_rev`.
use nanoprintf.Base.{◌<◌, ◌≢◌, inl, inr, arith, ◌≡◌, refl, reverse, true, ◌-◌, ◌^◌}
use nanoprintf.Base.Bytes.{codes}
use nanoprintf.Samples.{full}
use nanoprintf.Utoa.{
  utoa_rev, wide_digits, narrow_digits, divide_bits, digit_step, digit_char, div10,
}
use nanoprintf.Utoa.Numeral.{numeral, utoa_rev-numeral}
use nanoprintf.Utoa.Value.{read_rev, top, read_rev-utoa_rev}
use nanoprintf.Utoa.Div10.{div10_lem}

max_decimal : reverse (utoa_rev full (2 ^ 64 - 1) 10 0) ≡ codes "18446744073709551615"
unfolding utoa_rev wide_digits narrow_digits divide_bits digit_step digit_char div10
max_decimal = refl

max_octal : reverse (utoa_rev full (2 ^ 64 - 1) 8 0) ≡ codes "1777777777777777777777"
unfolding utoa_rev wide_digits narrow_digits divide_bits digit_step digit_char div10
max_octal = refl

division_free_decimal :
    reverse (utoa_rev (record full { division_free = true }) 4294967295 10 0) ≡ codes "4294967295"
unfolding utoa_rev wide_digits narrow_digits divide_bits digit_step digit_char div10
division_free_decimal = refl

utoa_rev-numeral_example :
    utoa_rev (record full { division_free = true }) 1234 10 0 ≡ numeral 10 0 64 1234
utoa_rev-numeral_example =
    utoa_rev-numeral (record full { division_free = true }) 1234 10 0 (inr (inl refl)) (omega arith)

read_rev-utoa_rev_example :
    (read_rev 16 32 (utoa_rev full 0xcafe 16 32) ≡ 0xcafe)
    × (0 < 0xcafe → top (utoa_rev full 0xcafe 16 32) ≢ b'0')
read_rev-utoa_rev_example = read_rev-utoa_rev full 0xcafe 16 32 (inr (inr refl)) (omega arith)

div10_lem_example : div10 4294967295 ≡ 429496729
div10_lem_example = div10_lem 4294967295 (omega arith)
