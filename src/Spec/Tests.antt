-- ===== src/Spec/Tests.antt =====
-- The numbers of the conversions in a build.
use nanoprintf.Base.{◌≡◌, refl, ltb, ◌==◌, true, false}
use nanoprintf.Config.{Config}
use nanoprintf.Samples.{full}
use nanoprintf.Spec.{ConvSpec, index}
use nanoprintf.Spec.Order.{member_if, enumeration, listed, position, conv_value}
use nanoprintf.Spec.Numbers.{conv_value_lem}

-- Without 'b', 'n', 'e' and 'g'.
abbrev plain : Config
plain = record full { binary = false; writeback = false }

plain_hex : conv_value plain ConvSpec.float_hex ≡ 10
unfolding conv_value position enumeration member_if index
plain_hex = refl

listed-octal : listed ConvSpec.octal (enumeration plain) ≡ true
unfolding listed enumeration member_if index
listed-octal = refl

listed_hex : listed ConvSpec.float_hex (enumeration plain) ≡ true
unfolding listed enumeration member_if index
listed_hex = refl

conv_value_lem_example :
    (ltb (conv_value plain ConvSpec.octal) (conv_value plain ConvSpec.float_hex)
      ≡ ltb (index ConvSpec.octal) (index ConvSpec.float_hex))
    × ((conv_value plain ConvSpec.octal == conv_value plain ConvSpec.float_hex)
        ≡ (index ConvSpec.octal == index ConvSpec.float_hex))
conv_value_lem_example =
    conv_value_lem plain ConvSpec.octal ConvSpec.float_hex listed-octal listed_hex
