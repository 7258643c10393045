-- ===== src/Spec/Order.antt =====
-- The enumeration of the conversions as a build compiles it, and the assertions about its order.
use nanoprintf.Base.{
  ℕ, suc, ◌+◌, Bool, true, false, ◌&&◌, ◌||◌, List, [], ◌∷◌, ◌++◌, ltb, ◌==◌, if◌then◌else◌,
}
use nanoprintf.Config.{Config, use_sci}
use nanoprintf.Spec.{ConvSpec, index}

-- A member under an #if.
unfoldable pub member_if : Bool → ConvSpec → List ConvSpec
member_if b c = if b then c ∷ [] else []

-- The members that a build has, in their order.
unfoldable pub enumeration : Config → List ConvSpec
enumeration cfg =
    ConvSpec.none
    ∷ ConvSpec.percent
    ∷ ConvSpec.char
    ∷ ConvSpec.string
    ∷ ConvSpec.signed_int
    ∷ (member_if cfg.binary ConvSpec.binary
        ++ ConvSpec.octal
          ∷ ConvSpec.hex_int
          ∷ ConvSpec.unsigned_int
          ∷ ConvSpec.pointer
          ∷ (member_if cfg.writeback ConvSpec.writeback
              ++ (if cfg.floats
                  then ConvSpec.float_dec
                    ∷ (member_if cfg.float_hex ConvSpec.float_hex
                        ++ (member_if cfg.float_sci ConvSpec.float_sci
                            ++ member_if cfg.float_shortest ConvSpec.float_shortest))
                  else [])))

-- A build has a member.
unfoldable pub listed : ConvSpec → List ConvSpec → Bool
listed c [] = false
listed c (d ∷ ds) = index c == index d || listed c ds

-- The number of a member: how many stand before it.
unfoldable pub position : ConvSpec → List ConvSpec → ℕ
position c [] = 0
position c (d ∷ ds) = if index c == index d then 0 else suc (position c ds)

unfoldable pub conv_value : Config → ConvSpec → ℕ
conv_value cfg c = position c (enumeration cfg)

-- NPF_FMT_SPEC_CONV_FLOAT_SCI_FIRST
unfoldable pub sci_first : Config → ConvSpec
sci_first cfg = if cfg.float_sci then ConvSpec.float_sci else ConvSpec.float_shortest

-- An assertion that stands under an #if.
unfoldable pub assert_if : Bool → Bool → Bool
assert_if b holds = if b then holds else true

-- The conditions of NPF_CONV_ORDER_ASSERT, in their order.
unfoldable pub order_asserts : Config → List Bool
order_asserts cfg =
    let v = conv_value cfg in
    (ltb (v ConvSpec.percent) (v ConvSpec.signed_int)
      && ltb (v ConvSpec.char) (v ConvSpec.signed_int)
      && ltb (v ConvSpec.string) (v ConvSpec.signed_int))
    ∷ (v ConvSpec.unsigned_int == v ConvSpec.signed_int + (if cfg.binary then 4 else 3))
    ∷ ltb (v ConvSpec.unsigned_int) (v ConvSpec.pointer)
    ∷ assert_if cfg.floats (
        ltb (v (if cfg.writeback then ConvSpec.writeback else ConvSpec.pointer))
          (v ConvSpec.float_dec))
    ∷ assert_if (cfg.floats && use_sci cfg) (ltb (v ConvSpec.float_dec) (v (sci_first cfg)))
    ∷ assert_if (cfg.floats && use_sci cfg && cfg.float_hex)
        (ltb (v ConvSpec.float_hex) (v (sci_first cfg)))
    ∷ assert_if (cfg.floats && use_sci cfg && cfg.float_sci && cfg.float_shortest)
        (v ConvSpec.float_shortest == v ConvSpec.float_sci + 1)
    ∷ []
