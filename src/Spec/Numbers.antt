-- ===== src/Spec/Numbers.antt =====
-- A build's enumeration against the one that has every member.
use nanoprintf.Base.{
  ℕ, suc, ◌<◌, ◌≤◌, ◌≡◌, refl, true, false, List, [], ◌∷◌, ltb, ◌==◌, Bool-cases, inl, inr, arith,
  All,
}
use nanoprintf.Config.{Config, use_sci}
use nanoprintf.Spec.{ConvSpec, index}
use nanoprintf.Spec.Order.{
  member_if, enumeration, listed, position, conv_value, sci_first, assert_if, order_asserts,
}

-- The members of a list come in their order, from the index `n` on.
abbrev Rising : ℕ → List ConvSpec → Type 0
Rising n [] = Unit
Rising n (d ∷ ds) = (n ≤ index d) × Rising (suc (index d)) ds

enumeration-Rising : (cfg : Config) → Rising 0 (enumeration cfg)
unfolding enumeration member_if index
enumeration-Rising cfg = ground arith

listed-Rising :
    (c : ConvSpec) (n : ℕ) (ds : List ConvSpec) → Rising n ds → listed c ds ≡ true → n ≤ index c
unfolding listed
listed-Rising c n [] r h = cc
listed-Rising c n (d ∷ ds) (l, r) h = elim (Bool-cases (index c == index d)) [
  | inl e ↦ ground arith
  | inr e ↦ let k = listed-Rising c (suc (index d)) ds r (ground arith) in omega (arith, k, l)
]

-- A later member has a greater number.
position-lt :
    (a b : ConvSpec) (n : ℕ) (ds : List ConvSpec)
    → Rising n ds
    → listed a ds ≡ true
    → listed b ds ≡ true
    → index a < index b
    → position a ds < position b ds
unfolding listed position
position-lt a b n [] r h k l = cc
position-lt a b n (d ∷ ds) (m, r) h k l = elim (Bool-cases (index a == index d)) [
  | inl e ↦ ground arith
  | inr e ↦
      let in_a : listed a ds ≡ true = ground arith in
      let above = listed-Rising a (suc (index d)) ds r in_a in
      let later : (index b == index d) ≡ false = ground arith in
      let in_b : listed b ds ≡ true = ground arith in
      rw (e, later) (omega (arith, position-lt a b (suc (index d)) ds r in_a in_b l))
]

position-index :
    (a b : ConvSpec) (ds : List ConvSpec) → index a ≡ index b → position a ds ≡ position b ds
unfolding position
position-index a b [] e = refl
position-index a b (d ∷ ds) e = ground (arith, position-index a b ds e)

-- Of two conversions that a build has, their numbers in its enumeration compare as those in the
-- enumeration with every member.
pub conv_value_lem :
    (cfg : Config) (a b : ConvSpec)
    → listed a (enumeration cfg) ≡ true
    → listed b (enumeration cfg) ≡ true
    → (ltb (conv_value cfg a) (conv_value cfg b) ≡ ltb (index a) (index b))
      × ((conv_value cfg a == conv_value cfg b) ≡ (index a == index b))
unfolding conv_value
conv_value_lem cfg a b h k =
    let r = enumeration-Rising cfg in
    ground (
      arith,
      position-lt a b 0 (enumeration cfg) r h k,
      position-lt b a 0 (enumeration cfg) r k h,
      position-index a b (enumeration cfg),
    )

-- The assertions about the order hold in every build.
pub order_asserts_hold : (cfg : Config) → All (λ holds. holds ≡ true) (order_asserts cfg)
unfolding order_asserts conv_value position enumeration member_if index sci_first assert_if use_sci
order_asserts_hold cfg = ground arith
