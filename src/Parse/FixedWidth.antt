-- ===== src/Parse/FixedWidth.antt =====
-- The 'wN' length modifiers, whose digits name a width in bits.
use mathlib.Core.Path.{subst}
use nanoprintf.Base.{
  ℕ, ◌≡◌, ◌≢◌, refl, ap, true, false, some, none, [], ◌∷◌, ◌++◌, ◌==◌, if◌then◌else◌, Bool-cases,
  inl, inr, arith, eq_of_some,
}
use nanoprintf.Base.Bytes.{Bytes, peek, advance}
use nanoprintf.Config.{Config}
use nanoprintf.Spec.{LengthModifier}
use nanoprintf.Parse.{lm_of, fixed_digits}
use nanoprintf.Parse.Number.{value}
use nanoprintf.Convert.{is_word64, narrow_bits}

-- The bits of the argument that a length modifier stands for.
abbrev pub bits_of : LengthModifier → ℕ
bits_of m = if is_word64 m then 64 else narrow_bits m

-- The digits that lie before the cursor spell the width that the modifier reads.
abbrev pub SpellsWidth : Bytes → LengthModifier × Bytes → Type 0
SpellsWidth cur (m, end) = (ds : Bytes) × (cur ≡ ds ++ end) × (value 0 ds ≡ bits_of m)

cons-peek : (cur : Bytes) (c : ℕ) → c ≢ 0 → (peek cur == c) ≡ true → cur ≡ c ∷ advance cur
cons-peek [] c n h = ground arith
cons-peek (x ∷ cur) c n h = let e : x ≡ c = ground arith in ap (λ y. y ∷ cur) e

cons-two :
    (cur : Bytes) (c d : ℕ)
    → c ≢ 0
    → d ≢ 0
    → (peek cur == c) ≡ true
    → (peek (advance cur) == d) ≡ true
    → cur ≡ (c ∷ d ∷ []) ++ advance (advance cur)
cons-two [] c d n k h i = ground arith
cons-two (x ∷ cur) c d n k h i = let e : x ≡ c = ground arith in rw (e, cons-peek cur d k i) refl

none-ne : {A : Type 0} {a : A} → ¬ (none ≡ some a)
none-ne h = cc

-- Where 'wN' is accepted, the digits passed spell N, and the length modifier stands for an argument of
-- exactly N bits.
pub fixed_digits-SpellsWidth :
    (cfg : Config) (cur : Bytes) (r : LengthModifier × Bytes)
    → fixed_digits cfg false cur ≡ some r
    → SpellsWidth cur r
unfolding fixed_digits lm_of is_word64 narrow_bits
fixed_digits-SpellsWidth cfg cur r h =
    let cur' = advance cur in
    elim (Bool-cases (peek cur == b'1')) [
      | inl a ↦ elim (Bool-cases (peek cur' == b'6')) [
        | inl b ↦
            subst (SpellsWidth cur) (eq_of_some (rw (a, b) at h))
              (b'1' ∷ b'6' ∷ [], cons-two cur b'1' b'6' (omega arith) (omega arith) a b, refl)
        | inr b ↦ absurd (none-ne (rw (a, b) at h))
      ]
      | inr a ↦ elim (Bool-cases (peek cur == b'3')) [
        | inl c ↦ elim (Bool-cases (peek cur' == b'2')) [
          | inl b ↦
              subst (SpellsWidth cur) (eq_of_some (rw (a, c, b) at h))
                (b'3' ∷ b'2' ∷ [], cons-two cur b'3' b'2' (omega arith) (omega arith) c b, refl)
          | inr b ↦ absurd (none-ne (rw (a, c, b) at h))
        ]
        | inr c ↦ elim (Bool-cases (peek cur == b'6')) [
          | inl d ↦ elim (Bool-cases (peek cur' == b'4')) [
            | inl b ↦
                subst (SpellsWidth cur) (eq_of_some (rw (a, c, d, b) at h))
                  (b'6' ∷ b'4' ∷ [], cons-two cur b'6' b'4' (omega arith) (omega arith) d b, refl)
            | inr b ↦ absurd (none-ne (rw (a, c, d, b) at h))
          ]
          | inr d ↦ elim (Bool-cases (peek cur == b'8')) [
            | inl b ↦
                subst (SpellsWidth cur) (eq_of_some (rw (a, c, d, b) at h))
                  (b'8' ∷ [], cons-peek cur b'8' (omega arith) b, refl)
            | inr b ↦ absurd (none-ne (rw (a, c, d, b) at h))
          ]
        ]
      ]
    ]
