-- ===== src/Base/Both.antt =====
-- Two results that are both missing, or both there and related.
use mathlib.Core.Option.{Option, none, some}
use mathlib.Core.Path.{◌≡◌, refl}
use mathlib.Core.Logic.{◌⊎◌, inl, inr}
use nanoprintf.Base.Tests.{◌>>=◌}

module _ {ℓ} {A : Type ℓ} (R : A → A → Type 0) where
  abbrev pub Both : Option A → Option A → Type 0
  Both none none = Unit
  Both (some a) (some b) = R a b
  Both none (some b) = ⊥
  Both (some a) none = ⊥

  pub Both-refl : ((a : A) → R a a) → (x : Option A) → Both x x
  Both-refl h none = tt
  Both-refl h (some a) = h a

  pub Both-cases :
      (x y : Option A)
      → Both x y
      → ((x ≡ none) × (y ≡ none)) ⊎ ((a : A) × (b : A) × (x ≡ some a) × (y ≡ some b) × R a b)
  Both-cases none none h = inl (refl, refl)
  Both-cases (some a) (some b) h = inr (a, b, refl, refl, h)
  Both-cases none (some b) h = absurd h
  Both-cases (some a) none h = absurd h

-- Related results, carried on by steps that keep them related.
pub >>=-Both {ℓ ℓ'} :
    {A : Type ℓ} {B : Type ℓ'} (R : A → A → Type 0) (Q : B → B → Type 0) (x y : Option A)
    (f g : A → Option B)
    → Both R x y
    → ((a b : A) → R a b → Both Q (f a) (g b))
    → Both Q (x >>= f) (y >>= g)
>>=-Both R Q none none f g h k = tt
>>=-Both R Q (some a) (some b) f g h k = k a b h
>>=-Both R Q none (some b) f g h k = absurd h
>>=-Both R Q (some a) none f g h k = absurd h
