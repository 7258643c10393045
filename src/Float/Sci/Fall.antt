-- ===== src/Float/Sci/Fall.antt =====
-- How far the fraction's scaling of `npf_etoa_rev` moves the decimal exponent.
use native.Mathlib.Nat.{mod-lt, pow-le-pow_right, mod-eq_of_lt}
use mathlib.Core.Path.{subst}
use nanoprintf.Base.{
  ℕ, zero, suc, ◌+◌, ◌-◌, ◌*◌, ◌/◌, ◌%◌, ◌^◌, ◌≤◌, ◌<◌, ◌≡◌, refl, ◌∙◌, Bool, true, false, ◌&&◌,
  ◌||◌, not, ltb, ◌==◌, if◌then◌else◌, Bool-cases, inl, inr, arith, length, length-set,
}
use nanoprintf.Base.Ints.{ℤ, pos, pos_part, neg_part, ◌-ℤ◌, -ℤ_parts}
use nanoprintf.Float.Bounds.{pow-pos}
use nanoprintf.Float.Sci.Tail.{Tail, tail_step, is_full, scale_tail}

-- `v` multiplied by five, `j` times.
abbrev grow : ℕ → ℕ → ℕ
grow zero v = v
grow (suc j) v = grow j (5 * v)

grow_mono : (j v w : ℕ) → v ≤ w → grow j v ≤ grow j w
grow_mono zero v w h = h
grow_mono (suc j) v w h = grow_mono j (5 * v) (5 * w) (omega (arith, h))

-- A state of the fraction's scaling: the mantissa fits its type, and the carry is a bit.
pub record IsTail (mb : ℕ) (s : Tail) : Type 0 where
  pub man : s.man < 2 ^ mb
  pub carry : s.carry ≤ 1

-- The decimal place of the highest digit stays where it was: `dec` falls as `end` does.
pub record Shifts (s s' : Tail) : Type 0 where
  pub place : pos_part s'.dec + neg_part s.dec + s.end ≡ neg_part s'.dec + pos_part s.dec + s'.end
  pub end : s'.end ≤ s.end
  pub held : length s'.buf ≡ length s.buf

pub Shifts-trans : (a b c : Tail) → Shifts a b → Shifts b c → Shifts a c
Shifts-trans a b c h k = record {
  place = omega (arith, h.place, k.place);
  end = omega (arith, h.end, k.end);
  held = k.held ∙ h.held;
}

module _ (mb : ℕ) (wide : 8 ≤ mb) where
  large : 256 ≤ 2 ^ mb
  large = pow-le-pow_right {n = 2} (omega arith) {i = 8} {j = mb} wide

  -- The mantissa and carry of a round that multiplies.
  fivefold :
      (man carry : ℕ)
      → ltb ((2 ^ mb - 4) / 5) man ≡ false
      → carry ≤ 1
      → (if carry == 0 then man * 5 % 2 ^ mb else (man * 5 % 2 ^ mb + 3) % 2 ^ mb)
        ≡ 5 * man + 3 * carry
  fivefold man carry h c =
      let le : man ≤ (2 ^ mb - 4) / 5 = ground arith in
      let small : man * 5 + 3 < 2 ^ mb = omega (arith, le, large) in
      let less : man * 5 < 2 ^ mb = omega (arith, small) in
      rw (mod-eq_of_lt less, mod-eq_of_lt small) (ground arith)

  tail_step-IsTail :
      (lead early : Bool) (s : Tail) → IsTail mb s → IsTail mb (tail_step mb lead early s)
  unfolding tail_step
  tail_step-IsTail lead early s i =
      let a = mod-lt (s.man * 5) (pow-pos mb) in
      let b = mod-lt (s.man * 5 % 2 ^ mb + 3) (pow-pos mb) in
      record { man = ground (arith, i.man, a, b); carry = ground (arith, i.carry) }

  tail_step-Shifts : (early : Bool) (s : Tail) → 0 < s.end → Shifts s (tail_step mb false early s)
  unfolding tail_step
  tail_step-Shifts early s h = record {
    place = ground (arith, -ℤ_parts s.dec (pos 1));
    end = ground arith;
    held = ground (arith, length-set s.buf (s.end - 1) b'0');
  }

  pub scale_tail-Shifts :
      (lo : ℕ) (dstop : ℤ) (k : ℕ) (s : Tail) → Shifts s (scale_tail mb lo dstop false k s).1
  unfolding scale_tail is_full
  scale_tail-Shifts lo dstop zero s = record { place = omega arith; end = omega arith; held = refl }
  scale_tail-Shifts lo dstop (suc k) s = elim (Bool-cases (is_full lo dstop s.end s.dec)) [
    | inl t ↦ rw (scale_tail, t) (record { place = omega arith; end = omega arith; held = refl })
    | inr t ↦
        let room : 0 < s.end = ground arith in
        let next = tail_step mb false (ltb 4 (suc k)) s in
        rw (scale_tail, t)
          (Shifts-trans s next _ (tail_step-Shifts (ltb 4 (suc k)) s room)
            (scale_tail-Shifts lo dstop k next))
  ]

  -- The rounds by what they do.
  abbrev halved : Tail → Tail
  halved s = record s { man = s.man / 2; carry = s.man % 2 }

  tail_step-halved :
      (lead early : Bool) (s : Tail)
      → (ltb ((2 ^ mb - 4) / 5) s.man || not (s.digit == 0)) ≡ true
      → tail_step mb lead early s ≡ halved s
  unfolding tail_step
  tail_step-halved lead early s h = rw h refl

  abbrev fallen : Tail → Tail
  fallen s = record s { man = 5 * s.man + 3 * s.carry; carry = 0; dec = s.dec -ℤ pos 1 }

  tail_step-fallen :
      (s : Tail)
      → ltb ((2 ^ mb - 4) / 5) s.man ≡ false
      → s.digit ≡ 0
      → s.carry ≤ 1
      → tail_step mb true true s ≡ fallen s
  unfolding tail_step
  tail_step-fallen s h z c = rw (h, z, fivefold s.man s.carry h c) refl

  -- With a digit found, only the mantissa changes.
  scale_tail-digit :
      (lo : ℕ) (dstop : ℤ) (lead : Bool) (k : ℕ) (s : Tail)
      → (s.digit == 0) ≡ false
      → (scale_tail mb lo dstop lead k s).1.dec ≡ s.dec
  unfolding scale_tail
  scale_tail-digit lo dstop lead zero s h = refl
  scale_tail-digit lo dstop lead (suc k) s h = elim (Bool-cases (is_full lo dstop s.end s.dec)) [
    | inl t ↦ rw (scale_tail, t) refl
    | inr t ↦
        let e = tail_step-halved lead (ltb 4 (suc k)) s (ground arith) in
        rw (scale_tail, t, e) (scale_tail-digit lo dstop lead k (halved s) h)
  ]

  tail_step-lead :
      (early : Bool) (s : Tail)
      → ((tail_step mb true early s).end ≡ s.end)
        × ((tail_step mb true early s).buf ≡ s.buf)
        × (pos_part (tail_step mb true early s).dec + neg_part s.dec
            ≤ neg_part (tail_step mb true early s).dec + pos_part s.dec)
  unfolding tail_step
  tail_step-lead early s = (ground arith, ground arith, ground (arith, -ℤ_parts s.dec (pos 1)))

  -- Where no digit precedes the fraction, `end` and the buffer stay, and `dec` does not rise.
  pub scale_tail-lead :
      (lo : ℕ) (dstop : ℤ) (k : ℕ) (s : Tail)
      → ((scale_tail mb lo dstop true k s).1.end ≡ s.end)
        × ((scale_tail mb lo dstop true k s).1.buf ≡ s.buf)
        × (pos_part (scale_tail mb lo dstop true k s).1.dec + neg_part s.dec
            ≤ neg_part (scale_tail mb lo dstop true k s).1.dec + pos_part s.dec)
  unfolding scale_tail
  scale_tail-lead lo dstop zero s = (refl, refl, omega arith)
  scale_tail-lead lo dstop (suc k) s = elim (Bool-cases (is_full lo dstop s.end s.dec)) [
    | inl t ↦ rw (scale_tail, t) (refl, refl, omega arith)
    | inr t ↦
        let next = tail_step mb true (ltb 4 (suc k)) s in
        let (a, b, c) = scale_tail-lead lo dstop k next in
        let (a', b', c') = tail_step-lead (ltb 4 (suc k)) s in
        rw (scale_tail, t) (a ∙ a', b ∙ b', omega (arith, c, c'))
  ]

  -- `dec` falls from `s` to `s'` by at most half of `n`.
  abbrev Falls : ℕ → Tail → Tail → Type 0
  Falls n s s' = 2 * (neg_part s'.dec + pos_part s.dec) ≤ 2 * (neg_part s.dec + pos_part s'.dec) + n

  -- In how many rounds a mantissa is past the bound on those that are multiplied.
  abbrev Level : ℕ → ℕ → ℕ → Type 0
  Level zero man carry = (2 ^ mb - 4) / 5 < man
  Level (suc j) man carry = (2 ^ mb - 4) / 5 < grow j (5 * man + 3 * carry)

  Level-step :
      (j man carry : ℕ)
      → ltb ((2 ^ mb - 4) / 5) man ≡ false
      → Level j man carry
      → (i : ℕ) × (j ≡ suc i) × Level i (5 * man + 3 * carry) 0
  Level-step zero man carry h l = absurd (ground arith)
  Level-step (suc zero) man carry h l = (0, refl, l)
  Level-step (suc (suc j)) man carry h l =
      let v = 5 * man + 3 * carry in
      (suc j, refl, omega (arith, l, grow_mono j (5 * v) (5 * v + 3 * 0) (omega arith)))

  Level-halved : (man : ℕ) → ltb ((2 ^ mb - 4) / 5) man ≡ true → Level 1 (man / 2) (man % 2)
  Level-halved man h = ground (arith, large)

  -- From a level on `dec` falls so many times, and once in two rounds.
  abbrev cost : ℕ → ℕ
  cost zero = 0
  cost (suc j) = 2 * j + 1

  cost-suc : (i : ℕ) → cost i + 1 ≤ cost (suc i)
  cost-suc zero = omega arith
  cost-suc (suc i) = omega arith

  pub scale_tail-Falls :
      (lo : ℕ) (dstop : ℤ) (k j : ℕ) (s : Tail)
      → IsTail mb s
      → Level j s.man s.carry
      → Falls (k + cost j) s (scale_tail mb lo dstop true k s).1
  unfolding scale_tail tail_step
  scale_tail-Falls lo dstop zero j s i l = omega arith
  scale_tail-Falls lo dstop (suc k) j s i l =
      let step : IsTail mb (tail_step mb true (ltb 4 (suc k)) s) =
        tail_step-IsTail true (ltb 4 (suc k)) s i in
      elim (Bool-cases (is_full lo dstop s.end s.dec)) [
        | inl t ↦ rw (scale_tail, t) (omega arith)
        | inr t ↦ elim (Bool-cases (s.digit == 0)) [
          | inr d ↦
              let e = tail_step-halved true (ltb 4 (suc k)) s (ground arith) in
              rw (scale_tail, t, e, scale_tail-digit lo dstop true k (halved s) d) (omega arith)
          | inl d ↦ elim (Bool-cases (ltb ((2 ^ mb - 4) / 5) s.man)) [
            | inl b ↦
                let e = tail_step-halved true (ltb 4 (suc k)) s (ground arith) in
                let rest =
                  scale_tail-Falls lo dstop k 1 (halved s) (subst (IsTail mb) e step)
                    (Level-halved s.man b) in
                rw (scale_tail, t, e) (omega (arith, rest))
            | inr b ↦ elim (Bool-cases (ltb 4 (suc k))) [
              | inl y ↦
                  let zero_digit : s.digit ≡ 0 = ground arith in
                  let e : tail_step mb true (ltb 4 (suc k)) s ≡ fallen s =
                    rw y (tail_step-fallen s b zero_digit i.carry) in
                  let (n, q, l') = Level-step j s.man s.carry b l in
                  let rest =
                    scale_tail-Falls lo dstop k n (fallen s) (subst (IsTail mb) e step) l' in
                  rw (scale_tail, t, e, q) (omega (arith, rest, cost-suc n, -ℤ_parts s.dec (pos 1)))
              | inr y ↦
                  let first : Tail = record s {
                    man = 5 * s.man + 3 * s.carry;
                    carry = 0;
                    digit = s.digit + 1;
                  } in
                  let e : tail_step mb true (ltb 4 (suc k)) s ≡ first =
                    rw (d, b, y, fivefold s.man s.carry b i.carry) refl in
                  rw (scale_tail, t, e, scale_tail-digit lo dstop true k first (ground arith))
                    (omega arith)
            ]
          ]
        ]
      ]

  -- What is not zero is past the bound in 28 rounds.
  pub Level-start :
      (man carry : ℕ) → mb ≤ 64 → (man == 0 && carry == 0) ≡ false → Level 29 man carry
  Level-start man carry h z =
      let v = 5 * man + 3 * carry in
      let least : 3 ≤ v = ground arith in
      let top : 2 ^ mb ≤ 2 ^ 64 = pow-le-pow_right {n = 2} (omega arith) {i = mb} {j = 64} h in
      let above : grow 28 3 ≤ grow 28 v = grow_mono 28 3 v least in omega (arith, top, above)
