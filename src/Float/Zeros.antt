-- ===== src/Float/Zeros.antt =====
-- The fraction of a number that has none: its conversion puts zeros.
use native.Mathlib.Nat.{zero-div, zero-mod}
use nanoprintf.Base.{
  ℕ, zero, suc, ◌+◌, ◌-◌, ◌/◌, ◌%◌, ◌^◌, ◌≤◌, ◌<◌, ◌≡◌, refl, sym, ap, ◌∙◌, false, [], ◌∷◌, ◌++◌,
  ltb, ◌==◌, set, drop, replicate, length, length-set, Bool-cases, inl, inr, arith,
}
use nanoprintf.Base.Bytes.{Bytes}
use nanoprintf.Float.Fixed.{Fraction, scale_frac, print_frac}

-- The first `n` bytes of a buffer as '0'.
abbrev pub zeroed : ℕ → Bytes → Bytes
zeroed n buf = replicate n b'0' ++ drop n buf

drop-set_at : (n c : ℕ) (buf : Bytes) → n < length buf → drop n (set buf n c) ≡ c ∷ drop (suc n) buf
drop-set_at n c [] h = absurd (omega arith)
drop-set_at zero c (x ∷ xs) h = refl
drop-set_at (suc n) c (x ∷ xs) h = drop-set_at n c xs (omega (arith, h))

replicate_snoc : (n c : ℕ) (rest : Bytes) → replicate n c ++ c ∷ rest ≡ replicate (suc n) c ++ rest
replicate_snoc zero c rest = refl
replicate_snoc (suc n) c rest = ap (λ l. c ∷ l) (replicate_snoc n c rest)

zeroed-set : (n : ℕ) (buf : Bytes) → n < length buf → zeroed n (set buf n b'0') ≡ zeroed (suc n) buf
zeroed-set n buf h = rw (drop-set_at n b'0' buf h) (replicate_snoc n b'0' (drop (suc n) buf))

pub print_frac_zero :
    (mb n : ℕ) (buf : Bytes) → n ≤ length buf → print_frac mb n 0 buf ≡ (0, zeroed n buf)
unfolding print_frac
print_frac_zero mb zero buf h = refl
print_frac_zero mb (suc n) buf h =
    let k : 0 / 2 ^ (mb - 4) ≡ 0 = zero-div (2 ^ (mb - 4)) in
    let m : 0 % 2 ^ (mb - 4) ≡ 0 = zero-mod (2 ^ (mb - 4)) in
    let w : 0 % 2 ^ mb ≡ 0 = zero-mod (2 ^ mb) in
    let next = set buf n b'0' in
    let rest = print_frac_zero mb n next (omega (arith, h, length-set buf n b'0')) in
    rw (k, m, w, rest, zeroed-set n buf (omega (arith, h)))
      (elim (Bool-cases (n == 0)) [
        | inr e ↦ rw e refl
        | inl e ↦
            let z : n ≡ 0 = ground arith in
            rw e (rw z (ap (λ l. (0, l)) (zeroed-set 0 buf (omega (arith, h)))))
      ])

-- A state of the scaling that prints '0' in each of `n` places.
abbrev pub Vanishes : ℕ → ℕ → Bytes → Fraction → Type 0
Vanishes mb n buf fr =
    (fr.man ≡ 0) × (fr.carry ≡ 0) × (print_frac mb fr.dec_f 0 fr.buf ≡ (0, zeroed n buf))

-- The fraction 0 stays 0 through the scaling.
pub scale_frac-Vanishes :
    (mb k digit dec_f : ℕ) (buf : Bytes)
    → dec_f ≤ length buf
    → Vanishes mb dec_f buf (scale_frac mb k 0 0 digit dec_f buf)
unfolding scale_frac
scale_frac-Vanishes mb zero digit dec_f buf h = (refl, refl, print_frac_zero mb dec_f buf h)
scale_frac-Vanishes mb (suc k) digit dec_f buf h =
    let z : 0 % 2 ^ mb ≡ 0 = zero-mod (2 ^ mb) in
    let small : ltb ((2 ^ mb - 4) / 5) 0 ≡ false = ground arith in
    elim (Bool-cases (dec_f == 0)) [
      | inl e ↦ rw e (refl, refl, print_frac_zero mb dec_f buf h)
      | inr e ↦ elim (Bool-cases (digit == 0)) [
        | inr d ↦ rw (e, d, small) (scale_frac-Vanishes mb k digit dec_f buf h)
        | inl d ↦ elim (Bool-cases (ltb 4 (suc k))) [
          | inr l ↦ rw (e, d, small, l, z) (scale_frac-Vanishes mb k (digit + 1) dec_f buf h)
          | inl l ↦
              let n = dec_f - 1 in
              let next = set buf n b'0' in
              let pos : dec_f ≡ suc n = ground arith in
              let (a, b, c) =
                scale_frac-Vanishes mb k digit n next (ground (arith, length-set buf n b'0')) in
              let same : zeroed n next ≡ zeroed dec_f buf =
                zeroed-set n buf (omega (arith, h, pos)) ∙ ap (λ m. zeroed m buf) (sym pos) in
              rw (e, d, small, l, z) (a, b, c ∙ ap (λ x. (0, x)) same)
        ]
      ]
    ]
