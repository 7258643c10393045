-- ===== src/Base/Written.antt =====
-- A list of bytes that a text is written over from its start.
use Prim.Native.Nat.{ℕ, zero, suc, ◌+◌, ◌-◌, ◌≤◌, ◌<◌}
use mathlib.Core.Path.{◌≡◌, refl, ap, ◌∙◌, sym}
use mathlib.Core.List.{List, [], ◌∷◌, ◌++◌, append_assoc}
use native.Mathlib.Omega.{arith}
use nanoprintf.Base.Lists.{length, get_or, set, take, drop, set-append, length-append}

suc_add : (n j : ℕ) → suc (n + j) ≡ suc n + j
suc_add n j = omega arith

module _ {ℓ} {A : Type ℓ} where
  abbrev pub written : List A → List A → List A
  written out mem = out ++ drop (length out) mem

  pub length-drop : (n : ℕ) (xs : List A) → length (drop n xs) ≡ length xs - n
  length-drop zero xs = omega arith
  length-drop (suc n) [] = omega arith
  length-drop (suc n) (x ∷ xs) = omega (arith, length-drop n xs)

  pub drop_cons :
      (n : ℕ) (xs : List A) (d : A) → n < length xs → drop n xs ≡ get_or xs n d ∷ drop (suc n) xs
  drop_cons n [] d h = absurd (omega arith)
  drop_cons zero (x ∷ xs) d h = refl
  drop_cons (suc n) (x ∷ xs) d h = drop_cons n xs d (omega arith)

  pub set-written :
      (out mem : List A) (v : A)
      → length out < length mem
      → set (written out mem) (length out) v ≡ written (out ++ v ∷ []) mem
  set-written out mem v h =
      let n = length out in
      let e : length (out ++ v ∷ []) ≡ suc n = omega (arith, length-append out (v ∷ [])) in
      rw (drop_cons n mem v h, set-append, e, append_assoc) refl

  get_drop : (n j : ℕ) (xs : List A) (d : A) → get_or (drop n xs) j d ≡ get_or xs (n + j) d
  get_drop zero j xs d = ap (λ k. get_or xs k d) (omega arith)
  get_drop (suc n) j [] d = refl
  get_drop (suc n) j (x ∷ xs) d = get_drop n j xs d ∙ ap (λ k. get_or (x ∷ xs) k d) (suc_add n j)

  get_append :
      (xs ys : List A) (j : ℕ) (d : A) → get_or (xs ++ ys) (length xs + j) d ≡ get_or ys j d
  get_append [] ys j d = ap (λ k. get_or ys k d) (omega arith)
  get_append (x ∷ xs) ys j d =
      ap (λ k. get_or (x ∷ (xs ++ ys)) k d) (sym (suc_add (length xs) j)) ∙ get_append xs ys j d

  pub get_or-written :
      (out mem : List A) (j : ℕ) (d : A)
      → length out ≤ j
      → get_or (written out mem) j d ≡ get_or mem j d
  get_or-written out mem j d h =
      let e : j ≡ length out + (j - length out) = omega (arith, h) in
      rw e (
        get_append out (drop (length out) mem) (j - length out) d
        ∙ get_drop (length out) (j - length out) mem d)

  take-append : (xs ys : List A) → take (length xs) (xs ++ ys) ≡ xs
  take-append [] ys = refl
  take-append (x ∷ xs) ys = ap (λ l. x ∷ l) (take-append xs ys)

  pub take-written : (out mem : List A) → take (length out) (written out mem) ≡ out
  take-written out mem = take-append out (drop (length out) mem)

  pub set-set : (xs : List A) (i : ℕ) (v w : A) → set (set xs i v) i w ≡ set xs i w
  set-set [] i v w = refl
  set-set (x ∷ xs) zero v w = refl
  set-set (x ∷ xs) (suc i) v w = ap (λ l. x ∷ l) (set-set xs i v w)
