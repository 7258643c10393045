-- ===== src/Front/Map.antt =====
-- The preprocessor machinery of NPF_MAP_ARGS applies a macro to each of up to 64 arguments.
use nanoprintf.Base.{
  ℕ, zero, suc, ◌-◌, ◌≤◌, ◌<◌, ◌≡◌, refl, ap, ◌∙◌, ◌⊎◌, inl, inr, none, some, List, [], ◌∷◌, ◌++◌,
  map, get_elem?, length, arith, eq_of_some, leb, leb→le, Bool-cases,
}
use nanoprintf.Front.{rseq, token_number, narg, map_n, macro_map}

rseq_get : (n k : ℕ) → k ≤ n → get_elem? (rseq n) k ≡ some (n - k)
unfolding rseq
rseq_get zero zero h = refl
rseq_get zero (suc k) h = absurd (omega arith)
rseq_get (suc n) zero h = ap some (omega arith)
rseq_get (suc n) (suc k) h = rseq_get n k (omega (arith, h)) ∙ ap some (omega arith)

module _ {ℓ} {A : Type ℓ} where
  get_elem?-append :
      (xs ys : List A) (k : ℕ)
      → length xs ≤ k
      → get_elem? (xs ++ ys) k ≡ get_elem? ys (k - length xs)
  get_elem?-append [] ys k h = ap (get_elem? ys) (omega arith)
  get_elem?-append (x ∷ xs) ys zero h = absurd (omega (arith, h))
  get_elem?-append (x ∷ xs) ys (suc k) h =
      get_elem?-append xs ys k (omega (arith, h)) ∙ ap (get_elem? ys) (omega arith)

  get_elem?-some :
      (xs ys : List A) (k : ℕ) → k < length xs → (a : A) × (get_elem? (xs ++ ys) k ≡ some a)
  get_elem?-some [] ys k h = absurd (omega (arith, h))
  get_elem?-some (x ∷ xs) ys zero h = (x, refl)
  get_elem?-some (x ∷ xs) ys (suc k) h = get_elem?-some xs ys k (omega (arith, h))

module _ {ℓ κ} {A : Type ℓ} {B : Type κ} (f : A → B) where
  length-map : (xs : List A) → length (map f xs) ≡ length xs
  length-map [] = refl
  length-map (x ∷ xs) = ap suc (length-map xs)

  get_elem?-map :
      (xs : List A) (k : ℕ) {a : A} → get_elem? xs k ≡ some a → get_elem? (map f xs) k ≡ some (f a)
  get_elem?-map [] k h = cc
  get_elem?-map (x ∷ xs) zero h = ap (λ y. some (f y)) (eq_of_some h)
  get_elem?-map (x ∷ xs) (suc k) h = get_elem?-map xs k h

  -- The token that is taken from arguments that are too many is one of them.
  get_elem?-mapped :
      (xs : List A) (ys : List B) (k : ℕ)
      → k < length xs
      → (a : A) × (get_elem? (map f xs ++ ys) k ≡ some (f a))
  get_elem?-mapped [] ys k h = absurd (omega (arith, h))
  get_elem?-mapped (x ∷ xs) ys zero h = (x, refl)
  get_elem?-mapped (x ∷ xs) ys (suc k) h = get_elem?-mapped xs ys k (omega (arith, h))

  map_n_lem :
      (n : ℕ) (x : A) (xs : List A)
      → n ≡ length xs
      → map_n f (suc n) (x ∷ xs) ≡ some (map f (x ∷ xs))
  unfolding map_n
  map_n_lem zero x [] h = refl
  map_n_lem zero x (y ∷ xs) h = absurd (omega (arith, h))
  map_n_lem (suc n) x [] h = absurd (omega (arith, h))
  map_n_lem (suc n) x (y ∷ xs) h = let e = map_n_lem n y xs (omega (arith, h)) in rw (map_n, e) refl

module _ {ℓ} {A : Type ℓ} where
  narg_few : (xs : List A) → length xs ≤ 64 → narg xs ≡ some (length xs)
  unfolding narg token_number
  narg_few xs h =
      let tokens : List (A ⊎ ℕ) = map (λ x. inl x) xs in
      let numbers : List (A ⊎ ℕ) = map (λ n. inr n) (rseq 64) in
      let l : length tokens ≡ length xs = length-map (λ x. inl x) xs in
      let a = get_elem?-append tokens numbers 64 (omega (arith, l, h)) in
      let r = rseq_get 64 (64 - length xs) (omega arith) in
      let b : get_elem? numbers (64 - length tokens) ≡ some (inr (length xs)) =
        ap (get_elem? numbers) (omega (arith, l))
        ∙ (get_elem?-map (λ n. inr n) (rseq 64) (64 - length xs) r
            ∙ ap (λ n. some (inr n)) (omega (arith, h))) in
      ap token_number (a ∙ b)

  narg_many : (xs : List A) → 64 < length xs → narg xs ≡ none
  unfolding narg token_number
  narg_many xs h =
      let (x, e) = get_elem?-mapped {B = A ⊎ ℕ} (λ x. inl x) xs (map (λ n. inr n) (rseq 64)) 64 h in
      ap token_number e

-- NPF__MAP applies its macro to each argument, in their order, if there are at most 64, and with more
-- there is no macro that it names.
pub macro_map_lem {ℓ κ} :
    {A : Type ℓ} {B : Type κ} (f : A → B) (x : A) (xs : List A)
    → ((length xs < 64) × (macro_map f (x ∷ xs) ≡ some (map f (x ∷ xs))))
      ⊎ ((64 ≤ length xs) × (macro_map f (x ∷ xs) ≡ none))
unfolding macro_map
macro_map_lem f x xs = elim (Bool-cases (leb 64 (length xs))) [
  | inl t ↦
      let h = leb→le 64 (length xs) t in inr (h, rw (narg_many (x ∷ xs) (omega (arith, h))) refl)
  | inr t ↦
      let h : length xs < 64 = ground arith in
      inl (h, rw (narg_few (x ∷ xs) (omega (arith, h))) (map_n_lem f (length xs) x xs refl))
]
