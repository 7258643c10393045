-- ===== src/Float/Sci/Layout.antt =====
-- The pieces that the 'e' layout of `npf_etoa_rev` writes from the start of the buffer on.
use mathlib.Core.List.{append_assoc, append-nil}
use nanoprintf.Base.{
  ℕ, zero, suc, ◌+◌, ◌-◌, ◌≤◌, ◌<◌, ◌≡◌, refl, ap, sym, ◌∙◌, true, false, [], ◌∷◌, ◌++◌, ltb,
  if◌then◌else◌, Bool-cases, inl, inr, arith, length, set, get_or, take, drop, replicate,
  length-append,
}
use nanoprintf.Base.Bytes.{Bytes}
use nanoprintf.Base.Written.{written, drop_cons, set-written, get_or-written}
use nanoprintf.Base.Ints.{ℤ, pos, pos_part, neg_part, ltb_ℤ}
use nanoprintf.Config.{Config}
use nanoprintf.Spec.{FormatSpec}
use nanoprintf.Utoa.{utoa_rev}
use nanoprintf.Float.Fixed.{write}
use nanoprintf.Float.Sci.Compose.{has_point, copy_frac, put_exponent}

pub length_snoc : (out : Bytes) (c : ℕ) → length (out ++ c ∷ []) ≡ length out + 1
length_snoc out c = length-append out (c ∷ [])

-- One byte behind what is written.
pub set_next :
    (out mem buf : Bytes) (o v : ℕ)
    → buf ≡ written out mem
    → o ≡ length out
    → o < length mem
    → set buf o v ≡ written (out ++ v ∷ []) mem
set_next out mem buf o v e e' h = rw (e, e') (set-written out mem v (omega (arith, h, e')))

two_next :
    (out mem buf : Bytes) (o v w : ℕ)
    → buf ≡ written out mem
    → o ≡ length out
    → o + 1 < length mem
    → set (set buf o v) (o + 1) w ≡ written (out ++ v ∷ w ∷ []) mem
two_next out mem buf o v w e e' h =
    set_next (out ++ v ∷ []) mem (set buf o v) (o + 1) w
      (set_next out mem buf o v e e' (omega (arith, h))) (omega (arith, e', length_snoc out v)) h
    ∙ ap (λ l. written l mem) (append_assoc out (v ∷ []) (w ∷ []))

pub write-written :
    (cs out mem : Bytes)
    → length out + length cs ≤ length mem
    → write (written out mem) (length out) cs ≡ written (out ++ cs) mem
unfolding write
write-written [] out mem h = rw (append-nil out) refl
write-written (c ∷ cs) out mem h =
    let e = length_snoc out c in
    let rest = write-written cs (out ++ c ∷ []) mem (omega (arith, h, e)) in
    rw (set-written out mem c (omega (arith, h)), sym e)
      (rest ∙ ap (λ t. written t mem) (append_assoc out (c ∷ []) cs))

module _ (nsig pe : ℕ) (mem : Bytes) where
  -- The digits behind the point: zeros, then the digits from the lowest on.
  abbrev pub frac_text : ℕ → ℕ → Bytes
  frac_text zero i = []
  frac_text (suc left) i =
      (if ltb i (pe - (nsig - 1))
        then b'0'
        else get_or mem (length mem - nsig + (i - (pe - (nsig - 1)))) 0)
      ∷ frac_text left (i + 1)

  pub copy_frac-written :
      (left i : ℕ) (out : Bytes)
      → nsig ≤ length mem
      → length out + left ≤ length mem
      → length out + (pe - (nsig - 1)) + nsig ≤ length mem + i
      → copy_frac (length mem) nsig pe left i (length out) (written out mem)
        ≡ written (out ++ frac_text left i) mem
  unfolding copy_frac
  copy_frac-written zero i out n h k = rw (append-nil out) refl
  copy_frac-written (suc left) i out n h k =
      let pad = pe - (nsig - 1) in
      let j = length mem - nsig + (i - pad) in
      let c = if ltb i pad then b'0' else get_or mem j 0 in
      let e = length_snoc out c in
      let same : (if ltb i pad then b'0' else get_or (written out mem) j 0) ≡ c =
        elim (Bool-cases (ltb i pad)) [
          | inl t ↦ rw t refl
          | inr t ↦ rw t (get_or-written out mem j 0 (ground arith))
        ] in
      let rest =
        copy_frac-written left (i + 1) (out ++ c ∷ []) n (omega (arith, h, e))
          (omega (arith, k, e)) in
      rw (copy_frac, same, set-written out mem c (omega (arith, h)), sym e)
        (rest ∙ ap (λ t. written t mem) (append_assoc out (c ∷ []) (frac_text left (i + 1))))

  pub length-frac_text : (left i : ℕ) → length (frac_text left i) ≡ left
  length-frac_text zero i = refl
  length-frac_text (suc left) i = ap suc (length-frac_text left (i + 1))

  -- The zeros, and the digits below the highest.
  frac_zeros :
      (n m i k left : ℕ)
      → m ≡ n + left
      → k ≡ i + n
      → k ≤ pe - (nsig - 1)
      → frac_text m i ≡ replicate n b'0' ++ frac_text left k
  frac_zeros zero m i k left e e' h =
      let a : m ≡ left = omega (arith, e) in let b : k ≡ i = omega (arith, e') in rw (a, b) refl
  frac_zeros (suc n) zero i k left e e' h = absurd (omega (arith, e))
  frac_zeros (suc n) (suc m) i k left e e' h =
      let t : ltb i (pe - (nsig - 1)) ≡ true = ground (arith, e', h) in
      rw t (
        ap (λ l. b'0' ∷ l) (frac_zeros n m (i + 1) k left (omega (arith, e)) (omega (arith, e')) h))

  frac_digits :
      (left i : ℕ)
      → pe - (nsig - 1) ≤ i
      → length mem - nsig + (i - (pe - (nsig - 1))) + left ≤ length mem
      → frac_text left i ≡ take left (drop (length mem - nsig + (i - (pe - (nsig - 1)))) mem)
  frac_digits zero i h k = refl
  frac_digits (suc left) i h k =
      let pad = pe - (nsig - 1) in
      let j = length mem - nsig + (i - pad) in
      let t : ltb i pad ≡ false = ground arith in
      let next : length mem - nsig + (i + 1 - pad) ≡ suc j = omega (arith, h) in
      rw (t, drop_cons j mem 0 (omega (arith, k)), sym next)
        (ap (λ l. get_or mem j 0 ∷ l)
          (frac_digits left (i + 1) (omega (arith, h)) (omega (arith, k, next))))

-- The same as one list: `nsig` digits stand at the top of the buffer.
pub frac_text_lem :
    (nsig pe : ℕ) (mem : Bytes)
    → 0 < nsig
    → nsig ≤ pe + 1
    → nsig ≤ length mem
    → frac_text nsig pe mem pe 0
      ≡ replicate (pe + 1 - nsig) b'0' ++ take (nsig - 1) (drop (length mem - nsig) mem)
frac_text_lem nsig pe mem h k l =
    let pad = pe - (nsig - 1) in
    let e : pad ≡ pe + 1 - nsig = omega (arith, h, k) in
    let j : length mem - nsig + (pad - pad) ≡ length mem - nsig = omega arith in
    let z =
      frac_zeros nsig pe mem pad pe 0 pad (nsig - 1) (omega (arith, h, k)) (omega arith)
        (omega arith) in
    let d = frac_digits nsig pe mem (nsig - 1) pad (omega arith) (omega (arith, l)) in
    z ∙ rw (d, j, e) refl

module _ (cfg : Config) (fs : FormatSpec) where
  -- The exponent of 'e', reversed: at least two digits, the sign and the letter.
  abbrev pub exponent_text : ℤ → Bytes
  exponent_text x =
      let ds = utoa_rev cfg (pos_part x + neg_part x) 10 0 in
      ds
      ++ ((if ltb (length ds) 2 then b'0' ∷ [] else [])
          ++ ((if ltb_ℤ x (pos 0) then b'-' else b'+') ∷ (b'E' + fs.case_adjust) ∷ []))

  pub length-exponent_text :
      (x : ℤ)
      → length (utoa_rev cfg (pos_part x + neg_part x) 10 0) ≤ 3
      → length (exponent_text x) ≤ 5
  length-exponent_text x h =
      let ds = utoa_rev cfg (pos_part x + neg_part x) 10 0 in
      let sign : ℕ = if ltb_ℤ x (pos 0) then b'-' else b'+' in
      let letter = b'E' + fs.case_adjust in
      elim (Bool-cases (ltb (length ds) 2)) [
        | inl t ↦ rw t (ground (arith, length-append ds (b'0' ∷ sign ∷ letter ∷ [])))
        | inr t ↦ rw t (omega (arith, h, length-append ds (sign ∷ letter ∷ [])))
      ]

  pub put_exponent-written :
      (x : ℤ) (mem : Bytes)
      → length (utoa_rev cfg (pos_part x + neg_part x) 10 0) ≤ 3
      → 8 ≤ length mem
      → ((put_exponent cfg fs x mem).0 ≡ length (exponent_text x))
        × ((put_exponent cfg fs x mem).1 ≡ written (exponent_text x) mem)
  unfolding put_exponent
  put_exponent-written x mem h k =
      let ds = utoa_rev cfg (pos_part x + neg_part x) 10 0 in
      let sign : ℕ = if ltb_ℤ x (pos 0) then b'-' else b'+' in
      let letter = b'E' + fs.case_adjust in
      let w = write-written ds [] mem (omega (arith, h, k)) in
      let e = length-append ds (b'0' ∷ []) in
      elim (Bool-cases (ltb (length ds) 2)) [
        | inl t ↦
            let w2 =
              set_next ds mem (write mem 0 ds) (length ds) b'0' w refl (omega (arith, h, k)) in
            let w3 =
              two_next (ds ++ b'0' ∷ []) mem _ (length ds + 1) sign letter w2 (omega (arith, e))
                (omega (arith, h, k)) in
            rw t (
              omega (arith, length-append ds (b'0' ∷ sign ∷ letter ∷ [])),
              w3 ∙ ap (λ l. written l mem) (append_assoc ds (b'0' ∷ []) (sign ∷ letter ∷ [])),
            )
        | inr t ↦
            let w3 = two_next ds mem _ (length ds) sign letter w refl (omega (arith, h, k)) in
            rw t (omega (arith, length-append ds (sign ∷ letter ∷ [])), w3)
      ]

  abbrev pub point_text : ℕ → Bytes
  point_text prec = if has_point cfg fs prec then b'.' ∷ [] else []
