-- ===== src/Float/Exact.antt =====
-- Numbers without a fraction: `npf_ftoa_rev` prints them exactly.
use native.Mathlib.Nat.{zero-div, zero-mod, zero-mul}
use mathlib.Core.List.{append_assoc}
use mathlib.Core.Path.{subst}
use nanoprintf.Base.{
  ℕ, zero, suc, ◌+◌, ◌-◌, ◌%◌, ◌^◌, ◌≤◌, ◌<◌, ◌≡◌, refl, sym, ap, Bool, true, false, ◌&&◌, ◌||◌,
  some, [], ◌∷◌, ◌++◌, ltb, leb, ◌==◌, if◌then◌else◌, if_true, set, take, drop, replicate, length,
  length-append, length-replicate, Bool-cases, inl, inr, arith,
}
use nanoprintf.Base.Bytes.{Bytes}
use nanoprintf.Base.Written.{written, set-written}
use nanoprintf.Config.{Config}
use nanoprintf.Utoa.Numeral.{numeral, utoa_rev-numeral}
use nanoprintf.Float.{man_bits, bin_bits, shift_bits}
use nanoprintf.Float.Bounds.{pow-pos}
use nanoprintf.Float.Shift.{bin_shl}
use nanoprintf.Float.Sci.Layout.{write-written}
use nanoprintf.Float.Zeros.{zeroed, scale_frac-Vanishes, print_frac_zero}
use nanoprintf.Float.Fixed.{Scaling, write, print_int, scale_frac, frac_start, frac_part, finish}

module _ (cfg : Config) where
  -- The fraction starts at 0.
  pub frac_start_zero :
      (bin : ℕ) (neg : Bool) (e : ℕ)
      → bin_shl cfg bin
          (if neg then bin_bits cfg - man_bits cfg - 1 else bin_bits cfg - man_bits cfg + e)
        ≡ 0
      → frac_start cfg bin neg e ≡ (0, 0)
  unfolding frac_start
  frac_start_zero bin neg e h =
      let mb = cfg.conversion_float_bits in
      let bb = bin_bits cfg in
      let d = zero-div (2 ^ ((bb - mb) % bb)) in
      let d1 = zero-div (2 ^ ((bb - mb - 1) % bb)) in
      let z = zero-mod (2 ^ mb) in
      let t = zero-mul (2 ^ ((mb - bb) % mb)) in
      rw (h, d, d1, z, t, z)
        (elim (Bool-cases (ltb mb bb)) [ inl l ↦ rw l refl | inr l ↦ rw l refl ])

  frac_part_zero :
      (prec bin : ℕ) (neg : Bool) (e : ℕ) (buf : Bytes)
      → frac_start cfg bin neg e ≡ (0, 0)
      → prec ≤ length buf
      → frac_part cfg prec bin neg e buf ≡ (0, zeroed prec buf)
  unfolding frac_part
  frac_part_zero prec bin neg e buf h l =
      let mb = cfg.conversion_float_bits in
      let (a, b, c) = scale_frac-Vanishes mb (if neg then 3 + e else 4) 0 prec buf l in
      let fr = scale_frac mb (if neg then 3 + e else 4) 0 0 0 prec buf in
      let z = zero-mod (2 ^ mb) in
      let d = zero-div (2 ^ (mb - 1)) in
      let m : (if 0 == 2 ^ mb - 1 then 0 else (0 + 0) % 2 ^ mb) ≡ 0 = ground arith in
      let tie : (0 == 2 ^ (mb - 1)) ≡ false = ground (arith, pow-pos (mb - 1)) in
      rw (h, a, b, m, c, d, tie)
        (elim (Bool-cases (leb fr.rounds 4)) [ inl t ↦ rw t refl | inr t ↦ rw t refl ])

  pub finish_zero :
      (prec bin : ℕ) (neg : Bool) (e : ℕ) (s : Scaling) (end : ℕ) (buf : Bytes)
      → frac_start cfg bin neg e ≡ (0, 0)
      → s.carry ≡ 0
      → prec ≤ length buf
      → finish cfg prec bin neg e s end buf ≡ some (end, zeroed prec buf)
  unfolding finish
  finish_zero prec bin neg e s end buf h k l =
      let fraction = neg || (ltb e (man_bits cfg) && leb e (shift_bits cfg)) in
      elim (Bool-cases fraction) [
        | inl t ↦ rw (t, frac_part_zero prec bin neg e buf h l) refl
        | inr t ↦
            let g : (s.carry == 0) ≡ true = ground arith in
            rw (t, print_frac_zero cfg.conversion_float_bits prec buf l) (if_true _ _ g)
      ]

  pub print_int-numeral :
      (man end : ℕ) (buf : Bytes)
      → cfg.conversion_float_bits ≤ 32
      → man < 2 ^ 64
      → end + 10 ≤ cfg.conversion_buffer_size
      → let ds = numeral 10 0 64 man in
        print_int cfg man end buf ≡ some (end + length ds, write buf end ds)
  unfolding print_int
  print_int-numeral man end buf narrow small room =
      let n : leb cfg.conversion_float_bits 32 ≡ true = ground arith in
      let r : ltb (cfg.conversion_buffer_size - 10) end ≡ false = ground arith in
      rw (n, r, utoa_rev-numeral cfg man 10 0 (inr (inl refl)) small) refl

drop-append : (xs ys : Bytes) → drop (length xs) (xs ++ ys) ≡ ys
drop-append [] ys = refl
drop-append (x ∷ xs) ys = drop-append xs ys

-- A text behind `pre` bytes, once those are zeroed.
zeroed-written :
    (pre mid mem : Bytes)
    → zeroed (length pre) (written (pre ++ mid) mem)
      ≡ written (replicate (length pre) b'0' ++ mid) mem
zeroed-written pre mid mem =
    let zs = replicate (length pre) b'0' in
    let rest = drop (length (pre ++ mid)) mem in
    let l : length (zs ++ mid) ≡ length (pre ++ mid) = omega (
      arith,
      length-append zs mid,
      length-append pre mid,
      length-replicate {A = ℕ} (length pre) b'0',
    ) in
    rw (append_assoc pre mid rest, drop-append pre (mid ++ rest), l)
      (sym (append_assoc zs mid rest))

take_whole :
    (n : ℕ) (xs : Bytes) → n ≤ length xs → (length (take n xs) ≡ n) × (written (take n xs) xs ≡ xs)
take_whole zero xs h = (refl, refl)
take_whole (suc n) [] h = absurd (omega arith)
take_whole (suc n) (x ∷ xs) h =
    let (l, e) = take_whole n xs (omega (arith, h)) in (ap suc l, ap (λ ys. x ∷ ys) e)

-- The point, if there is one.
abbrev pub point_text : Bool → Bytes
point_text b = if b then b'.' ∷ [] else []

-- In a buffer `start`, a point at the index `n` and digits behind it, over zeros.
abbrev Placed : Bool → ℕ → Bytes → Bytes → Bytes → Type 0
Placed point n ds start mem =
    zeroed n (write (if point then set start n b'.' else start) (if point then n + 1 else n) ds)
    ≡ written (replicate n b'0' ++ (point_text point ++ ds)) mem

written-Placed :
    (point : Bool) (pre ds mem : Bytes)
    → length pre + 1 + length ds ≤ length mem
    → Placed point (length pre) ds (written pre mem) mem
written-Placed false pre ds mem h =
    rw (write-written ds pre mem (omega (arith, h))) (zeroed-written pre ds mem)
written-Placed true pre ds mem h =
    let all = length-append pre (b'.' ∷ []) in
    let dot = set-written pre mem b'.' (omega (arith, h)) in
    let next : length pre + 1 ≡ length (pre ++ b'.' ∷ []) = omega (arith, all) in
    let digits = write-written ds (pre ++ b'.' ∷ []) mem (omega (arith, h, all)) in
    rw (dot, next, digits, append_assoc pre (b'.' ∷ []) ds) (zeroed-written pre (b'.' ∷ ds) mem)

pub write-Placed :
    (point : Bool) (n : ℕ) (ds mem : Bytes)
    → n + 1 + length ds ≤ length mem
    → Placed point n ds mem mem
write-Placed point n ds mem h =
    let pre = take n mem in
    let (l, e) = take_whole n mem (omega (arith, h)) in
    subst (λ start. Placed point n ds start mem) e
      (subst (λ k. Placed point k ds (written pre mem) mem) l
        (written-Placed point pre ds mem (omega (arith, h, l))))
