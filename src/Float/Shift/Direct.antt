-- ===== src/Float/Shift/Direct.antt =====
-- The shifting loops against the shifts that they stand for, and the copied bytes of a float.
use native.Mathlib.Nat.{
  pow-suc, add-mul-mod_self_left, div-add-mod, div-div-eq-div-mul, mul_assoc, mul_comm,
  mod-eq_of_lt, mod-lt,
}
use nanoprintf.Base.{
  ℕ, zero, suc, ◌+◌, ◌*◌, ◌/◌, ◌%◌, ◌^◌, ◌<◌, ◌≡◌, refl, sym, ap, ◌∙◌, ltb, Bool-cases, inl, inr,
  arith,
}
use nanoprintf.Float.Bounds.{pow-pos}
use nanoprintf.Config.{Config}
use nanoprintf.Float.{bin_bits, sign_pos}
use nanoprintf.Float.Shift.{
  shr_loop, shl_loop, bin_shr, bin_shl, object_bytes, object_value, copy_bytes, real_to_int_rep,
  double_to_int_rep,
}

shr_loop_lem : (s v : ℕ) → shr_loop s v ≡ v / 2 ^ s
unfolding shr_loop
shr_loop_lem zero v = omega arith
shr_loop_lem (suc s) v =
    shr_loop_lem s (v / 2)
    ∙ (div-div-eq-div-mul v 2 (2 ^ s) ∙ rw (mul_comm 2 (2 ^ s), sym (pow-suc 2 s)) refl)

-- A factor may be reduced first.
mod_times : (w a b : ℕ) → a % 2 ^ w * b % 2 ^ w ≡ a * b % 2 ^ w
mod_times w a b =
    let n = 2 ^ w in
    let whole : a * b ≡ a % n * b + n * (a / n * b) = grind (arith, div-add-mod a n) in
    sym (rw whole (add-mul-mod_self_left (a % n * b) n (a / n * b)))

shl_loop_lem : (w s v : ℕ) → v < 2 ^ w → shl_loop w s v ≡ v * 2 ^ s % 2 ^ w
unfolding shl_loop
shl_loop_lem w zero v h = sym (mod-eq_of_lt (omega (arith, h))) ∙ ap (λ x. x % 2 ^ w) (omega arith)
shl_loop_lem w (suc s) v h =
    let e : v * 2 * 2 ^ s ≡ v * 2 ^ suc s =
      mul_assoc v 2 (2 ^ s) ∙ ap (λ x. v * x) (mul_comm 2 (2 ^ s) ∙ sym (pow-suc 2 s)) in
    shl_loop_lem w s (v * 2 % 2 ^ w) (mod-lt (v * 2) (pow-pos w))
    ∙ (mod_times w (v * 2) (2 ^ s) ∙ ap (λ x. x % 2 ^ w) e)

-- On a value that fits the type, the shifts of a build without division are those of the others.
pub bin_shift_lem :
    (cfg : Config) (v s : ℕ)
    → v < 2 ^ bin_bits cfg
    → (bin_shr cfg v s ≡ v / 2 ^ s) × (bin_shl cfg v s ≡ v * 2 ^ s % 2 ^ bin_bits cfg)
unfolding bin_shr bin_shl
bin_shift_lem cfg v s h = ground (arith, shr_loop_lem s v, shl_loop_lem (bin_bits cfg) s v)

object_float :
    (f : ℕ) → f < 2 ^ 32 → object_value (copy_bytes 0 (object_bytes 4 f) (object_bytes 4 0)) ≡ f
unfolding object_value copy_bytes object_bytes
object_float f h = omega (arith, h)

object_wide :
    (f : ℕ) → f < 2 ^ 32 → object_value (copy_bytes 0 (object_bytes 4 f) (object_bytes 8 0)) ≡ f
unfolding object_value copy_bytes object_bytes
object_wide f h = omega (arith, h)

object_double :
    (f : ℕ) → f < 2 ^ 64 → object_value (copy_bytes 0 (object_bytes 8 f) (object_bytes 8 0)) ≡ f
unfolding object_value copy_bytes object_bytes
object_double f h = omega (arith, h)

-- The number that the conversions take apart is the bit pattern of the float or the double.
pub real_to_int_rep_lem :
    (cfg : Config) (f : ℕ) → f < 2 ^ suc (sign_pos cfg) → real_to_int_rep cfg f ≡ f
unfolding real_to_int_rep bin_bits sign_pos
real_to_int_rep_lem cfg f h = elim (Bool-cases cfg.single_precision) [
  | inr t ↦ rw t (object_double f (ground arith))
  | inl t ↦ elim (Bool-cases (ltb cfg.int_fast32_max (2 ^ 31))) [
    | inl u ↦ rw (t, u) (object_float f (ground arith))
    | inr u ↦ rw (t, u) (object_wide f (ground arith))
  ]
]

pub double_to_int_rep_lem : (f : ℕ) → f < 2 ^ 64 → double_to_int_rep f ≡ f
unfolding double_to_int_rep
double_to_int_rep_lem f h = object_double f h
