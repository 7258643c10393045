-- ===== src/Convert/Integer.antt =====
-- What the integer conversions make of their arguments.
use native.Mathlib.Nat.{mod-le}
use mathlib.Core.Path.{subst}
use nanoprintf.Base.{
  ℕ, ◌-◌, ◌%◌, ◌^◌, ◌≤◌, ◌<◌, ◌≡◌, ◌⊎◌, refl, ap, All, >>=-eq-some, eq_of_some, Bool, true, false,
  some, [], ◌∷◌, leb, ◌==◌, if◌then◌else◌, length, length-append, Bool-cases, inl, inr, arith,
}
use nanoprintf.Config.{Config}
use nanoprintf.Spec.{LengthModifier, ConvSpec, FormatSpec, index}
use nanoprintf.Args.{Arg, Args, arg_word32, arg_word64, arg_pointer}
use nanoprintf.Utoa.{utoa_rev}
use nanoprintf.Utoa.Numeral.{IsBase}
use nanoprintf.Utoa.Value.{length-utoa_rev, most_digits}
use nanoprintf.Convert.{
  Payload, reversed, Piece, narrow_bits, is_word64, sign_extend, take_signed, take_unsigned,
  base_of, int_piece, convert_signed, convert_unsigned,
}

narrow_bits-cases :
    (m : LengthModifier) → (narrow_bits m ≡ 8) ⊎ (narrow_bits m ≡ 16) ⊎ (narrow_bits m ≡ 32)
unfolding narrow_bits
narrow_bits-cases LengthModifier.short = inr (inl refl)
narrow_bits-cases LengthModifier.char = inl refl
narrow_bits-cases _ = inr (inr refl)

-- The sign and the magnitude of a pattern of `w` bits in two's complement.
abbrev pub is_negative : ℕ → ℕ → Bool
is_negative w v = leb (2 ^ (w - 1)) (v % 2 ^ w)

abbrev pub magnitude : ℕ → ℕ → ℕ
magnitude w v = if is_negative w v then 2 ^ w - v % 2 ^ w else v % 2 ^ w

sign_extend_sign :
    (w v : ℕ)
    → (w ≡ 8) ⊎ (w ≡ 16) ⊎ (w ≡ 32)
    → (leb (2 ^ 63) (sign_extend w v) ≡ is_negative w v)
      × ((if leb (2 ^ 63) (sign_extend w v)
            then (2 ^ 64 - sign_extend w v) % 2 ^ 64
            else sign_extend w v)
          ≡ magnitude w v)
unfolding sign_extend
sign_extend_sign w v (inl e) = rw e (ground arith, ground arith)
sign_extend_sign w v (inr (inl e)) = rw e (ground arith, ground arith)
sign_extend_sign w v (inr (inr e)) = rw e (ground arith, ground arith)

-- The text that is written backwards into `cbuf`.
abbrev pub buffered : Payload → ℕ
buffered (reversed cs) = length cs
buffered _ = 0

int_piece-buffered :
    (cfg : Config) (fs : FormatSpec) (val base sign_c : ℕ)
    → IsBase base
    → val < 2 ^ 64
    → buffered (int_piece cfg fs val base sign_c).payload ≤ 23
unfolding int_piece most_digits
int_piece-buffered cfg fs val base sign_c b h =
    let l = length-utoa_rev cfg val base fs.case_adjust b h in
    ground (arith, l, length-append (utoa_rev cfg val base fs.case_adjust) (b'0' ∷ []))

-- 'd' and 'i' print the value of the argument in two's complement, narrowed to the type of the length
-- modifier: its magnitude in base 10, which is right for the least value of the type too, and a '-'
-- exactly if it is negative.
pub convert_signed-magnitude :
    (cfg : Config) (fs : FormatSpec) (v : ℕ) (args : Args)
    → v < 2 ^ 64
    → let narrow = narrow_bits fs.length_modifier in
      (is_word64 fs.length_modifier ≡ false
        → convert_signed cfg fs (Arg.word32 v ∷ args)
          ≡ some (
            int_piece cfg fs
                (magnitude narrow v)
                10
                (if is_negative narrow v then b'-' else fs.prepend),
            args,
          ))
      × (is_word64 fs.length_modifier ≡ true
          → convert_signed cfg fs (Arg.word64 v ∷ args)
            ≡ some (
              int_piece cfg fs (magnitude 64 v) 10 (if is_negative 64 v then b'-' else fs.prepend),
              args,
            ))
unfolding convert_signed take_signed arg_word32 arg_word64
convert_signed-magnitude cfg fs v args h =
    let narrow = narrow_bits fs.length_modifier in
    let (s, m) = sign_extend_sign narrow v (narrow_bits-cases fs.length_modifier) in
    let m' : (if is_negative narrow v
          then (2 ^ 64 - sign_extend narrow v) % 2 ^ 64
          else sign_extend narrow v)
        ≡ magnitude narrow v =
      rw s at m in
    let n : leb (2 ^ 63) v ≡ is_negative 64 v = ground arith in
    let w : (if leb (2 ^ 63) v then (2 ^ 64 - v) % 2 ^ 64 else v) ≡ magnitude 64 v = ground arith in
    (λ e. rw e (rw (s, m') refl), λ e. rw e (rw (w, n) refl))

-- An argument of at most 64 bits.
abbrev pub IsWord : Arg → Type 0
IsWord (Arg.word32 v) = v < 2 ^ 32
IsWord (Arg.word64 v) = v < 2 ^ 64
IsWord (Arg.pointer p) = p < 2 ^ 64
IsWord _ = Unit

arg_word32_word :
    (args r : Args) (v : ℕ) → All IsWord args → arg_word32 args ≡ some (v, r) → v < 2 ^ 32
unfolding arg_word32
arg_word32_word [] r v a e = cc
arg_word32_word (Arg.word32 w ∷ args) r v (k, a) e =
    let q = ap (λ x. x.0) (eq_of_some e) in omega (arith, q, k)
arg_word32_word (_ ∷ args) r v a e = cc

arg_word64_word :
    (args r : Args) (v : ℕ) → All IsWord args → arg_word64 args ≡ some (v, r) → v < 2 ^ 64
unfolding arg_word64
arg_word64_word [] r v a e = cc
arg_word64_word (Arg.word64 w ∷ args) r v (k, a) e =
    let q = ap (λ x. x.0) (eq_of_some e) in omega (arith, q, k)
arg_word64_word (_ ∷ args) r v a e = cc

arg_pointer_word :
    (args r : Args) (v : ℕ) → All IsWord args → arg_pointer args ≡ some (v, r) → v < 2 ^ 64
unfolding arg_pointer
arg_pointer_word [] r v a e = cc
arg_pointer_word (Arg.pointer w ∷ args) r v (k, a) e =
    let q = ap (λ x. x.0) (eq_of_some e) in omega (arith, q, k)
arg_pointer_word (_ ∷ args) r v a e = cc

sign_extend_word : (w v : ℕ) → (w ≡ 8) ⊎ (w ≡ 16) ⊎ (w ≡ 32) → sign_extend w v < 2 ^ 64
unfolding sign_extend
sign_extend_word w v (inl e) = rw e (ground arith)
sign_extend_word w v (inr (inl e)) = rw e (ground arith)
sign_extend_word w v (inr (inr e)) = rw e (ground arith)

narrow_word : (v w : ℕ) → v < 2 ^ 32 → v % 2 ^ w < 2 ^ 64
narrow_word v w h = omega (arith, mod-le v (2 ^ w))

base_of-IsBase : (cs : ConvSpec) → IsBase (base_of cs)
unfolding base_of
base_of-IsBase ConvSpec.octal = inl refl
base_of-IsBase ConvSpec.hex_int = inr (inr refl)
base_of-IsBase _ = inr (inl refl)

module _ (cfg : Config) (fs : FormatSpec) (args : Args) (words : All IsWord args) where
  take_signed_word : (v : ℕ) (r : Args) → take_signed fs args ≡ some (v, r) → v < 2 ^ 64
  unfolding take_signed
  take_signed_word v r h = elim (Bool-cases (is_word64 fs.length_modifier)) [
    | inl e ↦ arg_word64_word args r v words (rw e at h)
    | inr e ↦
        let ((u, r'), k, l) = >>=-eq-some (arg_word32 args) _ (rw e at h) in
        subst (λ x. x.0 < 2 ^ 64) (eq_of_some l)
          (sign_extend_word (narrow_bits fs.length_modifier) u
            (narrow_bits-cases fs.length_modifier))
  ]

  take_unsigned_word : (v : ℕ) (r : Args) → take_unsigned fs args ≡ some (v, r) → v < 2 ^ 64
  unfolding take_unsigned
  take_unsigned_word v r h = elim (Bool-cases (is_word64 fs.length_modifier)) [
    | inl e ↦ arg_word64_word args r v words (rw e at h)
    | inr e ↦
        let ((u, r'), k, l) = >>=-eq-some (arg_word32 args) _ (rw e at h) in
        let small = arg_word32_word args r' u words k in
        subst (λ x. x.0 < 2 ^ 64) (eq_of_some l)
          (narrow_word u (narrow_bits fs.length_modifier) small)
  ]

  convert_signed-buffered :
      (p : Piece) (r : Args) → convert_signed cfg fs args ≡ some (p, r) → buffered p.payload ≤ 23
  unfolding convert_signed
  convert_signed-buffered p r h =
      let ((v, r'), k, l) = >>=-eq-some (take_signed fs args) _ h in
      let small = take_signed_word v r' k in
      subst (λ x. buffered x.0.payload ≤ 23) (eq_of_some l)
        (int_piece-buffered cfg fs (if leb (2 ^ 63) v then (2 ^ 64 - v) % 2 ^ 64 else v) 10
          (if leb (2 ^ 63) v then b'-' else fs.prepend) (inr (inl refl)) (ground arith))

  convert_unsigned-buffered :
      (p : Piece) (r : Args) → convert_unsigned cfg fs args ≡ some (p, r) → buffered p.payload ≤ 23
  unfolding convert_unsigned
  convert_unsigned-buffered p r h =
      elim (Bool-cases (index fs.conv_spec == index ConvSpec.pointer)) [
        | inl e ↦
            let ((v, r'), k, l) = >>=-eq-some (arg_pointer args) _ (rw e at h) in
            subst (λ x. buffered x.0.payload ≤ 23) (eq_of_some l)
              (int_piece-buffered cfg fs v 16 0 (inr (inr refl))
                (arg_pointer_word args r' v words k))
        | inr e ↦
            let ((v, r'), k, l) = >>=-eq-some (take_unsigned fs args) _ (rw e at h) in
            subst (λ x. buffered x.0.payload ≤ 23) (eq_of_some l)
              (int_piece-buffered cfg fs v (base_of fs.conv_spec) 0 (base_of-IsBase fs.conv_spec)
                (take_unsigned_word v r' k))
      ]

  -- From arguments of at most 64 bits, a conversion of an integer writes at most 23 bytes into `cbuf`, the least size that a build
  -- accepts, whatever the value, the base and the flags; binary digits are not put there.
  pub convert_integer-buffered :
      (p : Piece) (r : Args)
      → (convert_signed cfg fs args ≡ some (p, r)) ⊎ (convert_unsigned cfg fs args ≡ some (p, r))
      → buffered p.payload ≤ 23
  convert_integer-buffered p r (inl h) = convert_signed-buffered p r h
  convert_integer-buffered p r (inr h) = convert_unsigned-buffered p r h
