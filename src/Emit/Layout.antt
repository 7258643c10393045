-- ===== src/Emit/Layout.antt =====
-- What a directive writes, as text: blanks, sign, prefix, zeros, payload, blanks.
use mathlib.Core.List.{foldl-append, reverse-cons, append-nil}
use native.Mathlib.Nat.{zero-add}
use nanoprintf.Base.{
  ℕ, zero, suc, ◌+◌, ◌/◌, ◌%◌, ◌^◌, ◌≡◌, refl, Bool, true, false, ◌&&◌, [], ◌∷◌, ◌++◌, foldl,
  reverse, ◌==◌, if◌then◌else◌, replicate, Bool-cases, inl, inr, arith,
}
use nanoprintf.Base.Bytes.{Bytes}
use nanoprintf.Config.{Config}
use nanoprintf.Convert.{Payload, reversed, string, bits, Piece}
use nanoprintf.Emit.{
  pad_char, prec_zeros, field_blanks, put_times, put_string, put_reversed, put_bits, put_payload,
  put_sign, put_0x, emit,
}

-- The low `n` bits of a value in binary, the highest first.
unfoldable pub bit_text : ℕ → ℕ → Bytes
bit_text val zero = []
bit_text val (suc n) = (b'0' + val / 2 ^ n % 2) ∷ bit_text val n

unfoldable pub payload_text : Payload → Bytes
payload_text (reversed cs) = reverse cs
payload_text (string cs) = cs
payload_text (bits val n) = bit_text val n

unfoldable pub sign_text : Piece → Bytes
sign_text p = if p.sign_c == 0 then [] else p.sign_c ∷ []

unfoldable pub prefix_text : Piece → Bytes
prefix_text p = if p.need_0x == 0 then [] else b'0' ∷ p.need_0x ∷ []

-- Whether the field is filled with zeros.
unfoldable pub zero_filled : Config → Piece → Bool
zero_filled cfg p = cfg.field_widths && pad_char cfg p == b'0'

-- The blanks of the field, none where it is filled with zeros.
unfoldable pub blanks : Config → Piece → Bytes
blanks cfg p = replicate (if zero_filled cfg p then 0 else field_blanks cfg p) b' '

unfoldable pub zeros : Config → Piece → Bytes
zeros cfg p =
    replicate
      (if zero_filled cfg p then prec_zeros cfg p + field_blanks cfg p else prec_zeros cfg p) b'0'

-- The text of a directive, in the order of the C standard.
unfoldable pub layout : Config → Piece → Bytes
layout cfg p =
    (if p.fs.left_justified == 0 then blanks cfg p else [])
    ++ (sign_text p
        ++ (prefix_text p
            ++ (zeros cfg p
                ++ (payload_text p.payload
                    ++ (if p.fs.left_justified == 0 then [] else blanks cfg p)))))

no_prec_zeros : (cfg : Config) (p : Piece) → cfg.precisions ≡ false → prec_zeros cfg p ≡ 0
unfolding prec_zeros
no_prec_zeros cfg p h = rw h

pad_zero : (cfg : Config) (p : Piece) → zero_filled cfg p ≡ true → pad_char cfg p ≡ b'0'
unfolding zero_filled
pad_zero cfg p h = ground arith

zero_filled-widths : (cfg : Config) (p : Piece) → zero_filled cfg p ≡ true → cfg.field_widths ≡ true
unfolding zero_filled
zero_filled-widths cfg p h = ground arith

-- Zeros fill a field only to the left.
pub zero_filled-right :
    (cfg : Config) (p : Piece) → zero_filled cfg p ≡ true → (p.fs.left_justified == 0) ≡ true
unfolding zero_filled pad_char
zero_filled-right cfg p h = ground arith

&&-false : (b : Bool) → (b && false) ≡ false
&&-false true = refl
&&-false false = refl

-- Where zeros do not fill the field, its padding is blank.
blank_run :
    (cfg : Config) (p : Piece)
    → zero_filled cfg p ≡ false
    → replicate (field_blanks cfg p) (pad_char cfg p) ≡ replicate (field_blanks cfg p) b' '
unfolding zero_filled pad_char field_blanks
blank_run cfg p h = ground arith

module _ {ℓ} {S : Type ℓ} (pc : S → ℕ → S) where
  put_times-foldl : (n c : ℕ) (s : S) → put_times pc n c s ≡ foldl pc s (replicate n c)
  unfolding put_times
  put_times-foldl zero c s = refl
  put_times-foldl (suc n) c s = put_times-foldl n c (pc s c)

  put_string-foldl : (cs : Bytes) (s : S) → put_string pc cs s ≡ foldl pc s cs
  unfolding put_string
  put_string-foldl [] s = refl
  put_string-foldl (c ∷ cs) s = put_string-foldl cs (pc s c)

  put_reversed-foldl : (cs : Bytes) (s : S) → put_reversed pc cs s ≡ foldl pc s (reverse cs)
  unfolding put_reversed
  put_reversed-foldl [] s = refl
  put_reversed-foldl (c ∷ cs) s =
      rw (reverse-cons c cs, foldl-append pc s (reverse cs) (c ∷ []), put_reversed-foldl cs s) refl

  pub put_bits-foldl : (val n : ℕ) (s : S) → put_bits pc val n s ≡ foldl pc s (bit_text val n)
  unfolding put_bits bit_text
  put_bits-foldl val zero s = refl
  put_bits-foldl val (suc n) s = put_bits-foldl val n (pc s (b'0' + val / 2 ^ n % 2))

  put_payload-foldl : (p : Payload) (s : S) → put_payload pc p s ≡ foldl pc s (payload_text p)
  unfolding put_payload payload_text
  put_payload-foldl (reversed cs) s = put_reversed-foldl cs s
  put_payload-foldl (string cs) s = put_string-foldl cs s
  put_payload-foldl (bits val n) s = put_bits-foldl val n s

  put_sign-foldl : (p : Piece) (s : S) → put_sign pc p s ≡ foldl pc s (sign_text p)
  unfolding put_sign sign_text
  put_sign-foldl p s = elim (Bool-cases (p.sign_c == 0)) [ inl e ↦ rw e refl | inr e ↦ rw e refl ]

  put_0x-foldl : (p : Piece) (s : S) → put_0x pc p s ≡ foldl pc s (prefix_text p)
  unfolding put_0x prefix_text
  put_0x-foldl p s = elim (Bool-cases (p.need_0x == 0)) [ inl e ↦ rw e refl | inr e ↦ rw e refl ]

  module _ (cfg : Config) (p : Piece) (s : S) where
    emit_zero_folded :
        (p.fs.left_justified == 0) ≡ true
        → zero_filled cfg p ≡ true
        → cfg.precisions ≡ true
        → emit pc cfg p s ≡ foldl pc s (layout cfg p)
    unfolding emit layout zero_filled blanks zeros put_times
    emit_zero_folded l z q = simp (
      l, z, q, put_times-foldl, put_payload-foldl, put_sign-foldl, put_0x-foldl, foldl-append,
      append-nil,
    )

    emit_zero_early :
        (p.fs.left_justified == 0) ≡ true
        → zero_filled cfg p ≡ true
        → cfg.precisions ≡ false
        → emit pc cfg p s ≡ foldl pc s (layout cfg p)
    unfolding emit layout zero_filled blanks zeros put_times
    emit_zero_early l z q = simp (
      l,
      zero_filled-widths cfg p z,
      q,
      no_prec_zeros cfg p q,
      pad_zero cfg p z,
      zero-add,
      put_times-foldl,
      put_payload-foldl,
      put_sign-foldl,
      put_0x-foldl,
      foldl-append,
      append-nil,
    )

    emit_right :
        (p.fs.left_justified == 0) ≡ true
        → zero_filled cfg p ≡ false
        → emit pc cfg p s ≡ foldl pc s (layout cfg p)
    unfolding emit layout zero_filled blanks zeros
    emit_right l z = simp (
      l,
      z,
      blank_run cfg p z,
      put_times-foldl,
      put_payload-foldl,
      put_sign-foldl,
      put_0x-foldl,
      foldl-append,
      append-nil,
      &&-false,
    )

    emit_left :
        (p.fs.left_justified == 0) ≡ false
        → zero_filled cfg p ≡ false
        → emit pc cfg p s ≡ foldl pc s (layout cfg p)
    unfolding emit layout zero_filled blanks zeros
    emit_left l z = simp (
      l,
      z,
      blank_run cfg p z,
      put_times-foldl,
      put_payload-foldl,
      put_sign-foldl,
      put_0x-foldl,
      foldl-append,
      append-nil,
      &&-false,
    )

    -- The callback is given the bytes of the layout, in order, and nothing else.
    pub emit-layout : emit pc cfg p s ≡ foldl pc s (layout cfg p)
    emit-layout = elim (Bool-cases (zero_filled cfg p)) [
      | inl z ↦ elim (Bool-cases cfg.precisions) [
        | inl q ↦ emit_zero_folded (zero_filled-right cfg p z) z q
        | inr q ↦ emit_zero_early (zero_filled-right cfg p z) z q
      ]
      | inr z ↦ elim (Bool-cases (p.fs.left_justified == 0)) [
        | inl l ↦ emit_right l z
        | inr l ↦ emit_left l z
      ]
    ]
