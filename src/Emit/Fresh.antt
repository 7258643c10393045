-- ===== src/Emit/Fresh.antt =====
-- The output half does not read what the parser has not stored.
use nanoprintf.Base.{ℕ, ◌≡◌, refl, ap, [], ◌==◌, if◌then◌else◌, Bool-cases, inl, inr, arith}
use nanoprintf.Config.{Config}
use nanoprintf.Convert.{Piece, cbuf_len}
use nanoprintf.Convert.Alike.{SamePiece}
use nanoprintf.Emit.{pad_char, prec_zeros, bare_len, field_blanks, spec_len, emit}
use nanoprintf.Emit.Standard.{if_equal, no_blanks}
use nanoprintf.Emit.Layout.{
  layout, blanks, zeros, zero_filled, sign_text, prefix_text, payload_text, emit-layout,
}

module _ (cfg : Config) (p q : Piece) (h : SamePiece cfg p q) where
  zero_filled-Same : zero_filled cfg p ≡ zero_filled cfg q
  unfolding zero_filled pad_char
  zero_filled-Same = ground arith

  prec_zeros-Same : prec_zeros cfg p ≡ prec_zeros cfg q
  unfolding prec_zeros
  prec_zeros-Same = let l = ap cbuf_len h.payload in ground (arith, l)

  bare_len-Same : bare_len cfg p ≡ bare_len cfg q
  unfolding bare_len
  bare_len-Same = let l = ap cbuf_len h.payload in ground (arith, l, prec_zeros-Same)

  field_blanks-Same : field_blanks cfg p ≡ field_blanks cfg q
  unfolding field_blanks
  field_blanks-Same = ground (arith, bare_len-Same)

  pub spec_len-Same : spec_len cfg p ≡ spec_len cfg q
  unfolding spec_len
  spec_len-Same = omega (arith, bare_len-Same, field_blanks-Same)

  blanks-Same : blanks cfg p ≡ blanks cfg q
  unfolding blanks
  blanks-Same = rw (zero_filled-Same, field_blanks-Same) refl

  zeros-Same : zeros cfg p ≡ zeros cfg q
  unfolding zeros
  zeros-Same = rw (zero_filled-Same, field_blanks-Same, prec_zeros-Same) refl

  sign_text-Same : sign_text p ≡ sign_text q
  unfolding sign_text
  sign_text-Same = rw h.sign_c refl

  prefix_text-Same : prefix_text p ≡ prefix_text q
  unfolding prefix_text
  prefix_text-Same = rw h.need_0x refl

  left_text :
      (if p.fs.left_justified == 0 then blanks cfg p else [])
      ≡ (if q.fs.left_justified == 0 then blanks cfg q else [])
  left_text = elim (Bool-cases cfg.field_widths) [
    | inl f ↦ rw blanks-Same (ap (λ l. if l == 0 then blanks cfg q else []) (h.ready.left f))
    | inr f ↦ rw (no_blanks cfg p f, no_blanks cfg q f, if_equal, if_equal) refl
  ]

  right_text :
      (if p.fs.left_justified == 0 then [] else blanks cfg p)
      ≡ (if q.fs.left_justified == 0 then [] else blanks cfg q)
  right_text = elim (Bool-cases cfg.field_widths) [
    | inl f ↦ rw blanks-Same (ap (λ l. if l == 0 then [] else blanks cfg q) (h.ready.left f))
    | inr f ↦ rw (no_blanks cfg p f, no_blanks cfg q f, if_equal, if_equal) refl
  ]

  layout-Same : layout cfg p ≡ layout cfg q
  unfolding layout
  layout-Same =
      rw
        (
          left_text,
          right_text,
          sign_text-Same,
          prefix_text-Same,
          zeros-Same,
          ap payload_text h.payload,
        )
        refl

  -- Pieces that are alike are written as the same bytes.
  pub emit-Same {ℓ} : {S : Type ℓ} (pc : S → ℕ → S) (s : S) → emit pc cfg p s ≡ emit pc cfg q s
  emit-Same pc s = rw (emit-layout, emit-layout, layout-Same) refl
