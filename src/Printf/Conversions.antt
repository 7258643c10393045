-- ===== src/Printf/Conversions.antt =====
-- The conversions of npf_vpprintf, given arguments of the kinds that they ask for.
use nanoprintf.Base.{
  if◌then◌else◌, ◌∙◌, ℕ, ◌<◌, ◌≡◌, refl, true, false, ◌&&◌, leb, Option, some, List, [], ◌∷◌, ◌==◌,
  arith, Bool-cases, inl, inr,
}
use nanoprintf.Config.{Config}
use nanoprintf.Spec.{ConvSpec, FormatSpec, index}
use nanoprintf.Args.{Args}
use nanoprintf.Convert.{
  Piece, Store, is_word64, take_signed, take_unsigned, convert_signed, convert_unsigned,
  convert_string, convert_char, convert_writeback, convert_real, float_piece, convert,
}
use nanoprintf.Printf.Needs.{Kind, Takes, Takes-eq, integer_needs, real_needs, conversion_needs}
use nanoprintf.Printf.Fetch.{
  take_int, take_long, take_address, take_text, string_of_defined, integer_needs_long,
  integer_needs_int, take_real_defined,
}

-- The conversions, given arguments of the right kind.
module _ (cfg : Config) (fs : FormatSpec) (args rest : Args) where
  abbrev Converts : Option (Piece × Args) → Type 0
  Converts o = (p : Piece) × (o ≡ some (p, rest))

  take_signed_defined :
      Takes (integer_needs fs.length_modifier) args rest
      → (v : ℕ) × (take_signed fs args ≡ some (v, rest))
  unfolding take_signed
  take_signed_defined h = elim (Bool-cases (is_word64 fs.length_modifier)) [
    | inl e ↦
        let (v, k) =
          take_long args rest (Takes-eq args rest (integer_needs_long fs.length_modifier e) h) in
        (v, rw e k)
    | inr e ↦
        let (v, k) =
          take_int args rest (Takes-eq args rest (integer_needs_int fs.length_modifier e) h) in
        rw (e, k) (_, refl)
  ]

  take_unsigned_defined :
      Takes (integer_needs fs.length_modifier) args rest
      → (v : ℕ) × (take_unsigned fs args ≡ some (v, rest))
  unfolding take_unsigned
  take_unsigned_defined h = elim (Bool-cases (is_word64 fs.length_modifier)) [
    | inl e ↦
        let (v, k) =
          take_long args rest (Takes-eq args rest (integer_needs_long fs.length_modifier e) h) in
        (v, rw e k)
    | inr e ↦
        let (v, k) =
          take_int args rest (Takes-eq args rest (integer_needs_int fs.length_modifier e) h) in
        rw (e, k) (_, refl)
  ]

  convert_signed_defined :
      Takes (integer_needs fs.length_modifier) args rest → Converts (convert_signed cfg fs args)
  unfolding convert_signed
  convert_signed_defined h = let (v, k) = take_signed_defined h in rw k (_, refl)

  convert_unsigned_defined :
      (index fs.conv_spec == index ConvSpec.pointer) ≡ false
      → Takes (integer_needs fs.length_modifier) args rest
      → Converts (convert_unsigned cfg fs args)
  unfolding convert_unsigned
  convert_unsigned_defined e h = let (v, k) = take_unsigned_defined h in rw (e, k) (_, refl)

  convert_pointer_defined :
      (index fs.conv_spec == index ConvSpec.pointer) ≡ true
      → Takes (Kind.address ∷ []) args rest
      → Converts (convert_unsigned cfg fs args)
  unfolding convert_unsigned
  convert_pointer_defined e h = let (v, k) = take_address args rest h in rw (e, k) (_, refl)

  convert_string_defined : Takes (Kind.text ∷ []) args rest → Converts (convert_string cfg fs args)
  unfolding convert_string
  convert_string_defined h =
      let (p, k, t) = take_text args rest h in
      let (r, e, c) = string_of_defined cfg fs p t in rw (k, e, c) (_, refl)

  convert_char_defined :
      (index fs.conv_spec == index ConvSpec.char) ≡ true
      → Takes (Kind.int ∷ []) args rest
      → Converts (convert_char fs args)
  unfolding convert_char
  convert_char_defined e h = let (v, k) = take_int args rest h in rw (e, k) (_, refl)

  convert_percent_defined :
      (index fs.conv_spec == index ConvSpec.char) ≡ false
      → args ≡ rest
      → Converts (convert_char fs args)
  unfolding convert_char
  convert_percent_defined e h = rw (e, h) (_, refl)

  convert_writeback_defined :
      (n : ℕ)
      → Takes (Kind.address ∷ []) args rest
      → (p : Piece) × (stores : List Store) × (convert_writeback fs n args ≡ some (p, rest, stores))
  unfolding convert_writeback
  convert_writeback_defined n h = let (v, k) = take_address args rest h in rw k (_, _, refl)

  convert_real_defined :
      Takes (real_needs cfg fs.length_modifier) args rest → Converts (convert_real cfg fs args)
  unfolding convert_real float_piece
  convert_real_defined h = let (v, k) = take_real_defined cfg fs args rest h in rw k (_, refl)

  abbrev pub Defined : ℕ → Type 0
  Defined n = (p : Piece) × (stores : List Store) × (convert cfg fs n args ≡ some (p, rest, stores))

  -- By the conversion, as the dispatch compares it.
  integer-Defined :
      (n : ℕ)
      → (index fs.conv_spec == index ConvSpec.pointer) ≡ false
      → (cfg.floats && leb 11 (index fs.conv_spec)) ≡ false
      → (cfg.writeback && index fs.conv_spec == 10) ≡ false
      → leb 4 (index fs.conv_spec) ≡ true
      → Takes (integer_needs fs.length_modifier) args rest
      → Defined n
  unfolding convert index
  integer-Defined n p f w l h =
      let (q, e) = convert_unsigned_defined p h in
      let (r, d) = convert_signed_defined h in
      elim (Bool-cases (index fs.conv_spec == 4)) [
        | inl t ↦ rw (f, w, l, t, d) (_, _, refl)
        | inr t ↦ rw (f, w, l, t, e) (_, _, refl)
      ]

  compiled_out-Defined :
      (n : ℕ) (cs : ConvSpec)
      → fs.conv_spec ≡ cs
      → 10 < index cs
      → cfg.floats ≡ false
      → Takes (integer_needs fs.length_modifier) args rest
      → Defined n
  unfolding index
  compiled_out-Defined n cs e l f h =
      integer-Defined n (ground arith) (ground arith) (ground arith) (ground arith) h

  real-Defined :
      (n : ℕ) (cs : ConvSpec)
      → fs.conv_spec ≡ cs
      → leb 11 (index cs) ≡ true
      → cfg.floats ≡ true
      → Takes (real_needs cfg fs.length_modifier) args rest
      → Defined n
  unfolding convert index
  real-Defined n cs e l f h = let (q, d) = convert_real_defined h in rw (d, e, f, l) (_, _, refl)

  char-Defined :
      (n : ℕ) → leb (index fs.conv_spec) 2 ≡ true → Converts (convert_char fs args) → Defined n
  unfolding convert index
  char-Defined n l (q, d) =
      let f : (cfg.floats && leb 11 (index fs.conv_spec)) ≡ false = ground arith in
      let w : (cfg.writeback && index fs.conv_spec == 10) ≡ false = ground arith in
      let i : leb 4 (index fs.conv_spec) ≡ false = ground arith in
      let s : (index fs.conv_spec == 3) ≡ false = ground arith in rw (d, f, w, i, s) (_, _, refl)

  string-Defined :
      (n : ℕ) → index fs.conv_spec ≡ 3 → Converts (convert_string cfg fs args) → Defined n
  unfolding convert index
  string-Defined n l (q, d) =
      let f : (cfg.floats && leb 11 (index fs.conv_spec)) ≡ false = ground arith in
      let w : (cfg.writeback && index fs.conv_spec == 10) ≡ false = ground arith in
      rw (d, f, w, l) (_, _, refl)

  pointer-Defined :
      (n : ℕ) → index fs.conv_spec ≡ 9 → Converts (convert_unsigned cfg fs args) → Defined n
  unfolding convert index
  pointer-Defined n l (q, d) =
      let f : (cfg.floats && leb 11 (index fs.conv_spec)) ≡ false = ground arith in
      let w : (cfg.writeback && index fs.conv_spec == 10) ≡ false = ground arith in
      rw (d, f, w, l) (_, _, refl)

  writeback-Defined :
      (n : ℕ)
      → index fs.conv_spec ≡ 10
      → cfg.writeback ≡ true
      → Takes (Kind.address ∷ []) args rest
      → Defined n
  unfolding convert index
  writeback-Defined n l w h =
      let (q, stores, d) = convert_writeback_defined n h in
      let f : (cfg.floats && leb 11 (index fs.conv_spec)) ≡ false = ground arith in
      rw (d, f, w, l) (_, _, refl)

  -- A conversion of the float range, compiled in or not.
  float-Defined :
      (n : ℕ) (cs : ConvSpec)
      → fs.conv_spec ≡ cs
      → 10 < index cs
      → conversion_needs cfg cs fs.length_modifier ≡ (
          if cfg.floats
          then real_needs cfg fs.length_modifier
          else integer_needs fs.length_modifier)
      → Takes (conversion_needs cfg cs fs.length_modifier) args rest
      → Defined n
  float-Defined n cs e l k h = elim (Bool-cases cfg.floats) [
    | inl f ↦ real-Defined n cs e (ground arith) f (Takes-eq args rest (k ∙ rw f refl) h)
    | inr f ↦ compiled_out-Defined n cs e l f (Takes-eq args rest (k ∙ rw f refl) h)
  ]

  pub convert-Defined :
      (n : ℕ) (cs : ConvSpec)
      → fs.conv_spec ≡ cs
      → Takes (conversion_needs cfg cs fs.length_modifier) args rest
      → Defined n
  unfolding index conversion_needs
  convert-Defined n ConvSpec.none e h =
      char-Defined n (rw e refl) (convert_percent_defined (rw e refl) h)
  convert-Defined n ConvSpec.percent e h =
      char-Defined n (rw e refl) (convert_percent_defined (rw e refl) h)
  convert-Defined n ConvSpec.char e h =
      char-Defined n (rw e refl) (convert_char_defined (rw e refl) h)
  convert-Defined n ConvSpec.string e h = string-Defined n (rw e refl) (convert_string_defined h)
  convert-Defined n ConvSpec.pointer e h =
      pointer-Defined n (rw e refl) (convert_pointer_defined (rw e refl) h)
  convert-Defined n ConvSpec.writeback e h = elim (Bool-cases cfg.writeback) [
    | inl w ↦
        let k : conversion_needs cfg ConvSpec.writeback fs.length_modifier ≡ Kind.address ∷ [] =
          rw w refl in
        writeback-Defined n (rw e refl) w (Takes-eq args rest k h)
    | inr w ↦
        let k : conversion_needs cfg ConvSpec.writeback fs.length_modifier
            ≡ integer_needs fs.length_modifier =
          rw w refl in
        integer-Defined n (rw e refl) (ground arith) (ground arith) (rw e refl)
          (Takes-eq args rest k h)
  ]
  convert-Defined n ConvSpec.float_dec e h =
      float-Defined n ConvSpec.float_dec e (omega arith) refl h
  convert-Defined n ConvSpec.float_hex e h =
      float-Defined n ConvSpec.float_hex e (omega arith) refl h
  convert-Defined n ConvSpec.float_sci e h =
      float-Defined n ConvSpec.float_sci e (omega arith) refl h
  convert-Defined n ConvSpec.float_shortest e h =
      float-Defined n ConvSpec.float_shortest e (omega arith) refl h
  convert-Defined n cs e h =
      integer-Defined n (rw e refl) (ground arith) (ground arith) (rw e refl) h
