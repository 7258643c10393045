-- ===== src/Float/Hex/RoundTrip.antt =====
-- What the text of `npf_atoa_rev` stands for.
use Prim.Native.Nat.{min}
use mathlib.Core.Option
use nanoprintf.Base.{
  ℕ, ◌+◌, ◌-◌, ◌*◌, ◌/◌, ◌%◌, ◌^◌, ◌≤◌, ◌<◌, ◌≡◌, ◌≢◌, refl, ap, ◌||◌, ◌&&◌, not, some, [], ◌∷◌,
  ◌++◌, ltb, ◌==◌, if◌then◌else◌, length, All, Bool, true, false, Bool-cases, inl, inr, arith,
}
use nanoprintf.Base.Bytes.{Bytes}
use nanoprintf.Config.{Config}
use nanoprintf.Spec.{FormatSpec}
use nanoprintf.Utoa.{utoa_rev}
use nanoprintf.Utoa.Numeral.{utoa_rev-numeral}
use nanoprintf.Utoa.Value.{read_rev, read_rev-utoa_rev}
use nanoprintf.Float.HexLength.{length-nibbles}
use nanoprintf.Float.Hex.{nibbles, drop_nibbles, hex_exponent, atoa_rev}
use nanoprintf.Float.Hex.Reader.{
  HexNumber, digits_of, places_of, read_significand, read_hex, IsDigitChar, numeral-IsDigitChar,
  nibbles-IsDigitChar, before_sign-append, digits_of-append, places_of_point,
}
use nanoprintf.Float.Hex.Nearest.{nearest, drop_nibbles_lem, nibbles_lead, read_rev-nibbles}

-- The digits behind the point that a directive asks for, 13 at most.
unfoldable pub hex_places : Config → FormatSpec → ℕ
hex_places cfg fs = if cfg.precisions then min fs.prec 13 else 13

-- The significand of a double, an integer, and its biased exponent; zero has the exponent 0.
unfoldable pub significand : ℕ → ℕ
significand f = if f / 2 ^ 52 % 2048 == 0 then f % 2 ^ 52 else f % 2 ^ 52 + 2 ^ 52

unfoldable pub biased_exponent : ℕ → ℕ
biased_exponent f =
    let e = f / 2 ^ 52 % 2048 in if e == 0 then (if f % 2 ^ 52 == 0 then 1023 else 1) else e

significand-small : (f : ℕ) → significand f < 2 ^ 53
unfolding significand
significand-small f = ground arith

-- The places of a text with a point, and of one without, which has no digits behind it.
digits_lem :
    (dot : Bool) (ds : Bytes) (l : ℕ)
    → All IsDigitChar ds
    → b'0' ≤ l
    → (dot ≡ false → ds ≡ [])
    → (digits_of (ds ++ ((if dot then b'.' ∷ [] else []) ++ l ∷ [])) ≡ ds ++ l ∷ [])
      × (places_of (ds ++ ((if dot then b'.' ∷ [] else []) ++ l ∷ [])) ≡ length ds)
digits_lem true ds l h k e = (
  rw (digits_of-append ds (b'.' ∷ l ∷ []) h) (unfold digits_of in ground arith),
  places_of_point ds l h,
)
digits_lem false ds l h k e = (
  rw (digits_of-append ds (l ∷ []) h) (unfold digits_of in ground arith),
  rw (e refl) (unfold places_of in refl),
)

-- The exponent is read back.
exponent_read :
    (f : ℕ)
    → f / 2 ^ 52 % 2048 ≢ 2047
    → (let (neg, ae) = hex_exponent (f / 2 ^ 52 % 2048) (f % 2 ^ 52) in
        if neg then 1023 - ae else 1023 + ae)
      ≡ biased_exponent f
unfolding hex_exponent biased_exponent
exponent_read f h = ground arith

exponent_small : (e man : ℕ) → e < 2048 → (hex_exponent e man).1 < 2 ^ 64
unfolding hex_exponent
exponent_small e man h = ground arith

utoa_rev-IsDigitChar :
    (cfg : Config) (ae : ℕ) → ae < 2 ^ 64 → All IsDigitChar (utoa_rev cfg ae 10 0)
utoa_rev-IsDigitChar cfg ae h =
    rw (utoa_rev-numeral cfg ae 10 0 (inr (inl refl)) h) (numeral-IsDigitChar 10 0 64 ae)

-- The text of an exponent and a significand, lowest character first.
text_of : Config → ℕ → Bool → ℕ → Bytes → Bytes
text_of cfg case_adj neg ae ds =
    utoa_rev cfg ae 10 0 ++ ((if neg then b'-' else b'+') ∷ (b'P' + case_adj) ∷ ds)

read_hex-text_of :
    (cfg : Config) (case_adj : ℕ) (neg : Bool) (ae : ℕ) (ds : Bytes)
    → ae < 2 ^ 64
    → read_hex case_adj (text_of cfg case_adj neg ae ds)
      ≡ some (record {
        sig = read_rev 16 case_adj (digits_of ds);
        places = places_of ds;
        biased = if neg then 1023 - ae else 1023 + ae;
      })
unfolding read_hex text_of read_significand
read_hex-text_of cfg case_adj neg ae ds h =
    let d = utoa_rev-IsDigitChar cfg ae h in
    let r = (read_rev-utoa_rev cfg ae 10 0 (inr (inl refl)) h).0 in
    elim (Bool-cases neg) [
      | inl t ↦
          rw
            (
              t,
              before_sign-append (utoa_rev cfg ae 10 0) b'-' ((b'P' + case_adj) ∷ ds) d (inr refl),
              r,
            )
            (ground arith)
      | inr t ↦
          rw
            (
              t,
              before_sign-append (utoa_rev cfg ae 10 0) b'+' ((b'P' + case_adj) ∷ ds) d (inl refl),
              r,
            )
            (ground arith)
    ]

nibbles_none : (case_adj n bin : ℕ) → n ≡ 0 → (nibbles case_adj n bin).0 ≡ []
unfolding nibbles
nibbles_none case_adj n bin e = rw e refl

-- The digits of a rounded significand are read back.
significand_read :
    (case_adj n k bin : ℕ) (dot : Bool)
    → n + k ≡ 13
    → bin < 2 ^ 53
    → (dot ≡ false → n ≡ 0)
    → (let (ds, lead) = nibbles case_adj n (nearest bin (16 ^ k)) in
        let text = ds ++ ((if dot then b'.' ∷ [] else []) ++ (b'0' + lead % 16) ∷ []) in
        (read_rev 16 case_adj (digits_of text) ≡ nearest bin (16 ^ k)) × (places_of text ≡ n))
significand_read case_adj n k bin dot s h d =
    let sig = nearest bin (16 ^ k) in
    let ds = (nibbles case_adj n sig).0 in
    let lead = (nibbles case_adj n sig).1 in
    let small : lead < 3 = nibbles_lead case_adj n k bin s h in
    let e : lead % 16 ≡ lead = omega arith in
    let (digits, places) =
      digits_lem dot ds (b'0' + lead) (nibbles-IsDigitChar case_adj n sig) (omega arith)
        (λ z. nibbles_none case_adj n sig (d z)) in
    rw (e, digits, places, length-nibbles case_adj n sig)
      (read_rev-nibbles case_adj n sig (omega arith), refl)

-- The parts of the text of a finite number.
atoa_rev-text_of :
    (cfg : Config) (fs : FormatSpec) (f : ℕ)
    → f / 2 ^ 52 % 2048 ≢ 2047
    → atoa_rev cfg fs f ≡ (
        let n = hex_places cfg fs in
        let (neg, ae) = hex_exponent (f / 2 ^ 52 % 2048) (f % 2 ^ 52) in
        let (kept, carry) = drop_nibbles (13 - n) (significand f) 0 in
        let (ds, lead) = nibbles fs.case_adjust n (kept + carry) in
        let dot = not (n == 0) || (cfg.alt_forms && not (fs.alt_form == 0)) in
        text_of cfg fs.case_adjust neg ae
          (ds ++ ((if dot then b'.' ∷ [] else []) ++ (b'0' + lead % 16) ∷ [])))
unfolding atoa_rev text_of hex_places significand
atoa_rev-text_of cfg fs f h =
    let t : (f / 2 ^ 52 % 2048 == 2047) ≡ false = ground arith in rw t refl

hex_places-le : (cfg : Config) (fs : FormatSpec) → hex_places cfg fs ≤ 13
unfolding hex_places
hex_places-le cfg fs = ground arith

-- For every finite double, precision and flag the text of 'a' is a hexadecimal number: its
-- significand is that of the double rounded to the nearest, a tie upwards, at the digits behind the point that
-- the directive asks for, 13 at most, and its exponent is that of the double.
pub read_hex-atoa_rev :
    (cfg : Config) (fs : FormatSpec) (f : ℕ)
    → f / 2 ^ 52 % 2048 ≢ 2047
    → read_hex fs.case_adjust (atoa_rev cfg fs f)
      ≡ some (record {
        sig = nearest (significand f) (16 ^ (13 - hex_places cfg fs));
        places = hex_places cfg fs;
        biased = biased_exponent f;
      })
read_hex-atoa_rev cfg fs f h =
    let n = hex_places cfg fs in
    let small = exponent_small (f / 2 ^ 52 % 2048) (f % 2 ^ 52) (omega arith) in
    let dot = not (n == 0) || (cfg.alt_forms && not (fs.alt_form == 0)) in
    let (digits, places) =
      significand_read fs.case_adjust n (13 - n) (significand f) dot
        (omega (arith, hex_places-le cfg fs)) (significand-small f) (λ z. ground arith) in
    rw
      (
        atoa_rev-text_of cfg fs f h,
        read_hex-text_of cfg fs.case_adjust _ _ _ small,
        drop_nibbles_lem (13 - n) (significand f),
        digits,
        places,
        exponent_read f h,
      )
      refl

-- The bit pattern of the magnitude of a number.
unfoldable pub bits_of : HexNumber → ℕ
bits_of x =
    let man = x.sig * 16 ^ (13 - x.places) in
    if ltb man (2 ^ 52) then man else x.biased * 2 ^ 52 + (man - 2 ^ 52)

bits_of-significand :
    (f : ℕ)
    → bits_of (record { sig = significand f; places = 13; biased = biased_exponent f }) ≡ f % 2 ^ 63
unfolding bits_of significand biased_exponent
bits_of-significand f = ground arith

-- With 13 digits behind the point, which a directive without a precision has, and which a build without precisions always prints, reading the
-- text of 'a' of a finite double gives its bits back, but for the sign.
pub bits_of-atoa_rev :
    (cfg : Config) (fs : FormatSpec) (f : ℕ)
    → f / 2 ^ 52 % 2048 ≢ 2047
    → hex_places cfg fs ≡ 13
    → Option.map bits_of (read_hex fs.case_adjust (atoa_rev cfg fs f)) ≡ some (f % 2 ^ 63)
bits_of-atoa_rev cfg fs f h p =
    let e : 16 ^ (13 - 13) ≡ 1 = refl in
    let n : nearest (significand f) 1 ≡ significand f = unfold nearest in omega arith in
    rw (read_hex-atoa_rev cfg fs f h, p, e, n) (ap some (bits_of-significand f))
