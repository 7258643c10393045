-- ===== src/Float/Hex/Reader.antt =====
-- A reader of the texts of hexadecimal floating point, last character first: what the output of
-- `npf_atoa_rev` stands for.
use nanoprintf.Base.{
  ℕ, zero, suc, ◌+◌, ◌-◌, ◌/◌, ◌%◌, ◌^◌, ◌≤◌, ◌≡◌, refl, ◌||◌, Option, some, none, [], ◌∷◌, ◌++◌,
  ◌==◌, if◌then◌else◌, length, All, Bool-cases, ◌⊎◌, inl, inr, arith,
}
use nanoprintf.Base.Bytes.{Bytes}
use nanoprintf.Utoa.{digit_char}
use nanoprintf.Utoa.Numeral.{numeral}
use nanoprintf.Utoa.Value.{read_rev}
use nanoprintf.Float.Hex.{nibbles}

-- `sig * 16 ^ -places * 2 ^ (biased - 1023)`
pub record HexNumber : Type 0 where
  pub sig : ℕ
  pub places : ℕ
  pub biased : ℕ

-- The digits of the exponent, and the text from its sign on.
unfoldable pub before_sign : Bytes → Bytes × Bytes
before_sign [] = ([], [])
before_sign (c ∷ cs) =
    let (ds, rest) = before_sign cs in
    if c == b'+' || c == b'-' then ([], c ∷ cs) else (c ∷ ds, rest)

-- The digits on both sides of the point.
unfoldable pub digits_of : Bytes → Bytes
digits_of [] = []
digits_of (c ∷ cs) = if c == b'.' then digits_of cs else c ∷ digits_of cs

-- How many digits stand behind the point.
unfoldable pub places_of : Bytes → ℕ
places_of [] = 0
places_of (c ∷ []) = 0
places_of (c ∷ d ∷ ds) = if c == b'.' then 0 else suc (places_of (d ∷ ds))

unfoldable pub read_significand : ℕ → ℕ → Bytes → Option HexNumber
read_significand case_adj ae [] = none
read_significand case_adj ae (s ∷ []) = none
read_significand case_adj ae (s ∷ p ∷ ds) =
    if p == b'P' + case_adj
    then some (record {
      sig = read_rev 16 case_adj (digits_of ds);
      places = places_of ds;
      biased = if s == b'-' then 1023 - ae else 1023 + ae;
    })
    else none

unfoldable pub read_hex : ℕ → Bytes → Option HexNumber
read_hex case_adj text =
    let (es, rest) = before_sign text in read_significand case_adj (read_rev 10 0 es) rest

-- The characters of digits stand behind those of signs and points.
abbrev pub IsDigitChar : ℕ → Type 0
IsDigitChar c = b'0' ≤ c

digit_char-IsDigitChar : (case_adj d : ℕ) → IsDigitChar (digit_char case_adj d)
unfolding digit_char
digit_char-IsDigitChar case_adj d = ground arith

pub numeral-IsDigitChar : (base case_adj f v : ℕ) → All IsDigitChar (numeral base case_adj f v)
unfolding numeral
numeral-IsDigitChar base case_adj zero v = tt
numeral-IsDigitChar base case_adj (suc f) v =
    let h = digit_char-IsDigitChar case_adj (v % base) in
    let ih = numeral-IsDigitChar base case_adj f (v / base) in
    elim (Bool-cases (v / base == 0)) [ inl t ↦ rw t (h, tt) | inr t ↦ rw t (h, ih) ]

pub nibbles-IsDigitChar : (case_adj n bin : ℕ) → All IsDigitChar (nibbles case_adj n bin).0
unfolding nibbles
nibbles-IsDigitChar case_adj zero bin = tt
nibbles-IsDigitChar case_adj (suc n) bin =
    (digit_char-IsDigitChar case_adj (bin % 16), nibbles-IsDigitChar case_adj n (bin / 2 ^ 4))

pub before_sign-append :
    (es : Bytes) (s : ℕ) (rest : Bytes)
    → All IsDigitChar es
    → (s ≡ b'+') ⊎ (s ≡ b'-')
    → before_sign (es ++ s ∷ rest) ≡ (es, s ∷ rest)
unfolding before_sign
before_sign-append [] s rest h k = ground arith
before_sign-append (e ∷ es) s rest (h, hs) k = rw (before_sign-append es s rest hs k) (ground arith)

pub digits_of-append :
    (ds rest : Bytes) → All IsDigitChar ds → digits_of (ds ++ rest) ≡ ds ++ digits_of rest
unfolding digits_of
digits_of-append [] rest h = refl
digits_of-append (d ∷ ds) rest (h, hs) = rw (digits_of-append ds rest hs) (ground arith)

pub places_of_point :
    (ds : Bytes) (l : ℕ) → All IsDigitChar ds → places_of (ds ++ b'.' ∷ l ∷ []) ≡ length ds
unfolding places_of
places_of_point [] l h = refl
places_of_point (d ∷ []) l (h, hs) = ground arith
places_of_point (d ∷ d' ∷ ds) l (h, hs) = rw (places_of_point (d' ∷ ds) l hs) (ground arith)
