-- ===== src/Printf/Fetch.antt =====
-- Arguments of the right kinds are fetched.
use nanoprintf.Base.{
  ℕ, zero, suc, ◌+◌, ◌^◌, ◌<◌, ◌≡◌, length, refl, true, false, ◌||◌, not, ltb, Option, some, none,
  [], ◌∷◌, arith, Bool-cases, inl, inr,
}
use nanoprintf.Base.Bytes.{Bytes}
use nanoprintf.Config.{Config}
use nanoprintf.Spec.{LengthModifier, FormatSpec, is_none}
use nanoprintf.Args.{
  Arg, Args, arg_word32, arg_word64, arg_pointer, arg_text, arg_real, arg_long_real, arg_single,
}
use nanoprintf.Convert.{is_word64, span, string_of, counted, take_real}
use nanoprintf.Printf.Needs.{Kind, IsKind, IsTerminated, Takes, Takes-eq, integer_needs, real_needs}

pub take_int :
    (args rest : Args)
    → Takes (Kind.int ∷ []) args rest
    → (v : ℕ) × (arg_word32 args ≡ some (v, rest))
unfolding arg_word32
take_int [] rest h = absurd h
take_int (Arg.word32 v ∷ args) rest (i, e) = (v, rw e refl)
take_int (_ ∷ args) rest (i, e) = absurd i

pub take_long :
    (args rest : Args)
    → Takes (Kind.long ∷ []) args rest
    → (v : ℕ) × (arg_word64 args ≡ some (v, rest))
unfolding arg_word64
take_long [] rest h = absurd h
take_long (Arg.word64 v ∷ args) rest (i, e) = (v, rw e refl)
take_long (_ ∷ args) rest (i, e) = absurd i

pub take_address :
    (args rest : Args)
    → Takes (Kind.address ∷ []) args rest
    → (v : ℕ) × (arg_pointer args ≡ some (v, rest))
unfolding arg_pointer
take_address [] rest h = absurd h
take_address (Arg.pointer v ∷ args) rest (i, e) = (v, rw e refl)
take_address (_ ∷ args) rest (i, e) = absurd i

pub take_double :
    (args rest : Args)
    → Takes (Kind.double ∷ []) args rest
    → (v : ℕ) × (arg_real args ≡ some (v, rest))
unfolding arg_real
take_double [] rest h = absurd h
take_double (Arg.real v ∷ args) rest (i, e) = (v, rw e refl)
take_double (_ ∷ args) rest (i, e) = absurd i

pub take_long_double :
    (args rest : Args)
    → Takes (Kind.long_double ∷ []) args rest
    → (v : ℕ) × (arg_long_real args ≡ some (v, rest))
unfolding arg_long_real
take_long_double [] rest h = absurd h
take_long_double (Arg.long_real v ∷ args) rest (i, e) = (v, rw e refl)
take_long_double (_ ∷ args) rest (i, e) = absurd i

pub take_single :
    (args rest : Args)
    → Takes (Kind.single ∷ []) args rest
    → (v : ℕ) × (arg_single args ≡ some (v, rest))
unfolding arg_single
take_single [] rest h = absurd h
take_single (Arg.single v ∷ args) rest (i, e) = (v, rw e refl)
take_single (_ ∷ args) rest (i, e) = absurd i

pub take_text :
    (args rest : Args)
    → Takes (Kind.text ∷ []) args rest
    → (p : Option Bytes) × (arg_text args ≡ some (p, rest)) × IsKind Kind.text (Arg.text p)
unfolding arg_text
take_text [] rest h = absurd h
take_text (Arg.text p ∷ args) rest (i, e) = (p, rw e refl, i)
take_text (_ ∷ args) rest (i, e) = absurd i

span_defined :
    (cfg : Config) (fs : FormatSpec) (len : ℕ) (cs : Bytes)
    → IsTerminated cs
    → (r : Bytes) × (span cfg fs len cs ≡ some r) × (length r < length cs)
unfolding span
span_defined cfg fs len [] h = absurd h
span_defined cfg fs len (zero ∷ cs) h =
    elim (Bool-cases (not cfg.precisions || is_none fs.prec_opt || ltb len fs.prec)) [
      | inl e ↦ ([], rw e refl, omega arith)
      | inr e ↦ ([], rw e refl, omega arith)
    ]
span_defined cfg fs len (suc c ∷ cs) h =
    let (r, e, l) = span_defined cfg fs (len + 1) cs h in
    elim (Bool-cases (not cfg.precisions || is_none fs.prec_opt || ltb len fs.prec)) [
      | inl t ↦ (suc c ∷ r, rw (t, e) (ground arith), omega (arith, l))
      | inr t ↦ ([], rw t refl, omega (arith, l))
    ]

pub counted_lem : (cs : Bytes) → length cs < 2 ^ 31 → counted cs ≡ some cs
unfolding counted
counted_lem cs h = let t : ltb (length cs) (2 ^ 31) ≡ true = ground arith in rw t refl

pub string_of_defined :
    (cfg : Config) (fs : FormatSpec) (p : Option Bytes)
    → IsKind Kind.text (Arg.text p)
    → (r : Bytes) × (string_of cfg fs p ≡ some r) × (counted r ≡ some r)
unfolding string_of
string_of_defined cfg fs none h = ([], refl, counted_lem [] (omega arith))
string_of_defined cfg fs (some cs) (h, room) =
    let (r, e, l) = span_defined cfg fs 0 cs h in (r, e, counted_lem r (omega (arith, l, room)))

pub real_needs_single :
    (cfg : Config) (m : LengthModifier)
    → cfg.single_precision ≡ true
    → real_needs cfg m ≡ Kind.single ∷ []
unfolding real_needs
real_needs_single cfg LengthModifier.long_double e = rw e refl
real_needs_single cfg _ e = rw e refl

pub integer_needs_long :
    (m : LengthModifier) → is_word64 m ≡ true → integer_needs m ≡ Kind.long ∷ []
unfolding integer_needs
integer_needs_long m e = rw e refl

pub integer_needs_int : (m : LengthModifier) → is_word64 m ≡ false → integer_needs m ≡ Kind.int ∷ []
unfolding integer_needs
integer_needs_int m e = rw e refl

take_wide :
    (cfg : Config) (fs : FormatSpec) (args rest : Args) (m : LengthModifier)
    → cfg.single_precision ≡ false
    → fs.length_modifier ≡ m
    → Takes (real_needs cfg m) args rest
    → (v : ℕ) × (take_real cfg fs args ≡ some (v, rest))
unfolding take_real real_needs
take_wide cfg fs args rest LengthModifier.long_double s e h =
    let k : real_needs cfg LengthModifier.long_double ≡ Kind.long_double ∷ [] = rw s refl in
    rw (s, e, take_real) (take_long_double args rest (Takes-eq args rest k h))
take_wide cfg fs args rest m s e h =
    let k : real_needs cfg m ≡ Kind.double ∷ [] = rw s refl in
    rw (s, e, take_real) (take_double args rest (Takes-eq args rest k h))

pub take_real_defined :
    (cfg : Config) (fs : FormatSpec) (args rest : Args)
    → Takes (real_needs cfg fs.length_modifier) args rest
    → (v : ℕ) × (take_real cfg fs args ≡ some (v, rest))
unfolding take_real
take_real_defined cfg fs args rest h = elim (Bool-cases cfg.single_precision) [
  | inl s ↦
      rw s
        (take_single args rest (Takes-eq args rest (real_needs_single cfg fs.length_modifier s) h))
  | inr s ↦ take_wide cfg fs args rest fs.length_modifier s refl h
]
