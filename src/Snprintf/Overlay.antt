-- ===== src/Snprintf/Overlay.antt =====
-- What `npf_bufputc` leaves in the memory, over a whole text.
use Prim.Native.Nat.{min}
use mathlib.Core.List.{append_assoc}
use nanoprintf.Base.{
  ℕ, zero, suc, ◌+◌, ◌-◌, ◌%◌, ◌^◌, ◌≤◌, ◌<◌, ◌≡◌, refl, ap, ◌∙◌, true, false, Option, some, none,
  [], ◌∷◌, ◌++◌, foldl, map, length, length-append, take, drop, set, set-append, arith,
}
use nanoprintf.Base.Bytes.{Bytes, peek}
use nanoprintf.Config.{Config}
use nanoprintf.Snprintf.{bufputc, terminator}

-- `(char)c`
abbrev pub low_byte : ℕ → ℕ
low_byte c = c % 2 ^ 8

-- The first `len` bytes of a text over the memory that it is written to.
unfoldable pub overlay : ℕ → Bytes → Bytes → Bytes
overlay zero out mem = mem
overlay (suc len) [] mem = mem
overlay (suc len) (c ∷ out) [] = []
overlay (suc len) (c ∷ out) (x ∷ mem) = low_byte c ∷ overlay len out mem

bufputc_full :
    (d : Option ℕ) (m : Bytes) (c : ℕ)
    → bufputc (record { dst = d; len = 0; memory = m }) c ≡ record { dst = d; len = 0; memory = m }
unfolding bufputc
bufputc_full none m c = refl
bufputc_full (some d) m c = refl

bufputc_room :
    (d len : ℕ) (m : Bytes) (c : ℕ)
    → bufputc (record { dst = some d; len = suc len; memory = m }) c
      ≡ record { dst = some (d + 1); len = len; memory = set m d (low_byte c) }
unfolding bufputc
bufputc_room d len m c = ground arith

pub foldl-bufputc_full :
    (out : Bytes) (d : Option ℕ) (m : Bytes)
    → (foldl bufputc (record { dst = d; len = 0; memory = m }) out).memory ≡ m
foldl-bufputc_full [] d m = refl
foldl-bufputc_full (c ∷ out) d m =
    ap (λ b. (foldl bufputc b out).memory) (bufputc_full d m c) ∙ foldl-bufputc_full out d m

-- The bytes in `pre` are written, `len` bytes behind them are free.
pub foldl-bufputc :
    (out pre mem : Bytes) (d len : ℕ) (m : Bytes)
    → len ≤ length mem
    → d ≡ length pre
    → m ≡ pre ++ mem
    → (foldl bufputc (record { dst = some d; len = len; memory = m }) out).memory
      ≡ pre ++ overlay len out mem
unfolding overlay
foldl-bufputc out pre mem d zero m h e f = foldl-bufputc_full out (some d) m ∙ f
foldl-bufputc [] pre mem d (suc len) m h e f = f
foldl-bufputc (c ∷ out) pre [] d (suc len) m h e f = absurd (omega arith)
foldl-bufputc (c ∷ out) pre (x ∷ mem) d (suc len) m h e f =
    ap (λ b. (foldl bufputc b out).memory) (bufputc_room d len m c)
    ∙ (foldl-bufputc out (pre ++ low_byte c ∷ []) mem (d + 1) len (set m d (low_byte c))
          (omega arith) (omega (arith, e, length-append pre (low_byte c ∷ [])))
          (rw (e, f, append_assoc) (set-append pre x (low_byte c) mem))
        ∙ append_assoc pre (low_byte c ∷ []) (overlay len out mem))

overlay-fits :
    (len : ℕ) (out mem : Bytes)
    → length out ≤ len
    → len ≤ length mem
    → overlay len out mem ≡ map low_byte out ++ drop (length out) mem
unfolding overlay
overlay-fits zero [] mem h k = refl
overlay-fits zero (c ∷ out) mem h k = absurd (omega arith)
overlay-fits (suc len) [] mem h k = refl
overlay-fits (suc len) (c ∷ out) [] h k = absurd (omega arith)
overlay-fits (suc len) (c ∷ out) (x ∷ mem) h k =
    ap (λ l. low_byte c ∷ l) (overlay-fits len out mem (omega arith) (omega arith))

-- A terminator written inside the text that fits.
overlay-set :
    (len k : ℕ) (out mem : Bytes)
    → k < len
    → len ≤ length mem
    → k ≤ length out
    → set (overlay len out mem) k 0
      ≡ take k (map low_byte out) ++ 0 ∷ drop (suc k) (overlay len out mem)
unfolding overlay
overlay-set zero k out mem h l n = absurd (omega arith)
overlay-set (suc len) k out [] h l n = absurd (omega arith)
overlay-set (suc len) zero [] (x ∷ mem) h l n = refl
overlay-set (suc len) zero (c ∷ out) (x ∷ mem) h l n = refl
overlay-set (suc len) (suc k) [] (x ∷ mem) h l n = absurd (omega arith)
overlay-set (suc len) (suc k) (c ∷ out) (x ∷ mem) h l n =
    ap (λ z. low_byte c ∷ z) (overlay-set len k out mem (omega arith) (omega arith) (omega arith))

-- Behind the bytes that are written the memory is untouched.
pub drop-overlay :
    (len j : ℕ) (out mem : Bytes)
    → min len (length out) ≤ j
    → drop j (overlay len out mem) ≡ drop j mem
unfolding overlay
drop-overlay zero j out mem h = refl
drop-overlay (suc len) j [] mem h = refl
drop-overlay (suc len) j (c ∷ out) [] h = refl
drop-overlay (suc len) zero (c ∷ out) (x ∷ mem) h = absurd (omega arith)
drop-overlay (suc len) (suc j) (c ∷ out) (x ∷ mem) h = drop-overlay len j out mem (omega arith)

-- The bytes of the buffer after a call that writes `out` and puts the terminator at `k`.
pub overlay-terminated :
    (bufsz k : ℕ) (out mem : Bytes)
    → k < bufsz
    → bufsz ≤ length mem
    → k ≤ length out
    → min bufsz (length out) ≤ suc k
    → set (overlay bufsz out mem) k 0 ≡ take k (map low_byte out) ++ 0 ∷ drop (suc k) mem
overlay-terminated bufsz k out mem h l n m =
    overlay-set bufsz k out mem h l n
    ∙ ap (λ z. take k (map low_byte out) ++ 0 ∷ z) (drop-overlay bufsz (suc k) out mem m)

pub terminator-min :
    (cfg : Config) (n bufsz : ℕ)
    → cfg.safe_empty ≡ false
    → terminator cfg n bufsz ≡ min n (bufsz - 1)
unfolding terminator
terminator-min cfg n bufsz h = ground arith

pub terminator_over :
    (cfg : Config) (n bufsz : ℕ) → cfg.safe_empty ≡ true → bufsz ≤ n → terminator cfg n bufsz ≡ 0
unfolding terminator
terminator_over cfg n bufsz h o = ground arith

pub terminator_fits :
    (cfg : Config) (n bufsz : ℕ) → cfg.safe_empty ≡ true → n < bufsz → terminator cfg n bufsz ≡ n
unfolding terminator
terminator_fits cfg n bufsz h o = ground arith

pub peek-set : (mem : Bytes) → peek (set mem 0 0) ≡ 0
peek-set [] = refl
peek-set (x ∷ mem) = refl

pub drop-set : (j : ℕ) (mem : Bytes) → 0 < j → drop j (set mem 0 0) ≡ drop j mem
drop-set zero mem h = absurd (omega arith)
drop-set (suc j) [] h = refl
drop-set (suc j) (x ∷ mem) h = refl

pub take-map : (out : Bytes) → take (length out) (map low_byte out) ≡ map low_byte out
take-map [] = refl
take-map (c ∷ out) = ap (λ l. low_byte c ∷ l) (take-map out)

pub foldl-bufputc_null :
    (out : Bytes) (len : ℕ)
    → foldl bufputc (record { dst = none; len = len; memory = [] }) out
      ≡ record { dst = none; len = len; memory = [] }
unfolding bufputc
foldl-bufputc_null [] len = refl
foldl-bufputc_null (c ∷ out) len = foldl-bufputc_null out len
