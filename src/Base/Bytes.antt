-- ===== src/Base/Bytes.antt =====
-- C strings. A `char const *` is the list of the bytes from the cursor to the terminator, which
-- is not in the list: a read at its end gives 0.
use Prim.Native.Nat.{ℕ}
use Prim.Native.Char.{code}
use Prim.Native.String.{String}
use mathlib.Core.List.{List, [], ◌∷◌}

abbrev pub Bytes : Type 0
Bytes = List ℕ

-- `*cur`
abbrev pub peek : Bytes → ℕ
peek [] = 0
peek (c ∷ cs) = c

-- `cur + 1`
abbrev pub advance : Bytes → Bytes
advance [] = []
advance (c ∷ cs) = cs

-- The bytes of an ASCII literal.
abbrev pub codes : String → Bytes
codes String.[] = []
codes (String.◌∷◌ c s) = code c ∷ codes s
