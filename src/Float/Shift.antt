-- ===== src/Float/Shift.antt =====
-- The shifts of the float conversions, `npf_bin_shr` and `npf_bin_shl` of a build without division
-- among them, and the copy of a float's bytes, `npf_real_to_int_rep` and `npf_double_to_int_rep`.
pub mod Direct
use nanoprintf.Base.{ℕ, zero, suc, ◌+◌, ◌*◌, ◌/◌, ◌%◌, ◌^◌, ◌&&◌, [], ◌∷◌, ltb, if◌then◌else◌, set}
use nanoprintf.Base.Bytes.{Bytes}
use nanoprintf.Config.{Config}
use nanoprintf.Float.{bin_bits}

-- `while (s--) { v >>= 1; }`
unfoldable pub shr_loop : ℕ → ℕ → ℕ
shr_loop zero v = v
shr_loop (suc s) v = shr_loop s (v / 2)

-- `while (s--) { v <<= 1; }` on a value of `w` bits.
unfoldable pub shl_loop : ℕ → ℕ → ℕ → ℕ
shl_loop w zero v = v
shl_loop w (suc s) v = shl_loop w s (v * 2 % 2 ^ w)

-- NPF_BIN_SHR
unfoldable pub bin_shr : Config → ℕ → ℕ → ℕ
bin_shr cfg v s = if cfg.division_free && ltb 32 (bin_bits cfg) then shr_loop s v else v / 2 ^ s

-- NPF_BIN_SHL
unfoldable pub bin_shl : Config → ℕ → ℕ → ℕ
bin_shl cfg v s =
    if cfg.division_free && ltb 32 (bin_bits cfg)
    then shl_loop (bin_bits cfg) s v
    else v * 2 ^ s % 2 ^ bin_bits cfg

-- The bytes of an object of `n` bytes that holds the pattern `v`, on a target that stores the lowest
-- byte first.
unfoldable pub object_bytes : ℕ → ℕ → Bytes
object_bytes zero v = []
object_bytes (suc n) v = (v % 2 ^ 8) ∷ object_bytes n (v / 2 ^ 8)

-- The value that such an object has.
unfoldable pub object_value : Bytes → ℕ
object_value [] = 0
object_value (c ∷ cs) = c + object_value cs * 2 ^ 8

-- `for (i = 0; i < sizeof(f); ++i) { dst[i] = src[i]; }`, from the index `i` on.
unfoldable pub copy_bytes : ℕ → Bytes → Bytes → Bytes
copy_bytes i [] dst = dst
copy_bytes i (c ∷ src) dst = copy_bytes (i + 1) src (set dst i c)

-- `npf_real_to_int_rep`
unfoldable pub real_to_int_rep : Config → ℕ → ℕ
real_to_int_rep cfg f =
    let size = if cfg.single_precision then 4 else 8 in
    object_value (copy_bytes 0 (object_bytes size f) (object_bytes (bin_bits cfg / 2 ^ 3) 0))

-- `npf_double_to_int_rep`: uint_fast64_t has 64 bits.
unfoldable pub double_to_int_rep : ℕ → ℕ
double_to_int_rep f = object_value (copy_bytes 0 (object_bytes 8 f) (object_bytes 8 0))
