-- ===== src/Float/Sci/Compose.antt =====
-- The two layouts of `npf_etoa_rev`, which write the text, reversed, from the start of the buffer
-- that has the digits at its top.
use nanoprintf.Base.{
  ℕ, zero, suc, ◌+◌, ◌-◌, Bool, ◌&&◌, ◌||◌, not, Option, none, some, ltb, ◌==◌, if◌then◌else◌, set,
  get_or, length,
}
use nanoprintf.Base.Bytes.{Bytes}
use nanoprintf.Base.Ints.{ℤ, pos, pos_part, neg_part, ltb_ℤ, ◌+ℤ◌}
use nanoprintf.Config.{Config}
use nanoprintf.Spec.{FormatSpec}
use nanoprintf.Utoa.{utoa_rev}
use nanoprintf.Float.Fixed.{write}
use nanoprintf.Float.Sci.Round.{Digits}

-- `n` zeros written from `o` on.
unfoldable pub fill : ℕ → ℕ → Bytes → Bytes
fill zero o buf = buf
fill (suc n) o buf = fill n (o + 1) (set buf o b'0')

-- `n` bytes copied up the buffer, from `src` on to `o` on.
unfoldable pub copy : ℕ → ℕ → ℕ → Bytes → Bytes
copy zero src o buf = buf
copy (suc n) src o buf = copy n (src + 1) (o + 1) (set buf o (get_or buf src 0))

-- A point is printed before a fraction, and for '#'.
unfoldable pub has_point : Config → FormatSpec → ℕ → Bool
has_point cfg fs prec = not (prec == 0) || (cfg.alt_forms && not (fs.alt_form == 0))

-- "<int>.<frac>": the length and the buffer.
unfoldable pub compose_fixed : Config → FormatSpec → ℕ → Digits → Option (ℕ × Bytes)
compose_fixed cfg fs prec s =
    let size = cfg.conversion_buffer_size in
    let nsig = size - s.end in
    let id = pos_part (pos nsig +ℤ (if ltb_ℤ (pos 0) s.dec then pos 0 else s.dec)) in
    let iz = pos_part s.dec in
    let fd = nsig - id in
    let fz = prec - fd in
    let dp = if has_point cfg fs prec then 1 else 0 in
    let buf1 = copy fd s.end fz (fill fz 0 s.buf) in
    let o1 = fz + fd in
    let buf2 = fill iz (o1 + dp) (set buf1 o1 b'.') in
    let o2 = o1 + dp + iz in
    if ltb size (id + iz + dp + prec) then none else some (o2 + id, copy id (s.end + fd) o2 buf2)

-- The loop over the fraction of 'e', round `i` of `pe`, with `left` to go.
unfoldable pub copy_frac : ℕ → ℕ → ℕ → ℕ → ℕ → ℕ → Bytes → Bytes
copy_frac size nsig pe zero i o buf = buf
copy_frac size nsig pe (suc left) i o buf =
    let pad = pe - (nsig - 1) in
    let c = if ltb i pad then b'0' else get_or buf (size - nsig + (i - pad)) 0 in
    copy_frac size nsig pe left (i + 1) (o + 1) (set buf o c)

-- The exponent, of at least two digits, its sign and the letter: the length and the buffer.
unfoldable pub put_exponent : Config → FormatSpec → ℤ → Bytes → ℕ × Bytes
put_exponent cfg fs x buf =
    let ds = utoa_rev cfg (pos_part x + neg_part x) 10 0 in
    let short = ltb (length ds) 2 in
    let buf1 = write buf 0 ds in
    let buf2 = if short then set buf1 (length ds) b'0' else buf1 in
    let o = if short then length ds + 1 else length ds in
    let buf3 = set buf2 o (if ltb_ℤ x (pos 0) then b'-' else b'+') in
    (o + 2, set buf3 (o + 1) (b'E' + fs.case_adjust))

-- "d.<frac>e<sign><exp>", with `pe` digits behind the point: the length and the buffer.
unfoldable pub compose_sci : Config → FormatSpec → ℕ → ℤ → Digits → ℕ × Bytes
compose_sci cfg fs pe x s =
    let size = cfg.conversion_buffer_size in
    let (o1, buf1) = put_exponent cfg fs x s.buf in
    let o2 = o1 + pe in
    let buf2 = set (copy_frac size (size - s.end) pe pe 0 o1 buf1) o2 b'.' in
    let o3 = if has_point cfg fs pe then o2 + 1 else o2 in
    (o3 + 1, set buf2 o3 (get_or buf2 (size - 1) 0))
