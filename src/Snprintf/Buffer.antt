-- ===== src/Snprintf/Buffer.antt =====
-- What npf_vsnprintf leaves in the buffer.
use Prim.Native.Nat.{min}
use native.Mathlib.Nat.{mod-eq_of_lt}
use nanoprintf.Base.{
  ℕ, suc, ◌-◌, ◌%◌, ◌^◌, ◌≤◌, ◌<◌, ◌≡◌, refl, ap, ◌∙◌, true, false, some, none, [], ◌∷◌, ◌++◌, map,
  length, take, drop, set, arith,
}
use nanoprintf.Base.Bytes.{Bytes, peek}
use nanoprintf.Config.{Config}
use nanoprintf.Spec.{FormatSpec}
use nanoprintf.Args.{Args}
use nanoprintf.Printf.{State, vpprintf}
use nanoprintf.Printf.Trace.{record_byte, vpprintf-replay, vpprintf-IsCounted}
use nanoprintf.Snprintf.{bufputc, Outcome, terminator, vsnprintf}
use nanoprintf.Snprintf.Overlay.{
  low_byte, overlay, foldl-bufputc_full, foldl-bufputc, drop-overlay, overlay-terminated,
  terminator-min, terminator_over, terminator_fits, peek-set, drop-set, take-map,
  foldl-bufputc_null,
}

module _ (cfg : Config) (fs : FormatSpec) (format : Bytes) (args : Args) {st : State Bytes}
    (printed : vpprintf record_byte cfg fs [] format args ≡ some st) where
  -- The buffer before the terminator is written.
  vsnprintf_memory :
      (mem : Bytes) (bufsz : ℕ)
      → 0 < bufsz
      → bufsz ≤ length mem
      → vsnprintf cfg fs (some mem) bufsz format args
        ≡ some (record {
          returned = length st.ctx % 2 ^ 32;
          memory = set (overlay bufsz st.ctx mem) (terminator cfg (length st.ctx % 2 ^ 32) bufsz) 0;
          stores = st.stores;
        })
  unfolding vsnprintf
  vsnprintf_memory mem bufsz pos room =
      rw
        (
          vpprintf-replay bufputc (record { dst = some 0; len = bufsz; memory = mem }) cfg fs format
              args,
          printed,
        )
        (ground (
          arith,
          foldl-bufputc st.ctx [] mem 0 bufsz mem room refl refl,
          vpprintf-IsCounted cfg fs format args printed,
        ))

  -- In a build without NANOPRINTF_SNPRINTF_SAFE_EMPTY_STRING_ON_OVERFLOW, a call that returns and is
  -- given a buffer of `bufsz` bytes, not 0 of them, keeps as much of the output as fits before a
  -- terminator, leaves every byte behind the terminator as it was, and returns the length of the whole
  -- output, if that is below 2^32.
  pub vsnprintf_truncates :
      (mem : Bytes) (bufsz : ℕ)
      → cfg.safe_empty ≡ false
      → 0 < bufsz
      → bufsz ≤ length mem
      → length st.ctx < 2 ^ 32
      → let k = min (length st.ctx) (bufsz - 1) in
        vsnprintf cfg fs (some mem) bufsz format args
        ≡ some (record {
          returned = length st.ctx;
          memory = take k (map low_byte st.ctx) ++ 0 ∷ drop (suc k) mem;
          stores = st.stores;
        })
  vsnprintf_truncates mem bufsz unsafe pos room small =
      let n = length st.ctx in
      vsnprintf_memory mem bufsz pos room
      ∙ rw
          (
            terminator-min cfg (n % 2 ^ 32) bufsz unsafe,
            mod-eq_of_lt small,
            overlay-terminated bufsz (min n (bufsz - 1)) st.ctx mem (omega arith) room (omega arith)
                (omega arith),
          )
          refl

  -- With NANOPRINTF_SNPRINTF_SAFE_EMPTY_STRING_ON_OVERFLOW, for a call that returns, a buffer of
  -- `bufsz` bytes, not 0 of them, and an output of less than 2^32 bytes: an output that does not fit leaves the empty
  -- string, one that fits is kept whole, and behind the buffer nothing is written.
  pub vsnprintf_empties :
      (mem : Bytes) (bufsz : ℕ)
      → cfg.safe_empty ≡ true
      → 0 < bufsz
      → bufsz ≤ length mem
      → length st.ctx < 2 ^ 32
      → (o : Outcome) × (vsnprintf cfg fs (some mem) bufsz format args ≡ some o)
        × (o.returned ≡ length st.ctx)
        × (bufsz ≤ length st.ctx → (peek o.memory ≡ 0) × (drop bufsz o.memory ≡ drop bufsz mem))
        × (length st.ctx < bufsz
            → o.memory ≡ map low_byte st.ctx ++ 0 ∷ drop (suc (length st.ctx)) mem)
  vsnprintf_empties mem bufsz safe pos room small =
      let n = length st.ctx in
      let at = terminator cfg (n % 2 ^ 32) bufsz in
      let e : n % 2 ^ 32 ≡ n = mod-eq_of_lt small in
      (
        record {
          returned = n % 2 ^ 32;
          memory = set (overlay bufsz st.ctx mem) at 0;
          stores = st.stores;
        },
        vsnprintf_memory mem bufsz pos room,
        e,
        λ over.
            rw (e, terminator_over cfg n bufsz safe over)
              (
                peek-set (overlay bufsz st.ctx mem),
                drop-set bufsz (overlay bufsz st.ctx mem) pos
                    ∙ drop-overlay bufsz bufsz st.ctx mem (omega arith),
              ),
        λ fits.
            rw (e, terminator_fits cfg n bufsz safe fits)
              (overlay-terminated bufsz n st.ctx mem fits room (omega arith) (omega arith)
                ∙ ap (λ z. z ++ 0 ∷ drop (suc n) mem) (take-map st.ctx)),
      )

  vsnprintf_null :
      (bufsz : ℕ)
      → vsnprintf cfg fs none bufsz format args
        ≡ some (record { returned = length st.ctx % 2 ^ 32; memory = []; stores = st.stores })
  unfolding vsnprintf
  vsnprintf_null bufsz =
      rw
        (
          vpprintf-replay bufputc (record { dst = none; len = bufsz; memory = [] }) cfg fs format
              args,
          printed,
        )
        (ground
          (arith, foldl-bufputc_null st.ctx bufsz, vpprintf-IsCounted cfg fs format args printed))

  vsnprintf_empty :
      (mem : Bytes)
      → vsnprintf cfg fs (some mem) 0 format args
        ≡ some (record { returned = length st.ctx % 2 ^ 32; memory = mem; stores = st.stores })
  unfolding vsnprintf
  vsnprintf_empty mem =
      rw
        (
          vpprintf-replay bufputc (record { dst = some 0; len = 0; memory = mem }) cfg fs format
              args,
          printed,
        )
        (ground (
          arith,
          foldl-bufputc_full st.ctx (some 0) mem,
          vpprintf-IsCounted cfg fs format args printed,
        ))

  -- In a call that returns, without a buffer, or with one of no bytes, nothing is written, and the length of the output is
  -- returned all the same, modulo 2^32.
  pub vsnprintf_counts :
      (mem : Bytes) (bufsz : ℕ)
      → (vsnprintf cfg fs (some mem) 0 format args
          ≡ some (record { returned = length st.ctx % 2 ^ 32; memory = mem; stores = st.stores }))
        × (vsnprintf cfg fs none bufsz format args
            ≡ some (record { returned = length st.ctx % 2 ^ 32; memory = []; stores = st.stores }))
  vsnprintf_counts mem bufsz = (vsnprintf_empty mem, vsnprintf_null bufsz)
