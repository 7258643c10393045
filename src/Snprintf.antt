-- ===== src/Snprintf.antt =====
-- `npf_bufputc` and `npf_vsnprintf`: output into a buffer of a given size.
mod Tests
pub mod Overlay
pub mod Buffer
pub mod Copy
use nanoprintf.Base.{
  ℕ, ◌+◌, ◌-◌, ◌%◌, ◌^◌, Option, some, none, List, [], leb, ◌==◌, if◌then◌else◌, ◌>>=◌, set,
}
use nanoprintf.Base.Bytes.{Bytes}
use nanoprintf.Config.{Config}
use nanoprintf.Spec.{FormatSpec}
use nanoprintf.Args.{Args}
use nanoprintf.Convert.{Store}
use nanoprintf.Printf.{vpprintf}

-- `npf_bufputc_ctx_t` with the memory that it points into: `dst` is the cursor's offset in the
-- caller's buffer, `none` for the null pointer.
pub record BufputcCtx : Type 0 where
  pub dst : Option ℕ
  pub len : ℕ
  pub memory : Bytes

-- `npf_bufputc`
unfoldable pub bufputc : BufputcCtx → ℕ → BufputcCtx
bufputc bpc c = elim bpc.dst [
  | none ↦ bpc
  | some d ↦
      if bpc.len == 0
      then bpc
      else record { dst = some (d + 1); len = bpc.len - 1; memory = set bpc.memory d (c % 2 ^ 8) }
]

-- What a call leaves behind: the returned int, the buffer, and the stores of '%n'.
pub record Outcome : Type 0 where
  pub returned : ℕ
  pub memory : Bytes
  pub stores : List Store

-- The index that the terminator is written to.
unfoldable pub terminator : Config → ℕ → ℕ → ℕ
terminator cfg n bufsz =
    if cfg.safe_empty
    then if leb bufsz n then 0 else n
    else if leb n (bufsz - 1)
    then n
    else bufsz - 1

-- `npf_vsnprintf`, and `npf_snprintf_` with it. `buffer` is the memory that the pointer reaches.
unfoldable pub vsnprintf : Config → FormatSpec → Option Bytes → ℕ → Bytes → Args → Option Outcome
vsnprintf cfg fs buffer bufsz format args =
    let ctx : BufputcCtx = elim buffer [
      | none ↦ record { dst = none; len = bufsz; memory = [] }
      | some mem ↦ record { dst = some 0; len = bufsz; memory = mem }
    ] in
    vpprintf bufputc cfg fs ctx format args >>= λ st. some (record {
      returned = st.npf_n;
      memory = elim buffer [
        | none ↦ st.ctx.memory
        | some _ ↦
            if bufsz == 0
            then st.ctx.memory
            else set st.ctx.memory (terminator cfg st.npf_n bufsz) 0
      ];
      stores = st.stores;
    })
