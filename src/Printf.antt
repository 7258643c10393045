-- ===== src/Printf.antt =====
-- `npf_vpprintf` and `npf_pprintf_`: the loop over the format string.
pub mod Tests
pub mod Trace
pub mod Needs
pub mod Fetch
pub mod Stages
pub mod Conversions
pub mod Total
pub mod Literal
pub mod Refused
pub mod Progress
pub mod Append
pub mod Fresh
pub mod Whole
pub mod Text
pub mod Natural
pub mod Hex
pub mod Signed
use nanoprintf.Base.{
  ◌>>=◌, ℕ, zero, suc, ◌+◌, ◌%◌, ◌^◌, Option, some, none, List, [], ◌++◌, ◌==◌, if◌then◌else◌,
  length,
}
use nanoprintf.Base.Bytes.{Bytes, peek, advance}
use nanoprintf.Config.{Config}
use nanoprintf.Spec.{FormatSpec}
use nanoprintf.Args.{Args}
use nanoprintf.Parse.{parse_format_spec_end}
use nanoprintf.Directive.{prepare}
use nanoprintf.Convert.{Store, convert}
use nanoprintf.Emit.{spec_len, emit}

-- The state of the loop: what stands behind `pc_ctx`, the struct `fs`, `npf_n` as a pattern of 32
-- bits, the arguments left, and what '%n' has stored.
pub record State {ℓ} (S : Type ℓ) : Type ℓ where
  pub ctx : S
  pub fs : FormatSpec
  pub npf_n : ℕ
  pub args : Args
  pub stores : List Store

-- An addition to the counter wraps around.
unfoldable pub add_int : ℕ → ℕ → ℕ
add_int a b = (a + b) % 2 ^ 32

-- What one round of the loop parses at the cursor: nothing, unless a '%' starts a directive.
unfoldable pub parse_at : Config → Bytes → FormatSpec → Option (FormatSpec × Bytes)
parse_at cfg cur fs = if peek cur == b'%' then parse_format_spec_end cfg cur fs else none

module _ {ℓ} {S : Type ℓ} (pc : S → ℕ → S) where
  -- NPF_PUTC
  unfoldable pub putc : ℕ → State S → State S
  putc c st = record st { ctx = pc st.ctx c; npf_n = add_int st.npf_n 1 }

  -- A directive that was parsed: arguments, conversion, output, count.
  unfoldable pub directive : Config → FormatSpec → State S → Option (State S)
  directive cfg fs st = do
    (fs1, args1) ← prepare cfg fs st.args
    (p, args2, stores) ← convert cfg fs1 st.npf_n args1
    some (record {
      ctx = emit pc cfg p st.ctx;
      fs = p.fs;
      npf_n = add_int st.npf_n (spec_len cfg p);
      args = args2;
      stores = st.stores ++ stores;
    })

  -- `while (*cur)`, with a bound on its rounds.
  unfoldable pub run : Config → ℕ → Bytes → State S → Option (State S)
  run cfg zero cur st = none
  run cfg (suc fuel) cur st =
      let verbatim = run cfg fuel (advance cur) (putc (peek cur) st) in
      let next : Option (State S) = elim (parse_at cfg cur st.fs) [
        | none ↦ verbatim
        | some (fs, end) ↦ (do st' ← directive cfg fs st; run cfg fuel end st')
      ] in
      if peek cur == 0 then some st else next

  -- `npf_vpprintf`. The rounds are bounded by the length of the format, since each passes a byte.
  -- `fs` holds what the struct holds before it is first written.
  unfoldable pub vpprintf : Config → FormatSpec → S → Bytes → Args → Option (State S)
  vpprintf cfg fs ctx format args =
      run cfg (suc (length format)) format
        (record { ctx = ctx; fs = fs; npf_n = 0; args = args; stores = [] })
