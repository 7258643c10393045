-- ===== src/Printf/Whole.antt =====
-- Calls whose format is one directive.
use nanoprintf.Base.{ℕ, ◌+◌, ◌%◌, ◌^◌, ◌≡◌, refl, ap, some, [], ◌∷◌, foldl, length, arith, List}
use nanoprintf.Base.Bytes.{Bytes}
use nanoprintf.Config.{Config}
use nanoprintf.Spec.{FormatSpec}
use nanoprintf.Args.{Args}
use nanoprintf.Directive.{prepare}
use nanoprintf.Convert.{Store, Piece, convert}
use nanoprintf.Emit.{spec_len}
use nanoprintf.Emit.Layout.{layout, emit-layout}
use nanoprintf.Emit.Length.{length-layout}
use nanoprintf.Printf.{add_int, parse_at, directive, run, vpprintf}

module _ {ℓ} {S : Type ℓ} (pc : S → ℕ → S) (cfg : Config) where
  -- The stages of a directive that is the whole format, put together.
  pub vpprintf_whole :
      (fs : FormatSpec) (ctx : S) (format : Bytes) (args : Args) {fs0 fs1 : FormatSpec}
      {args1 args2 : Args} {p : Piece} {stores : List Store} {out : Bytes}
      → parse_at cfg (b'%' ∷ format) fs ≡ some (fs0, [])
      → prepare cfg fs0 args ≡ some (fs1, args1)
      → convert cfg fs1 0 args1 ≡ some (p, args2, stores)
      → layout cfg p ≡ out
      → vpprintf pc cfg fs ctx (b'%' ∷ format) args
        ≡ some (record {
          ctx = foldl pc ctx out;
          fs = p.fs;
          npf_n = length out % 2 ^ 32;
          args = args2;
          stores = stores;
        })
  unfolding vpprintf run directive add_int
  vpprintf_whole fs ctx format args {p = p} {out = out} parsed prepared converted t =
      let n : (0 + spec_len cfg p) % 2 ^ 32 ≡ length out % 2 ^ 32 =
        omega (arith, length-layout cfg p, ap length t) in
      rw (parsed, prepared, converted, emit-layout pc cfg p ctx, t, n) refl
