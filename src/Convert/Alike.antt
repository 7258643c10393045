-- ===== src/Convert/Alike.antt =====
-- What two conversions have in common that read the same parts of their structs.
use nanoprintf.Base.{◌≡◌, refl, Option, some, none, [], List, ◌>>=◌}
use nanoprintf.Base.Both.{Both, >>=-Both}
use nanoprintf.Config.{Config}
use nanoprintf.Args.{Args}
use nanoprintf.Directive.Fresh.{Ready}
use nanoprintf.Convert.{Store, Piece}

-- Two pieces are written alike.
pub record SamePiece (cfg : Config) (p q : Piece) : Type 0 where
  pub ready : Ready cfg p.fs q.fs
  pub payload : p.payload ≡ q.payload
  pub sign_c : p.sign_c ≡ q.sign_c
  pub need_0x : p.need_0x ≡ q.need_0x
  pub zero_value : p.zero_value ≡ q.zero_value

abbrev pub AlikePiece : Config → Piece × Args → Piece × Args → Type 0
AlikePiece cfg (p, x) (q, y) = SamePiece cfg p q × (x ≡ y)

abbrev pub AlikeConvert : Config → Piece × Args × List Store → Piece × Args × List Store → Type 0
AlikeConvert cfg (p, x, s) (q, y, t) = SamePiece cfg p q × (x ≡ y) × (s ≡ t)

-- A conversion that stores nothing.
abbrev storeless : Option (Piece × Args) → Option (Piece × Args × List Store)
storeless r = do (p, rest) ← r; some (p, rest, [])

pub storeless-Both :
    (cfg : Config) (r s : Option (Piece × Args))
    → Both (AlikePiece cfg) r s
    → Both (AlikeConvert cfg) (storeless r) (storeless s)
storeless-Both cfg r s k =
    >>=-Both (AlikePiece cfg) (AlikeConvert cfg) r s _ _ k (λ (p, x) (q, y) (e, f). (e, f, refl))

-- A piece made of an argument that both take.
pub taken :
    {A : Type 0} (cfg : Config) (r : Option (A × Args)) (f g : A → Piece)
    → ((x : A) → SamePiece cfg (f x) (g x))
    → Both
        (AlikePiece cfg)
        (do (x, rest) ← r; some (f x, rest))
        (do (x, rest) ← r; some (g x, rest))
taken cfg none f g h = tt
taken cfg (some (x, rest)) f g h = (h x, refl)
