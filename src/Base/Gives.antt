-- ===== src/Base/Gives.antt =====
-- A postcondition of a run in `Option`.
use mathlib.Core.Option.{Option, none, some}
use mathlib.Core.Path.{◌≡◌, refl}
use mathlib.Core.Bool.{Bool, true, false}
use arm_sim.Base.Tests.{if◌then◌else◌}
use arm_sim.Base.Optional.{◌>>=◌}

-- If the run has a result, it satisfies `P`.
abbrev pub Gives {ℓ} : {A : Type ℓ} → (A → Type 0) → Option A → Type 0
Gives P none = Unit
Gives P (some a) = P a

-- The same as a record, for proofs that follow the text of a run.
pub record Meets {ℓ} {A : Type ℓ} (Q : A → Type 0) (o : Option A) : Type 0 where
  pub meets : Gives Q o

module _ {ℓ κ} {A : Type ℓ} {B : Type κ} (Q : B → Type 0) where
  pub Meets-bind :
      {P : A → Type 0} (o : Option A) (f : A → Option B)
      → Meets P o
      → ((a : A) → P a → Meets Q (f a))
      → Meets Q (o >>= f)
  Meets-bind none f g k = record { meets = tt }
  Meets-bind (some a) f g k = k a g.meets

  -- The first part gives something that `Q` is not about.
  pub Meets-after :
      (o : Option A) (f : A → Option B) → ((a : A) → Meets Q (f a)) → Meets Q (o >>= f)
  Meets-after none f k = record { meets = tt }
  Meets-after (some a) f k = k a

module _ {ℓ} {B : Type ℓ} (Q : B → Type 0) where
  pub Meets-if :
      (b : Bool) (x y : Option B)
      → (b ≡ true → Meets Q x)
      → (b ≡ false → Meets Q y)
      → Meets Q (if b then x else y)
  Meets-if true x y gx gy = gx refl
  Meets-if false x y gx gy = gy refl

  pub Meets-none : Meets Q none
  Meets-none = record { meets = tt }

  pub Meets-some : (b : B) → Q b → Meets Q (some b)
  Meets-some b q = record { meets = q }

pub Meets-weaken {ℓ} :
    {B : Type ℓ} {P Q : B → Type 0} (o : Option B) → ((b : B) → P b → Q b) → Meets P o → Meets Q o
Meets-weaken none k g = record { meets = tt }
Meets-weaken (some b) k g = record { meets = k b g.meets }
