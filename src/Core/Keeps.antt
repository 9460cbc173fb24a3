-- ===== src/Core/Keeps.antt =====
-- arm_core.c: what a run keeps of the machine, one rule for each way to build a run.
use arm_sim.Base.{ℕ, ◌^◌, ◌<◌, ◌≡◌, refl, Bool, true, false, Option, none, some, List, [], ◌∷◌}
use arm_sim.Base.{if◌then◌else◌}
use arm_sim.Base.Gives.{Gives}
use arm_sim.Memory.Bytes.{HoldsBytes}
use arm_sim.Registers.Words.{HoldsWords}
use arm_sim.Core.{ArmCore, M, resume, pure, ◌>>=◌, ◌>>◌, lift}

abbrev pub AllWords : List ℕ → Type 0
AllWords [] = Unit
AllWords (x ∷ xs) = (x < 2 ^ 32) × AllWords xs

-- The cells of the registers, the cycle count and the numbers to come on the input are words, and the
-- memory holds bytes.
pub record IsMachine (p : ArmCore) : Type 0 where
  pub words : HoldsWords p.reg
  pub cycles : p.cycle_count < 2 ^ 32
  pub block : HoldsBytes p.mem
  pub numbers : AllWords p.inp

-- A run from a machine, if it has a result, ends in a machine with a result that satisfies `Q`.
abbrev pub Ends {ℓ} : {A : Type ℓ} → (A → Type 0) → Option (A × ArmCore) → Type 0
Ends Q none = Unit
Ends Q (some (a, p)) = Q a × IsMachine p

pub record Keeps {A : Type 0} (Q : A → Type 0) (m : M A) : Type 0 where
  pub at : (p : ArmCore) → IsMachine p → Ends Q (m p)

abbrev pub Any : {A : Type 0} → A → Type 0
Any a = Unit {0}

module _ {A : Type 0} {Q : A → Type 0} where
  pub Keeps-pure : (a : A) → Q a → Keeps Q (pure a)
  Keeps-pure a q = record { at = λ p w. (q, w) }

  pub Keeps-if :
      (b : Bool) (m n : M A)
      → (b ≡ true → Keeps Q m)
      → (b ≡ false → Keeps Q n)
      → Keeps Q (if b then m else n)
  Keeps-if true m n km kn = km refl
  Keeps-if false m n km kn = kn refl

  pub Keeps-lift : (r : Option A) → Gives Q r → Keeps Q (lift r)
  Keeps-lift none q = record { at = λ p w. tt }
  Keeps-lift (some a) q = record { at = λ p w. (q, w) }

module _ {A B : Type 0} {P : A → Type 0} {Q : B → Type 0} where
  after_run :
      (f : A → M B) (r : Option (A × ArmCore))
      → Ends P r
      → ((a : A) → P a → Keeps Q (f a))
      → Ends Q (resume f r)
  after_run f none e k = tt
  after_run f (some (a, p)) e k = (k a e.0).at p e.1

  pub Keeps-bind :
      (m : M A) (f : A → M B) → Keeps P m → ((a : A) → P a → Keeps Q (f a)) → Keeps Q (m >>= f)
  Keeps-bind m f km k = record { at = λ p w. after_run f (m p) (km.at p w) k }

pub Keeps-then :
    {B : Type 0} {Q : B → Type 0} (m : M (Unit {0})) (n : M B)
    → Keeps Any m
    → Keeps Q n
    → Keeps Q (m >> n)
Keeps-then m n km kn = Keeps-bind m (λ _. n) km (λ _ _. kn)
