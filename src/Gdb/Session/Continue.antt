-- ===== src/Gdb/Session/Continue.antt =====
-- gdb_protocol.c: the loop of `cont` as a sequence of steps.
use arm_sim.Base.{ℕ, suc, ◌<◌, ◌≡◌, ◌≢◌, ◌⊎◌, Bool, true, false, Option, some}
use arm_sim.Host.{Host}
use arm_sim.Registers.{registers_get_mode, registers_read}
use arm_sim.Gdb.Session.{Session, single_step}

-- The session stands at `pc`.
abbrev pub IsAt : Host → Session → ℕ → Type 0
IsAt host s pc = registers_read host s.core.reg 15 (registers_get_mode s.core.reg) ≡ some pc

-- `Going host marked n s t`: from `s`, `n` steps that raise no exception and end at no marked
-- address, and one that raises one or ends at one, in `t`.
pub data Going (host : Host) (marked : ℕ → Bool) : ℕ → Session → Session → Type 0 where
  last :
      {s t : Session} {pc : ℕ}
      → single_step host s ≡ some t
      → IsAt host t pc
      → (marked pc ≡ true) ⊎ (t.target_exception ≢ 0)
      → Going host marked 0 s t
  more :
      {n : ℕ} {s s₁ t : Session} {pc : ℕ}
      → single_step host s ≡ some s₁
      → IsAt host s₁ pc
      → marked pc ≡ false
      → s₁.target_exception ≡ 0
      → Going host marked n s₁ t
      → Going host marked (suc n) s t

pub record Stops (host : Host) (marked : ℕ → Bool) (fuel : ℕ) (s t : Session) : Type 0 where
  pub passed : ℕ
  pub in_time : passed < fuel
  pub going : Going host marked passed s t

-- What the test after a step says, by its answer.
abbrev Decides : Host → (ℕ → Bool) → Session → Bool → Type 0
Decides host marked s true =
    (pc : ℕ) × IsAt host s pc × ((marked pc ≡ true) ⊎ (s.target_exception ≢ 0))
Decides host marked s false =
    (pc : ℕ) × IsAt host s pc × (marked pc ≡ false) × (s.target_exception ≡ 0)
