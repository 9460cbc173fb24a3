-- ===== src/Core/Fetch.antt =====
-- arm_core.c: what a fetch, a load and a store do to the core.
use arm_sim.Base.{ℕ, ◌<◌, ◌≡◌, ◌∙◌, arith, refl, some}
use arm_sim.Base.{◌==◌, if◌then◌else◌}
use arm_sim.Host.{Host}
use arm_sim.Util.{add32}
use arm_sim.Registers.{registers_get_mode, registers_read, registers_write}
use arm_sim.Memory.{memory_read_word}
use arm_sim.Core.{ArmCore, arm_fetch}
use arm_sim.Core.File.{
  IsRegular, reg_at, put_reg, sound_cell, cpsr_of, cpsr_of-put_reg, put_reg-IsRegular,
  reg_at-put_reg,
}

-- The pc moved past the instruction, and the cycle counted.
unfoldable pub fetched : Host → ArmCore → ArmCore
fetched host p = record (put_reg host 15 (add32 (reg_at host p 15) 4) p) {
  cycle_count = add32 p.cycle_count 1;
}

module _ (host : Host) (p : ArmCore) (w : IsRegular p) where
  -- On a regular core a fetch reads the word at the pc, with the code of that read, and leaves the
  -- pc 4 further and the cycle count 1 higher, also where the read fails.
  pub arm_fetch-eq :
      (old : ℕ) {r : ℕ × ℕ}
      → memory_read_word p.mem (reg_at host p 15) old host.endianess ≡ some r
      → arm_fetch host old p ≡ some (r, fetched host p)
  unfolding arm_fetch registers_read registers_write reg_at put_reg fetched
  arm_fetch-eq old {r} e =
      let c = sound_cell 15 (registers_get_mode p.reg) (omega arith) w.known_mode w.not_fiq in
      ground (arith, c, e)

  pub fetched-IsRegular : IsRegular (fetched host p)
  unfolding fetched
  fetched-IsRegular =
      let q =
        put_reg-IsRegular host p w 15 (omega arith) (add32 (reg_at host p 15) 4) (omega arith) in
      record { known_mode = q.known_mode; not_fiq = q.not_fiq; words = q.words }

  pub reg_at-fetched :
      (j : ℕ)
      → j < 16
      → reg_at host (fetched host p) j
        ≡ (if j == 15 then add32 (reg_at host p 15) 4 else reg_at host p j)
  unfolding fetched
  reg_at-fetched j h = ground (
    arith,
    same j,
    reg_at-put_reg host p w 15 (omega arith) (add32 (reg_at host p 15) 4) j (omega arith) h,
  )
    where
      same :
          (j : ℕ)
          → reg_at host (fetched host p) j
            ≡ reg_at host (put_reg host 15 (add32 (reg_at host p 15) 4) p) j
      same j = unfold reg_at in refl

  pub cpsr_of-fetched : cpsr_of (fetched host p) ≡ cpsr_of p
  unfolding fetched
  cpsr_of-fetched = same ∙ cpsr_of-put_reg host p 15 (add32 (reg_at host p 15) 4) (omega arith)
    where
      same : cpsr_of (fetched host p) ≡ cpsr_of (put_reg host 15 (add32 (reg_at host p 15) 4) p)
      same = unfold cpsr_of in refl
