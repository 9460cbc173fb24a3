-- ===== src/Exception/Entry.antt =====
-- arm_exception.c: the state that a reset leaves.
use arm_sim.Base.{ℕ, ◌<◌, ◌%◌, ◌^◌, ◌≡◌, ◌∙◌, ap, arith, refl, some, true, false}
use arm_sim.Base.{◌==◌}
use arm_sim.Host.{Host}
use arm_sim.Registers.{registers_get_mode, registers_write_cpsr, fiq}
use arm_sim.Registers.Banks.{is_mode}
use arm_sim.Core.{ArmCore}
use arm_sim.Core.File.{
  IsRegular, put_cpsr, put_reg, cpsr_of, mode_of, cpsr_of-put_cpsr, cpsr_of-put_reg, reg_at,
  reg_at-put_reg, put_reg-IsRegular, arm_write_cpsr-eq, arm_write_register-eq,
}
use arm_sim.BranchOther.{pc, reset}
use arm_sim.Exception.{reset_cpsr, reset_exception, arm_exception}

pub mode-switch : (p : ArmCore) (v : ℕ) → registers_get_mode (put_cpsr v p).reg ≡ v % 2 ^ 6
mode-switch p v = mode_of (put_cpsr v p) ∙ ap (λ (t : ℕ). t % 2 ^ 6) (cpsr_of-put_cpsr p v)

-- The CPSR may switch to any legal mode but FIQ.
pub switch-IsRegular :
    (p : ArmCore) (v : ℕ)
    → is_mode (v % 2 ^ 6) ≡ true
    → (v % 2 ^ 6 == fiq) ≡ false
    → v < 2 ^ 32
    → ((i c : ℕ) → p.reg.data_of i c < 2 ^ 32)
    → IsRegular (put_cpsr v p)
switch-IsRegular p v mode not_fiq hv words = record {
  known_mode = rw (mode-switch p v) mode;
  not_fiq = rw (mode-switch p v) not_fiq;
  words = λ j c. unfold put_cpsr registers_write_cpsr in ground (arith, words j c);
}

module _ (host : Host) (p : ArmCore) (words : (i c : ℕ) → p.reg.data_of i c < 2 ^ 32) where
  abbrev switched : ArmCore
  switched = put_cpsr reset_cpsr p

  switched-IsRegular : IsRegular switched
  unfolding is_mode
  switched-IsRegular = switch-IsRegular p reset_cpsr refl refl (omega arith) words

  -- RESET, from any mode and even from a CPSR that names none: the exception returns 1, the CPSR
  -- becomes 0x153, the pc 0, and the memory and the output stay. The core is regular again.
  pub arm_exception_resets :
      (p' : ArmCore) × (arm_exception host reset p ≡ some (reset, p'))
      × (cpsr_of p' ≡ reset_cpsr)
      × (reg_at host p' pc ≡ 0)
      × (p'.mem ≡ p.mem)
      × (p'.out ≡ p.out)
      × IsRegular p'
  unfolding arm_exception reset_exception
  arm_exception_resets = (
    put_reg host pc 0 switched,
    ground (
      arith,
      arm_write_cpsr-eq p reset_cpsr,
      arm_write_register-eq host switched switched-IsRegular pc (omega arith) 0,
    ),
    ground (arith, cpsr_of-put_reg host switched pc 0 (omega arith), cpsr_of-put_cpsr p reset_cpsr),
    ground (
      arith,
      reg_at-put_reg host switched switched-IsRegular pc (omega arith) 0 pc (omega arith)
          (omega arith),
    ),
    unfold put_reg put_cpsr in refl,
    unfold put_reg put_cpsr in refl,
    put_reg-IsRegular host switched switched-IsRegular pc (omega arith) 0 (omega arith),
  )
