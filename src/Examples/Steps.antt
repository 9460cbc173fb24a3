-- ===== src/Examples/Steps.antt =====
-- Applications of the theorems on arm_instruction.c, arm_branch_other.c and arm_exception.c.
use arm_sim.Registers.{registers_read_cpsr}
use arm_sim.Util.{switch_endian}
use arm_sim.Registers.{to_stored}
use arm_sim.Base.{◌≡◌, ◌↔◌, arith, refl, some}
use arm_sim.Util.{get_bit, get_bits}
use arm_sim.Core.{ArmCore}
use arm_sim.Core.File.{IsRegular, reg_at, cpsr_of}
use arm_sim.Core.Fetch.{fetched}
use arm_sim.Base.{not, ◌&&◌, ◌==◌, false}
use arm_sim.Instruction.{flag_cond, arm_step}
use arm_sim.Instruction.Condition.{manual_passes, flag_cond-iff-manual}
use arm_sim.Instruction.Step.{arm_step_branches, arm_step_skips, arm_step_resets}
use arm_sim.Examples.{
  x86, at_branch, at_skipped, past_end, core_of-IsRegular, program_block, program_block-IsBlock,
}

IsRegular-at_branch : IsRegular at_branch
IsRegular-at_branch = core_of-IsRegular 0x00010000 (some program_block) (omega arith)

IsRegular-at_skipped : IsRegular at_skipped
IsRegular-at_skipped = core_of-IsRegular 0x04010000 (some program_block) (omega arith)

IsRegular-past_end : IsRegular past_end
IsRegular-past_end = core_of-IsRegular 0x00100000 (some program_block) (omega arith)

-- LS with C clear and Z clear.
flag_cond-iff-manual_example :
    (flag_cond 9 0x13 ≡ manual_passes 9 0x13) ↔ ((9 == 9 && not (get_bit 0x13 29 == 1)) ≡ false)
flag_cond-iff-manual_example = flag_cond-iff-manual 9 0x13 (omega arith)

arm_step_branches_example :
    (p' : ArmCore) × (arm_step x86 at_branch ≡ some (0, p'))
    × (reg_at x86 p' 14 ≡ 0x104)
    × (cpsr_of p' ≡ cpsr_of at_branch)
    × (p'.mem ≡ some program_block)
    × IsRegular p'
unfolding reg_at flag_cond to_stored switch_endian get_bits get_bit
arm_step_branches_example =
    arm_step_branches x86 at_branch IsRegular-at_branch program_block program_block-IsBlock refl
      (omega arith) 14 (omega arith) refl refl refl

arm_step_skips_example : arm_step x86 at_skipped ≡ some (0, fetched x86 at_skipped)
unfolding reg_at flag_cond to_stored switch_endian get_bits get_bit cpsr_of registers_read_cpsr
arm_step_skips_example =
    arm_step_skips x86 at_skipped IsRegular-at_skipped program_block program_block-IsBlock refl
      (omega arith) refl

arm_step_resets_example :
    (p' : ArmCore) × (arm_step x86 past_end ≡ some (1, p'))
    × (cpsr_of p' ≡ 0x153)
    × (reg_at x86 p' 15 ≡ 0)
unfolding reg_at to_stored switch_endian
arm_step_resets_example = arm_step_resets x86 past_end IsRegular-past_end (omega arith)
