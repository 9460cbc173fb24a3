-- ===== src/Examples/Processing.antt =====
-- Applications of the theorems on arm_data_processing.c.
use arm_sim.DataProcessing.Flags.{set_zn}
use arm_sim.Util.{clr_bit}
use arm_sim.DataProcessing.Flags.{carry_from}
use arm_sim.Util.{set_bit}
use arm_sim.Util.{switch_endian}
use arm_sim.Registers.{to_stored}
use arm_sim.Registers.{registers_read_cpsr}
use arm_sim.DataProcessing.Flags.{overflow_from}
use arm_sim.Base.{[], ◌≡◌, arith, refl, true, false, some}
use arm_sim.Util.{get_bit, get_bits}
use arm_sim.Core.{ArmCore}
use arm_sim.Core.File.{IsRegular, reg_at, cpsr_of}
use arm_sim.DataProcessing.{operate, update_flags, apply_operator}
use arm_sim.DataProcessing.Alu.{operate_arithmetic, operate_logical}
use arm_sim.DataProcessing.Update.{update_flags_bits, update_flags_overflow}
use arm_sim.DataProcessing.Effect.{apply_operator_effect}
use arm_sim.DataProcessing.Shifter.{
  shifted, get_shifter_operand_immediate_shift, get_shifter_operand_register_shift,
}
use arm_sim.DataProcessing.Barrel.{immediate_shift-eq-barrel}
use arm_sim.DataProcessing.WideShift.{register_shift-eq-barrel}
use arm_sim.Examples.{x86, at_branch, core_of-IsRegular, program_block}

-- SBC 5 - 3 with C clear is 1.
operate_arithmetic_example : (operate 6 5 3 true 0x13).rd_value ≡ 1
unfolding get_bit
operate_arithmetic_example = operate_arithmetic 6 5 3 0x13 true refl (omega arith) (omega arith)

-- BIC 0b1100, 0b0100 has bit 3 set.
operate_logical_example : get_bit (operate 14 12 4 false 0x13).rd_value 3 ≡ 1
unfolding get_bit
operate_logical_example =
    operate_logical 14 12 4 0x13 3 false refl (omega arith) (omega arith) (omega arith)

-- ADDS 0x7fffffff + 1: N is set, V is set, C is clear.
update_flags_bits_example :
    get_bit (update_flags (operate 4 0x7fffffff 1 true 0x13) 0x7fffffff 1 0 4 0x13) 31 ≡ 1
unfolding operate get_bit
update_flags_bits_example =
    update_flags_bits 4 0x7fffffff 1 0 0x13 0x13 true 31 (omega arith) (omega arith)

update_flags_overflow_example :
    get_bit (update_flags (operate 4 0x7fffffff 1 true 0x13) 0x7fffffff 1 0 4 0x13) 28 ≡ 1
unfolding get_bit
update_flags_overflow_example =
    update_flags_overflow 4 0x7fffffff 1 0 0x13 0x13 true (omega arith) (omega arith) refl

-- ADDS r0, r1, r2 on 0x7fffffff and 1.
apply_operator_effect_example :
    (p' : ArmCore) × (apply_operator x86 0xe0910002 1 0 true 0x13 at_branch ≡ some (0, p'))
    × (reg_at x86 p' 0 ≡ 0x80000000)
    × (cpsr_of p' ≡ 0x90000013)
    × (p'.mem ≡ some program_block)
    × (p'.out ≡ [])
    × IsRegular p'
unfolding operate update_flags get_bits cpsr_of reg_at overflow_from registers_read_cpsr to_stored
    get_bit switch_endian set_bit carry_from clr_bit set_zn
apply_operator_effect_example =
    apply_operator_effect x86 at_branch
      (core_of-IsRegular 0x00010000 (some program_block) (omega arith)) 0xe0910002 1 0 true 0
      (omega arith) (omega arith) refl

-- LSR #4 of 0x18.
immediate_shift-eq-barrel_example :
    get_shifter_operand_immediate_shift x86 4 1 0x18 0x13 ≡ shifted 1 1
immediate_shift-eq-barrel_example =
    immediate_shift-eq-barrel x86 4 1 0x18 0x13 (omega arith) (omega arith) (omega arith)

-- ASR by 40 of a negative word.
register_shift-eq-barrel_example :
    get_shifter_operand_register_shift x86 2 0x80000000 40 0x13 ≡ shifted 0xffffffff 1
register_shift-eq-barrel_example = register_shift-eq-barrel x86 2 0x80000000 40 0x13 (omega arith)
