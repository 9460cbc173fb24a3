-- ===== src/Examples/Stack.antt =====
-- Applications of the theorems on registers that are pushed and popped.
use arm_sim.LoadStore.Multiple.{span}
use arm_sim.Registers.{registers_read_cpsr}
use arm_sim.Util.{switch_endian}
use arm_sim.Registers.{to_stored}
use arm_sim.LoadStore.{u_bit_handle}
use arm_sim.Base.{ℕ, ◌<◌, ◌==◌, ◌||◌, none, if◌then◌else◌, ◌≡◌, arith, refl, some}
use arm_sim.Util.{get_bit, get_bits}
use arm_sim.Core.{ArmCore, as_read}
use arm_sim.Core.File.{IsRegular, reg_at, put_reg, put_reg-IsRegular, cpsr_of}
use arm_sim.LoadStore.{
  arm_load_store_immediate_offset, arm_load_store_register_offset, shifted_offset,
}
use arm_sim.LoadStore.Multiple.{arm_load_store_multiple, count_bits}
use arm_sim.LoadStore.Multiple.RoundTrip.{IsPush, IsPop, arm_load_store_multiple_restores}
use arm_sim.Memory.{MemoryData}
use arm_sim.Registers.{irq, registers_read_spsr}
use arm_sim.Examples.{x86, at_branch, core_of-IsRegular, program_block, program_block-IsBlock}
use arm_sim.Core.File.{reg_at-put_reg}

IsRegular-at_branch : IsRegular at_branch
IsRegular-at_branch = core_of-IsRegular 0x00010000 (some program_block) (omega arith)

-- STMDB r0!, {r1, r2} with r0 = 0x200, then r1 := 5, then LDMIA r0!, {r1, r2}.
abbrev before_push : ArmCore
before_push = put_reg x86 0 0x200 at_branch

abbrev pushed : ArmCore
pushed = elim (arm_load_store_multiple x86 0xe9200006 before_push) [
  | none ↦ at_branch
  | some (code, p) ↦ p
]

abbrev before_pop : ArmCore
before_pop = put_reg x86 1 5 pushed

IsRegular-before_push : IsRegular before_push
IsRegular-before_push =
    put_reg-IsRegular x86 at_branch IsRegular-at_branch 0 (omega arith) 0x200 (omega arith)

is_push : IsPush 0xe9200006 0 6
unfolding get_bits get_bit
is_push = record {
  base = refl;
  registers = refl;
  before = refl;
  down = refl;
  writes_back = refl;
  stores = refl;
}

is_pop : IsPop 0xe8b00006 0 6
unfolding get_bits get_bit
is_pop = record {
  base = refl;
  registers = refl;
  after = refl;
  up = refl;
  plain = refl;
  writes_back = refl;
  loads = refl;
}

runs_push : arm_load_store_multiple x86 0xe9200006 before_push ≡ some (0, pushed)
unfolding arm_load_store_multiple arm_sim.Core.arm_read_register arm_sim.Registers.registers_read
    arm_sim.Registers.cell get_bits arm_sim.Registers.ptrs arm_sim.Registers.cells
    arm_sim.LoadStore.Multiple.transfer_loop get_bit arm_sim.LoadStore.Multiple.transfer_one
    arm_sim.Core.arm_write_word arm_sim.Memory.memory_write_word put_reg span to_stored
    switch_endian count_bits arm_sim.Core.arm_read_register_internal arm_sim.Core.arm_write_register
    arm_sim.Core.arm_write_register_internal arm_sim.Core.current_mode arm_sim.Memory.poke
    arm_sim.Registers.get_read_write_mode arm_sim.Registers.registers_get_mode
    arm_sim.Registers.registers_write
runs_push = refl

IsRegular-pushed : IsRegular pushed
unfolding arm_load_store_multiple arm_sim.Core.arm_read_register arm_sim.Registers.registers_read
    arm_sim.Registers.cell get_bits arm_sim.Registers.ptrs arm_sim.Registers.cells
    arm_sim.LoadStore.Multiple.transfer_loop get_bit arm_sim.LoadStore.Multiple.transfer_one
    arm_sim.Core.arm_write_word arm_sim.Memory.memory_write_word put_reg span to_stored
    switch_endian count_bits arm_sim.Core.arm_read_register_internal arm_sim.Core.arm_write_register
    arm_sim.Core.arm_write_register_internal arm_sim.Core.current_mode arm_sim.Memory.poke
    arm_sim.Registers.get_read_write_mode arm_sim.Registers.registers_get_mode
    arm_sim.Registers.registers_write arm_sim.Registers.Banks.is_mode
IsRegular-pushed = record { known_mode = refl; not_fiq = refl; words = λ i c. ground arith }

mem-before_push : before_push.mem ≡ some program_block
unfolding put_reg
mem-before_push = refl

mem-before_pop : before_pop.mem ≡ pushed.mem
unfolding put_reg
mem-before_pop = refl

base_before : reg_at x86 before_push 0 ≡ 0x200
base_before =
    reg_at-put_reg x86 at_branch IsRegular-at_branch 0 (omega arith) 0x200 0 (omega arith)
      (omega arith)

base_kept : reg_at x86 before_pop 0 ≡ reg_at x86 pushed 0
base_kept =
    reg_at-put_reg x86 pushed IsRegular-pushed 1 (omega arith) 5 0 (omega arith) (omega arith)

two_listed : count_bits 6 16 0 ≡ 2
unfolding count_bits get_bit
two_listed = refl

no_pc : get_bit 6 15 ≡ 0
unfolding get_bit
no_pc = refl

arm_load_store_multiple_restores_example :
    (r' : ArmCore) × (arm_load_store_multiple x86 0xe8b00006 before_pop ≡ some (0, r'))
    × ((j : ℕ)
        → j < 16
        → reg_at x86 r' j ≡ (
            if 0 == j || get_bit 6 j == 1
            then reg_at x86 before_push j
            else reg_at x86 before_pop j))
    × (cpsr_of r' ≡ cpsr_of before_pop)
    × (r'.mem ≡ before_pop.mem)
arm_load_store_multiple_restores_example =
    arm_load_store_multiple_restores x86 before_push IsRegular-before_push program_block
      program_block-IsBlock mem-before_push (omega arith) 0 6 (omega arith) 0xe9200006 0xe8b00006
      pushed before_pop is_push is_pop no_pc (omega (arith, base_before, two_listed))
      (omega (arith, base_before)) runs_push
      (put_reg-IsRegular x86 pushed IsRegular-pushed 1 (omega arith) 5 (omega arith)) mem-before_pop
      base_kept
