-- ===== src/Examples/Transfers.antt =====
-- Applications of the theorems on arm_load_store.c and on the IRQ entry.
use arm_sim.LoadStore.Multiple.{span}
use arm_sim.Registers.{registers_read_cpsr}
use arm_sim.Util.{switch_endian}
use arm_sim.Registers.{to_stored}
use arm_sim.LoadStore.{u_bit_handle}
use arm_sim.Base.{ℕ, ◌+◌, ◌*◌, ◌<◌, ◌==◌, ◌&&◌, if◌then◌else◌, ◌≡◌, arith, refl, false, some}
use arm_sim.Util.{get_bit, get_bits}
use arm_sim.Memory.Laws.{stored_word, word_at, IsBlock}
use arm_sim.Core.{ArmCore, as_read}
use arm_sim.Core.File.{IsRegular, reg_at, put_reg, cpsr_of}
use arm_sim.LoadStore.{
  arm_load_store_immediate_offset, arm_load_store_register_offset, shifted_offset,
}
use arm_sim.LoadStore.Handlers.{
  arm_load_store_immediate_offset_loads, arm_load_store_immediate_offset_stores,
}
use arm_sim.LoadStore.RegisterOffset.{arm_load_store_register_offset_loads}
use arm_sim.LoadStore.Multiple.{arm_load_store_multiple, count_bits}
use arm_sim.LoadStore.Multiple.LoadLoop.{word_for}
use arm_sim.LoadStore.Multiple.Loads.{arm_load_store_multiple_loads}
use arm_sim.LoadStore.Multiple.Stores.{arm_load_store_multiple_stores}
use arm_sim.LoadStore.Single.{with_memory}
use arm_sim.Memory.{MemoryData}
use arm_sim.Memory.Access.{SameBut}
use arm_sim.LoadStore.Scaled.{shifted_offset-eq-barrel, signed_load-eq-extended}
use arm_sim.LoadStore.Miscellaneous.{signed_load}
use arm_sim.Registers.{irq, registers_read_spsr}
use arm_sim.Exception.{irq_cpsr, arm_exception}
use arm_sim.Exception.IrqEntry.{arm_exception_interrupts}
use arm_sim.Examples.{x86, at_branch, core_of-IsRegular, program_block, program_block-IsBlock}

IsRegular-at_start : IsRegular at_branch
IsRegular-at_start = core_of-IsRegular 0x00010000 (some program_block) (omega arith)

-- LDR r3, [r2, #0xff].
arm_load_store_immediate_offset_loads_example :
    (p' : ArmCore) × (arm_load_store_immediate_offset x86 0xe59230ff at_branch ≡ some (0, p'))
    × (reg_at x86 p' 3 ≡ 0xeb000001)
    × (cpsr_of p' ≡ cpsr_of at_branch)
    × (p'.mem ≡ some program_block)
    × IsRegular p'
unfolding get_bits get_bit u_bit_handle reg_at to_stored switch_endian
arm_load_store_immediate_offset_loads_example =
    arm_load_store_immediate_offset_loads x86 at_branch IsRegular-at_start 0xe59230ff program_block
      program_block-IsBlock refl refl 3 (omega arith) refl (omega arith)

-- STR r1, [r2, #0x1ff]!.
arm_load_store_immediate_offset_stores_example :
    (p' : ArmCore) × (arm_load_store_immediate_offset x86 0xe5a211ff at_branch ≡ some (0, p'))
    × (reg_at x86 p' 2 ≡ 0x200)
    × (cpsr_of p' ≡ cpsr_of at_branch)
    × (p'.mem ≡ some (stored_word program_block 0x200 0x7fffffff false))
    × IsRegular p'
unfolding get_bits get_bit u_bit_handle reg_at to_stored switch_endian
arm_load_store_immediate_offset_stores_example =
    arm_load_store_immediate_offset_stores x86 at_branch IsRegular-at_start 0xe5a211ff program_block
      program_block-IsBlock refl refl 2 (omega arith) refl (omega arith)

-- LDR r3, [r2, r2, LSL #8].
arm_load_store_register_offset_loads_example :
    (p' : ArmCore) × (arm_load_store_register_offset x86 0xe7923402 at_branch ≡ some (0, p'))
    × (reg_at x86 p' 3 ≡ 0x01eb0000)
    × (cpsr_of p' ≡ cpsr_of at_branch)
    × (p'.mem ≡ some program_block)
    × IsRegular p'
unfolding get_bits get_bit u_bit_handle reg_at to_stored switch_endian shifted_offset
arm_load_store_register_offset_loads_example =
    arm_load_store_register_offset_loads x86 at_branch IsRegular-at_start 0xe7923402 program_block
      program_block-IsBlock refl 3 (omega arith) refl refl refl (omega arith)

-- ASR #4 of a negative offset.
shifted_offset-eq-barrel_example : shifted_offset x86 2 4 1 0xfffffff0 0x13 ≡ 0xffffffff
shifted_offset-eq-barrel_example =
    shifted_offset-eq-barrel x86 2 4 1 0xfffffff0 0x13 (omega arith) (omega arith) (omega arith)

signed_load-eq-extended_example :
    (signed_load 7 0x80 ≡ 0xffffff80) × (signed_load 15 0x7fff ≡ 0x7fff)
signed_load-eq-extended_example = signed_load-eq-extended 0x80 0x7fff (omega arith) (omega arith)

-- The pc of `at_branch` reads as 0x104.
arm_exception_interrupts_example :
    (p' : ArmCore) × (arm_exception x86 4 at_branch ≡ some (4, p'))
    × (reg_at x86 p' 14 ≡ 0x104)
    × (cpsr_of p' ≡ irq_cpsr (cpsr_of at_branch))
    × (registers_read_spsr x86 p'.reg irq ≡ some (cpsr_of at_branch))
    × (p'.mem ≡ some program_block)
    × IsRegular p'
unfolding get_bit cpsr_of registers_read_cpsr reg_at to_stored switch_endian
arm_exception_interrupts_example =
    arm_exception_interrupts x86 at_branch IsRegular-at_start 14 (omega arith) refl

-- LDMDB pc, {r3, r4}: the pc of `at_branch` reads as 0x104, so r4 gets the word at 0x100.
arm_load_store_multiple_loads_example :
    (p' : ArmCore) × (arm_load_store_multiple x86 0xe91f0018 at_branch ≡ some (0, p'))
    × ((j : ℕ)
        → j < 16
        → reg_at x86 p' j ≡ (
            if get_bit 0xe91f0018 21 == 1 && 15 == j
            then 0xfc
            else if get_bit 0x18 j == 1
            then word_for x86 program_block j (0xfc + 4 * count_bits 0x18 j 0)
            else reg_at x86 at_branch j))
    × (cpsr_of p' ≡ cpsr_of at_branch)
    × (p'.mem ≡ some program_block)
    × (p'.out ≡ at_branch.out)
    × IsRegular p'
unfolding get_bits get_bit span reg_at to_stored switch_endian count_bits
arm_load_store_multiple_loads_example =
    arm_load_store_multiple_loads x86 at_branch IsRegular-at_start program_block
      program_block-IsBlock refl (omega arith) 0xe91f0018 refl refl (omega arith)

-- STMDB pc, {r1, r2}.
arm_load_store_multiple_stores_example :
    (m' : MemoryData) × (arm_load_store_multiple x86 0xe90f0006 at_branch
      ≡ some (
        0,
        if get_bit 0xe90f0006 21 == 1
            then put_reg x86 15 0xfc (with_memory m' at_branch)
            else with_memory m' at_branch,
      ))
    × ((j : ℕ)
        → j < 16
        → get_bit 6 j ≡ 1
        → word_at m' (0xfc + 4 * count_bits 6 j 0) false ≡ as_read j (reg_at x86 at_branch j))
    × SameBut 0xfc 8 program_block m'
    × IsBlock m'
unfolding get_bits get_bit span reg_at to_stored switch_endian count_bits
arm_load_store_multiple_stores_example =
    arm_load_store_multiple_stores x86 at_branch IsRegular-at_start program_block
      program_block-IsBlock refl (omega arith) 0xe90f0006 refl (omega arith)
