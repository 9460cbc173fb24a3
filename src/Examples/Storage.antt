-- ===== src/Examples/Storage.antt =====
-- Applications of the theorems on memory.c and registers.c.
use arm_sim.Base.{◌≡◌, ◌↔◌, arith, refl, true, false, some, none}
use arm_sim.Util.{switch_endian}
use arm_sim.Memory.{
  MemoryData, memory_read_half, memory_read_word, memory_write_half, memory_write_word,
}
use arm_sim.Memory.Laws.{IsBlock}
use arm_sim.Memory.Access.{SameBut, read_word-write_word, straddling_faults}
use arm_sim.Registers.{
  registers_read, registers_write, put_cell, cell, get_read_write_mode, ptrs, cells, to_stored, fiq,
  irq, svc,
}
use arm_sim.Registers.Banks.{
  is_mode, same_bank, faults, registers_read-registers_write, access_faults_iff,
}
use arm_sim.Examples.{x86, program_block, program_block-IsBlock, file}

read_word-write_word_example :
    (m' : MemoryData) × (memory_write_word (some program_block) 0x200 0x11223344 false
      ≡ some (0, some m'))
    × IsBlock m'
    × (memory_read_word (some m') 0x200 0 false ≡ some (0, 0x11223344))
    × (memory_read_word (some m') 0x200 0 true ≡ some (0, switch_endian 0x11223344))
    × SameBut 0x200 4 program_block m'
read_word-write_word_example =
    read_word-write_word program_block 0x200 0x11223344 0 false program_block-IsBlock (omega arith)
      (omega arith)

straddling_faults_example :
    (memory_read_word (some program_block) 4094 7 true ≡ none)
    × (memory_write_word (some program_block) 4094 7 true ≡ none)
    × ((memory_read_half (some program_block) 4094 7 true ≡ none) ↔ (program_block.size ≡ 4095))
    × ((memory_write_half (some program_block) 4094 7 true ≡ none) ↔ (program_block.size ≡ 4095))
straddling_faults_example =
    straddling_faults program_block 4094 7 true (omega arith) (omega arith) (omega arith)

-- The stack pointer of IRQ mode written, that of SVC mode read.
registers_read-registers_write_example :
    registers_read x86 (put_cell (file 0) 13 5 0x78563412) 13 svc
    ≡ registers_read x86 (file 0) 13 svc
unfolding registers_write registers_read same_bank is_mode faults cell get_read_write_mode ptrs
    cells to_stored switch_endian
registers_read-registers_write_example =
    registers_read-registers_write x86 (file 0) (put_cell (file 0) 13 5 0x78563412) 13 13 irq svc
      0x12345678 (omega arith) (omega arith) refl refl refl (omega arith) refl

access_faults_iff_example :
    ((registers_read x86 (file 0) 13 fiq ≡ none) ↔ (faults 13 fiq ≡ true))
    × ((registers_write x86 (file 0) 13 fiq 5 ≡ none) ↔ (faults 13 fiq ≡ true))
unfolding is_mode
access_faults_iff_example = access_faults_iff x86 (file 0) 13 fiq 5 (omega arith) refl
