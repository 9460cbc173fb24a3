-- ===== src/Examples.antt =====
-- A processor in SVC mode on a little-endian machine, with a small program in memory: the state
-- for the runs and the applications of the theorems.
mod Storage
mod Processing
mod Steps
mod Stack
mod Transfers
mod Debugger
mod Programs
use arm_sim.Base.{
  ℕ, ◌+◌, ◌*◌, ◌%◌, ◌^◌, ◌<◌, ◌≡◌, arith, refl, ◌==◌, if◌then◌else◌, false, some, none, [],
}
use arm_sim.Host.{Host}
use arm_sim.Util.{get_bits}
use arm_sim.Memory.{MemoryData, Memory}
use arm_sim.Memory.Laws.{IsBlock}
use arm_sim.Registers.{Registers, registers_get_mode}
use arm_sim.Registers.Banks.{is_mode}
use arm_sim.Core.{ArmCore}
use arm_sim.Core.File.{IsRegular}

abbrev pub x86 : Host
x86 = record {
  is_big_endian = false;
  endianess = false;
  wide_shl = λ x k. x * 2 ^ (k % 32) % 2 ^ 32;
  uninit = 0;
}

-- At 0x100 the word 0xeb000001 (BL to 0x10c), at 0x104 0x0a000001 (BEQ).
abbrev pub program_block : MemoryData
program_block = record {
  size = 4096;
  bytes = λ i.
      if i == 0x100
      then 1
      else if i == 0x103
      then 0xeb
      else if i == 0x104
      then 1
      else if i == 0x107
      then 0x0a
      else 0;
}

pub program_block-IsBlock : IsBlock program_block
program_block-IsBlock = record { addressable = omega arith; holds_bytes = λ i. ground arith }

-- r1 is 0x7fffffff and r2 is 1; the argument is the pc, in the stored byte order.
abbrev pub file : ℕ → Registers
file stored_pc = record {
  data_of = λ i c.
      if i == 16
      then 0x13
      else if i == 15
      then stored_pc
      else if i == 1
      then 0xffffff7f
      else if i == 2
      then 0x01000000
      else 0;
}

abbrev pub core_of : ℕ → Memory → ArmCore
core_of stored_pc m = record { cycle_count = 0; reg = file stored_pc; mem = m; out = []; inp = [] }

-- The pc at 0x100, at 0x104, and past the end of the block at 0x1000.
abbrev pub at_branch : ArmCore
at_branch = core_of 0x00010000 (some program_block)

abbrev pub at_skipped : ArmCore
at_skipped = core_of 0x04010000 (some program_block)

abbrev pub past_end : ArmCore
past_end = core_of 0x00100000 (some program_block)

pub core_of-IsRegular :
    (stored_pc : ℕ) (m : Memory) → stored_pc < 2 ^ 32 → IsRegular (core_of stored_pc m)
unfolding registers_get_mode is_mode get_bits
core_of-IsRegular stored_pc m h = record {
  known_mode = refl;
  not_fiq = refl;
  words = λ i c. ground arith;
}
