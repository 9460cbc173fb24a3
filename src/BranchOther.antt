-- ===== src/BranchOther.antt =====
-- arm_branch_other.c: branches, status register reads, BX and multiplication.
pub mod Branch
pub mod Keeps
use arm_sim.Base.{ℕ, bit_and, bit_or, ◌==◌, if◌then◌else◌, not, Bool}
use arm_sim.Host.{Host}
use arm_sim.Util.{u32, add32, sub32, mul32, ◌<<<◌, get_bit, set_bit, clr_bit, get_bits}
use arm_sim.Core.{
  M, pure, ◌>>=◌, ◌>>◌, emit, mrs_notice, arm_read_register, arm_write_register, arm_read_cpsr,
  arm_read_spsr, arm_write_cpsr, arm_current_mode_has_spsr,
}
use arm_sim.DataProcessing.Flags.{flag_c, flag_z}

abbrev pub lr : ℕ
lr = 14

abbrev pub pc : ℕ
pc = 15

-- The exception codes of arm_constants.h.
abbrev pub reset : ℕ
reset = 1

abbrev pub data_abort : ℕ
data_abort = 2

abbrev pub interrupt : ℕ
interrupt = 4

abbrev pub undefined_instruction : ℕ
undefined_instruction = 7

abbrev pub software_interrupt : ℕ
software_interrupt = 8

abbrev pub end_simulation : ℕ
end_simulation = 9

-- `if (test) m;`
abbrev pub when : Bool → M (Unit {0}) → M (Unit {0})
when test m = if test then m else pure tt

-- The 24-bit field of a branch, sign-extended and shifted.
unfoldable pub branch_offset : ℕ → ℕ
branch_offset ins =
    let bits_23_0 = get_bits ins 23 0 in
    let extended = if get_bit bits_23_0 23 == 1 then bit_or bits_23_0 0xff000000 else bits_23_0 in
    u32 (extended <<< 2)

unfoldable pub arm_branch : Host → ℕ → M ℕ
arm_branch host ins = do
  pc_value ← arm_read_register host pc
  when (get_bit ins 24 == 1) (arm_write_register host lr (sub32 pc_value 4))
  arm_write_register host pc (add32 pc_value (branch_offset ins))
  pure 0

unfoldable pub arm_coprocessor_others_swi : ℕ → M ℕ
arm_coprocessor_others_swi ins =
    pure (if get_bit ins 24 == 1 then software_interrupt else undefined_instruction)

abbrev move_spsr : Host → ℕ → Bool → M ℕ
move_spsr host rd has_spsr =
    if not has_spsr
    then pure data_abort
    else (do spsr_value ← arm_read_spsr host; arm_write_register host rd spsr_value; pure 0)

unfoldable pub arm_miscellaneous : Host → ℕ → M ℕ
arm_miscellaneous host ins = do
  emit mrs_notice
  let rd = get_bits ins 15 12
  if get_bit ins 22 == 1
      then (do has_spsr ← arm_current_mode_has_spsr; move_spsr host rd has_spsr)
      else (do cpsr_value ← arm_read_cpsr; arm_write_register host rd cpsr_value; pure 0)

unfoldable pub arm_miscellaneous_2 : Host → ℕ → M ℕ
arm_miscellaneous_2 host ins = do
  let rm = get_bits ins 3 0
  rm_value ← arm_read_register host rm
  arm_write_register host pc (bit_and rm_value 0xfffffffe)
  pure 0

-- The CPSR that a multiplication leaves.
unfoldable pub multiply_flags : ℕ → ℕ → ℕ
multiply_flags rd_value cpsr =
    let cpsr₁ = if get_bit rd_value 31 == 0 then clr_bit cpsr flag_c else set_bit cpsr flag_c in
    if rd_value == 0 then set_bit cpsr₁ flag_z else clr_bit cpsr₁ flag_z

unfoldable pub arm_multiply : Host → ℕ → ℕ → M ℕ
arm_multiply host ins cpsr = do
  let rd = get_bits ins 19 16
  let rs = get_bits ins 11 8
  let rm = get_bits ins 3 0
  rs_value ← arm_read_register host rs
  rm_value ← arm_read_register host rm
  let rd_value = mul32 rs_value rm_value
  arm_write_register host rd rd_value
  when (get_bit ins 4 == 1) (arm_write_cpsr (multiply_flags rd_value cpsr))
  pure 0
