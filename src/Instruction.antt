-- ===== src/Instruction.antt =====
-- arm_instruction.c: the condition, the dispatch on the instruction's bits, and one step.
pub mod Condition
pub mod Step
pub mod Keeps
use arm_sim.Base.{ℕ, ◌==◌, if◌then◌else◌, ◌&&◌, ◌||◌, not, Bool, true, false}
use arm_sim.Host.{Host}
use arm_sim.Util.{u8, get_bit, get_bits}
use arm_sim.Core.{M, pure, ◌>>=◌, ◌>>◌, arm_fetch, arm_read_cpsr}
use arm_sim.BranchOther.{
  undefined_instruction, arm_branch, arm_coprocessor_others_swi, arm_miscellaneous,
  arm_miscellaneous_2, arm_multiply,
}
use arm_sim.DataProcessing.{
  arm_data_processing_immediate_shift, arm_data_processing_register_shift,
  arm_data_processing_immediate,
}
use arm_sim.LoadStore.{
  arm_load_store_immediate_offset, arm_load_store_register_offset, arm_coprocessor_load_store,
}
use arm_sim.LoadStore.Multiple.{arm_load_store_multiple}
use arm_sim.LoadStore.Miscellaneous.{arm_load_store_miscellaneous}
use arm_sim.Exception.{arm_exception}

-- The chain of tests on the condition field and the flags Z, N, C and V.
unfoldable pub flag_test : ℕ → ℕ → ℕ → ℕ → ℕ → Bool
flag_test cond_inst z n c v =
    (cond_inst == 0x0 && z == 1)
    || (cond_inst == 0x1 && z == 0)
    || (cond_inst == 0x2 && c == 1)
    || (cond_inst == 0x3 && c == 0)
    || (cond_inst == 0x4 && n == 1)
    || (cond_inst == 0x5 && n == 0)
    || (cond_inst == 0x6 && v == 1)
    || (cond_inst == 0x7 && v == 0)
    || (cond_inst == 0x8 && c == 1 && z == 0)
    || (cond_inst == 0x9 && c == 1 && z == 1)
    || (cond_inst == 0xa && n == v)
    || (cond_inst == 0xb && not (n == v))
    || (cond_inst == 0xc && z == 0 && n == v)
    || (cond_inst == 0xd && (z == 1 || not (n == v)))
    || cond_inst == 0xe

unfoldable pub flag_cond : ℕ → ℕ → Bool
unfolding flag_test
flag_cond cond_inst cpsr =
    flag_test cond_inst (get_bit cpsr 30) (get_bit cpsr 31) (get_bit cpsr 29) (get_bit cpsr 28)

unfoldable pub arm_fetch_code_inst : Host → ℕ → ℕ → M ℕ
arm_fetch_code_inst host inst cpsr =
    let instcode = get_bits inst 27 25 in
    let b4 = get_bit inst 4 in
    let b7 = get_bit inst 7 in
    let opcode2b = get_bits inst 24 23 in
    let s = get_bit inst 20 in
    let b5 = get_bit inst 5 in
    let b6 = get_bit inst 6 in
    if instcode == 0x0
    then (if b4 == 0
        then (if opcode2b == 2 && s == 0
            then arm_miscellaneous host inst
            else arm_data_processing_immediate_shift host inst cpsr)
        else if b7 == 0
        then (if opcode2b == 2 && s == 0
            then arm_miscellaneous_2 host inst
            else arm_data_processing_register_shift host inst cpsr)
        else if b5 == 0 && b6 == 0
        then arm_multiply host inst cpsr
        else arm_load_store_miscellaneous host inst)
    else if instcode == 0x1
    then (if opcode2b == 2 && s == 0
        then pure undefined_instruction
        else arm_data_processing_immediate host inst cpsr)
    else if instcode == 0x2
    then arm_load_store_immediate_offset host inst
    else if instcode == 0x3
    then (if b4 == 0 then arm_load_store_register_offset host inst else pure undefined_instruction)
    else if instcode == 0x4
    then arm_load_store_multiple host inst
    else if instcode == 0x5
    then arm_branch host inst
    else if instcode == 0x6
    then arm_coprocessor_load_store inst
    else if get_bit inst 24 == 0
    then pure undefined_instruction
    else arm_coprocessor_others_swi inst

unfoldable pub arm_execute_instruction : Host → M ℕ
arm_execute_instruction host = do
  (result, inst) ← arm_fetch host host.uninit
  if result == 0
      then (do
        cpsr ← arm_read_cpsr
        (if flag_cond (get_bits inst 31 28) cpsr
            then arm_fetch_code_inst host inst cpsr
            else pure 0))
      else pure 1

unfoldable pub arm_step : Host → M ℕ
arm_step host = do
  result ← arm_execute_instruction host
  if result == 0 then pure 0 else arm_exception host (u8 result)
