-- ===== src/DataProcessing.antt =====
-- arm_data_processing.c: the sixteen data-processing operations, with the flags that they set.
-- The children are the shifter operand, the flag computations and what is shown of each.
pub mod Flags
pub mod Shifter
pub mod Barrel
pub mod WideShift
pub mod Effect
pub mod Update
pub mod Alu
pub mod FlagBits
pub mod Keeps
use arm_sim.Base.{ℕ, ◌+◌, ◌-◌, ◌*◌, ◌^◌, bit_and, bit_or, bit_xor, ltb, ◌==◌, if◌then◌else◌, Bool}
use arm_sim.Base.{true, false, ◌&&◌, not}
use arm_sim.Host.{Host}
use arm_sim.Util.{add32, sub32, bit_not, get_bit, set_bit, clr_bit, get_bits, ror}
use arm_sim.Registers
use arm_sim.Core.{
  M, pure, ◌>>=◌, ◌>>◌, arm_read_register, arm_write_register, arm_read_spsr, arm_write_cpsr,
  arm_current_mode_has_spsr,
}
use Flags.{flag_c, set_zn, carry_from, overflow_from, borrow_from, no_carry}
use Shifter.{Shifted, get_shifter_operand_immediate_shift, get_shifter_operand_register_shift}

-- What the `switch` of `apply_operator` sets: the result, whether Rd is written, the S bit after
-- the comparisons have forced it, and the kind of flag update.
pub record Operation : Type 0 where
  pub rd_value : ℕ
  pub update_rd : Bool
  pub s : Bool
  pub update_case : ℕ

abbrev result : ℕ → Bool → ℕ → Operation
result v s kind = record { rd_value = v; update_rd = true; s = s; update_case = kind }

abbrev comparison : ℕ → ℕ → Operation
comparison v kind = record { rd_value = v; update_rd = false; s = true; update_case = kind }

-- AND EOR SUB RSB, ADD ADC SBC RSC, TST TEQ CMP CMN, ORR MOV BIC MVN, numbered from 0.
unfoldable pub operate : ℕ → ℕ → ℕ → Bool → ℕ → Operation
unfolding no_carry
operate opcode rn operand s cpsr =
    if opcode == 0
    then result (bit_and rn operand) s 1
    else if opcode == 1
    then result (bit_xor rn operand) s 1
    else if opcode == 2
    then result (sub32 rn operand) s 2
    else if opcode == 3
    then result (sub32 operand rn) s 2
    else if opcode == 4
    then result (add32 rn operand) s 0
    else if opcode == 5
    then result (add32 (add32 rn operand) (get_bit cpsr flag_c)) s 0
    else if opcode == 6
    then result (sub32 (sub32 rn operand) (no_carry cpsr)) s 2
    else if opcode == 7
    then result (sub32 (sub32 operand rn) (no_carry cpsr)) s 2
    else if opcode == 8
    then comparison (bit_and rn operand) 1
    else if opcode == 9
    then comparison (bit_xor rn operand) 1
    else if opcode == 10
    then comparison (sub32 rn operand) 2
    else if opcode == 11
    then comparison (add32 rn operand) 0
    else if opcode == 12
    then result (bit_or rn operand) s 1
    else if opcode == 13
    then result operand s 1
    else if opcode == 14
    then result (bit_and rn (bit_not operand)) s 1
    else result (bit_not operand) s 1

-- The second `switch`: the flags for a result.
unfoldable pub update_flags : Operation → ℕ → ℕ → ℕ → ℕ → ℕ → ℕ
update_flags op rn operand carry_out opcode cpsr =
    let cpsr₁ = set_zn op.rd_value cpsr in
    if op.update_case == 0
    then overflow_from rn operand opcode (carry_from op.rd_value cpsr₁)
    else if op.update_case == 1
    then (if get_bit carry_out 0 == 1 then set_bit cpsr₁ flag_c else clr_bit cpsr₁ flag_c)
    else overflow_from rn operand opcode (borrow_from op.rd_value cpsr₁)

-- `cpsr = arm_read_spsr(p)` where the mode has an SPSR.
abbrev restored : Host → ℕ → M ℕ
restored host cpsr = do
  has_spsr ← arm_current_mode_has_spsr
  if has_spsr then arm_read_spsr host else pure cpsr

-- The write of Rd. With S and Rd = 15 the CPSR to go on with is the SPSR, if there is one.
unfoldable pub write_result : Host → ℕ → Operation → ℕ → M ℕ
write_result host rd op cpsr =
    if op.update_rd
    then (do
      new_cpsr ← if op.s && rd == 15 then restored host cpsr else pure cpsr
      arm_write_register host rd op.rd_value
      pure new_cpsr)
    else pure cpsr

abbrev write_flags : Bool → ℕ → M ℕ
write_flags s value = if s then (do arm_write_cpsr value; pure 0) else pure 0

unfoldable pub apply_operator : Host → ℕ → ℕ → ℕ → Bool → ℕ → M ℕ
unfolding write_result
apply_operator host ins operand carry_out s cpsr = do
  let opcode = get_bits ins 24 21
  let rd = get_bits ins 15 12
  let rn = get_bits ins 19 16
  rn_value ← arm_read_register host rn
  let op = operate opcode rn_value operand s cpsr
  cpsr₁ ← write_result host rd op cpsr
  write_flags op.s (update_flags op rn_value operand carry_out opcode cpsr₁)

unfoldable pub arm_data_processing_immediate_shift : Host → ℕ → ℕ → M ℕ
arm_data_processing_immediate_shift host ins cpsr = do
  let s = get_bit ins 20 == 1
  let shift_imm = get_bits ins 11 7
  let shift_code = get_bits ins 6 5
  let rm = get_bits ins 3 0
  rm_value ← arm_read_register host rm
  let shifted = get_shifter_operand_immediate_shift host shift_imm shift_code rm_value cpsr
  apply_operator host ins shifted.operand shifted.carry_out s cpsr

unfoldable pub arm_data_processing_register_shift : Host → ℕ → ℕ → M ℕ
arm_data_processing_register_shift host ins cpsr = do
  let s = get_bit ins 20 == 1
  let shift_code = get_bits ins 6 5
  let rm = get_bits ins 3 0
  rm_value ← arm_read_register host rm
  let rs = get_bits ins 11 8
  rs_value ← arm_read_register host rs
  let shifted = get_shifter_operand_register_shift host shift_code rm_value rs_value cpsr
  apply_operator host ins shifted.operand shifted.carry_out s cpsr

unfoldable pub arm_data_processing_immediate : Host → ℕ → ℕ → M ℕ
arm_data_processing_immediate host ins cpsr =
    let s = get_bit ins 20 == 1 in
    let immed_8 = get_bits ins 7 0 in
    let rotate_imm = get_bits ins 11 8 in
    let operand = ror host immed_8 (rotate_imm * 2) in
    let carry_out = if rotate_imm == 0 then get_bit cpsr flag_c else get_bit operand 31 in
    apply_operator host ins operand carry_out s cpsr
