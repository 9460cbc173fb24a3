-- ===== src/DataProcessing/Alu.antt =====
-- arm_data_processing.c: the results of the sixteen operations against the ARM manual's
-- descriptions: AddWithCarry for arithmetic, a truth table for logic.
use arm_sim.Base.{ℕ, ◌+◌, ◌-◌, ◌%◌, ◌^◌, ◌<◌, ◌≡◌, arith, Bool, true, false, min, max}
use arm_sim.Base.{leb, ◌==◌, ◌&&◌, ◌||◌, if◌then◌else◌}
use arm_sim.Bits.{bit_and-le, bit_or-lt, bit_xor-lt}
use arm_sim.Util.{bit_not, get_bit}
use arm_sim.Util.Laws.{get_bit-and, get_bit-or, get_bit-xor, get_bit-not, get_bit-lt}
use arm_sim.DataProcessing.Flags.{flag_c}
use arm_sim.DataProcessing.{operate}

-- AddWithCarry(x, y, carry) of the manual, without its flags.
abbrev pub add_with_carry : ℕ → ℕ → ℕ → ℕ
add_with_carry x y carry = (x + y + carry) % 2 ^ 32

-- The operands that the manual gives it for each arithmetic opcode.
abbrev pub manual_arithmetic : ℕ → ℕ → ℕ → ℕ → ℕ
manual_arithmetic opcode rn operand c =
    if opcode == 2 || opcode == 10
    then add_with_carry rn (bit_not operand) 1
    else if opcode == 3
    then add_with_carry (bit_not rn) operand 1
    else if opcode == 4 || opcode == 11
    then add_with_carry rn operand 0
    else if opcode == 5
    then add_with_carry rn operand c
    else if opcode == 6
    then add_with_carry rn (bit_not operand) c
    else add_with_carry (bit_not rn) operand c

abbrev pub is_arithmetic : ℕ → Bool
is_arithmetic opcode = (leb 2 opcode && leb opcode 7) || opcode == 10 || opcode == 11

-- SUB, RSB, ADD, ADC, SBC, RSC, CMP and CMN compute what the manual's AddWithCarry gives for the
-- opcode, with the C flag as carry in where the opcode takes one.
pub operate_arithmetic :
    (opcode rn operand cpsr : ℕ) (s : Bool)
    → is_arithmetic opcode ≡ true
    → rn < 2 ^ 32
    → operand < 2 ^ 32
    → (operate opcode rn operand s cpsr).rd_value
      ≡ manual_arithmetic opcode rn operand (get_bit cpsr flag_c)
unfolding operate
operate_arithmetic opcode rn operand cpsr s kind hr ho = ground (arith, get_bit-lt cpsr flag_c)

-- The truth table of a logical opcode for one bit of Rn and one of the operand.
abbrev pub truth_table : ℕ → ℕ → ℕ → ℕ
truth_table opcode a b =
    if opcode == 0 || opcode == 8
    then min a b
    else if opcode == 1 || opcode == 9
    then (a + b) % 2
    else if opcode == 12
    then max a b
    else if opcode == 13
    then b
    else if opcode == 14
    then min a (1 - b)
    else 1 - b

-- AND, EOR, TST, TEQ, ORR, MOV, BIC and MVN compute each of the 32 bits by the truth table of the
-- opcode.
pub operate_logical :
    (opcode rn operand cpsr i : ℕ) (s : Bool)
    → is_arithmetic opcode ≡ false
    → opcode < 16
    → i < 32
    → operand < 2 ^ 32
    → get_bit (operate opcode rn operand s cpsr).rd_value i
      ≡ truth_table opcode (get_bit rn i) (get_bit operand i)
unfolding operate
operate_logical opcode rn operand cpsr i s kind small hi ho = ground (
  arith,
  get_bit-and i rn operand,
  get_bit-xor i rn operand,
  get_bit-or i rn operand,
  get_bit-and i rn (bit_not operand),
  get_bit-not i operand hi ho,
)

-- Every result is a 32-bit word.
pub operate-lt :
    (opcode rn operand cpsr : ℕ) (s : Bool)
    → rn < 2 ^ 32
    → operand < 2 ^ 32
    → (operate opcode rn operand s cpsr).rd_value < 2 ^ 32
unfolding operate
operate-lt opcode rn operand cpsr s hr ho = ground (
  arith,
  bit_and-le rn operand,
  bit_and-le rn (bit_not operand),
  bit_or-lt 32 rn operand hr ho,
  bit_xor-lt 32 rn operand hr ho,
)
