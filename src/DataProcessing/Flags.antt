-- ===== src/DataProcessing/Flags.antt =====
-- The flag computations of arm_data_processing.c. N, Z, C and V are bits 31 to 28 of the CPSR.
use arm_sim.Base.{ℕ, ◌+◌, ltb, ◌==◌, if◌then◌else◌, ◌&&◌, ◌||◌, not}
use arm_sim.Util.{add32, sub32, get_bit, set_bit, clr_bit}

abbrev pub flag_n : ℕ
flag_n = 31

abbrev pub flag_z : ℕ
flag_z = 30

abbrev pub flag_c : ℕ
flag_c = 29

abbrev pub flag_v : ℕ
flag_v = 28

unfoldable pub set_zn : ℕ → ℕ → ℕ
set_zn rd_value cpsr =
    let cpsr₁ = if get_bit rd_value flag_n == 1 then set_bit cpsr flag_n else clr_bit cpsr flag_n in
    if rd_value == 0 then set_bit cpsr₁ flag_z else clr_bit cpsr₁ flag_z

unfoldable pub carry_from : ℕ → ℕ → ℕ
carry_from true_result cpsr =
    if ltb true_result 0x100000000 then clr_bit cpsr flag_c else set_bit cpsr flag_c

-- `!get_bit(cpsr, C)`.
unfoldable pub no_carry : ℕ → ℕ
no_carry cpsr = if get_bit cpsr flag_c == 0 then 1 else 0

-- Cases ADC (5), ADD (4), CMN (11); SBC (6), RSC (7), SUB (2), CMP (10); no other changes V.
-- `true_result` is 64 bits wide and at most 2 ^ 32 here.
unfoldable pub overflow_from : ℕ → ℕ → ℕ → ℕ → ℕ
unfolding no_carry
overflow_from rn_val shifter_op_val opcode cpsr =
    let rn_sign = get_bit rn_val 31 in
    let shifter_op_sign = get_bit shifter_op_val 31 in
    if opcode == 5 || opcode == 4 || opcode == 11
    then (let result_sign = get_bit (add32 rn_val shifter_op_val) 31 in
        if rn_sign == shifter_op_sign && not (result_sign == rn_sign)
        then set_bit cpsr flag_v
        else clr_bit cpsr flag_v)
    else if opcode == 6 || opcode == 7 || opcode == 2 || opcode == 10
    then (let borrow = if opcode == 6 || opcode == 7 then no_carry cpsr else 0 in
        let true_result = borrow + sub32 rn_val shifter_op_val in
        let result_sign = get_bit true_result 31 in
        if not (rn_sign == shifter_op_sign) && not (result_sign == rn_sign)
        then set_bit cpsr flag_v
        else clr_bit cpsr flag_v)
    else cpsr

unfoldable pub borrow_from : ℕ → ℕ → ℕ
borrow_from true_result cpsr =
    if get_bit true_result 31 == 1 then set_bit cpsr flag_c else clr_bit cpsr flag_c
