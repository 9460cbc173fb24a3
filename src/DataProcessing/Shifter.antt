-- ===== src/DataProcessing/Shifter.antt =====
-- The shifter operand of a data-processing instruction and its carry, by an immediate count and
-- by a register (arm_data_processing.c). LSL, LSR, ASR and ROR are 0 to 3.
use arm_sim.Base.{ℕ, ◌-◌, ltb, ◌==◌, if◌then◌else◌}
use arm_sim.Host.{Host}
use arm_sim.Util.{u32, all_ones, ◌<<<◌, ◌>>>◌, get_bit, get_bits, asr, ror}
use arm_sim.Base.{bit_or}
use arm_sim.DataProcessing.Flags.{flag_c}

pub record Shifted : Type 0 where
  pub operand : ℕ
  pub carry_out : ℕ

abbrev pub shifted : ℕ → ℕ → Shifted
shifted v c = record { operand = v; carry_out = c }

unfoldable pub get_shifter_operand_immediate_shift : Host → ℕ → ℕ → ℕ → ℕ → Shifted
get_shifter_operand_immediate_shift host shift_imm shift_code rm_value cpsr =
    if shift_code == 0
    then (if shift_imm == 0
        then shifted rm_value (get_bit cpsr flag_c)
        else shifted (u32 (rm_value <<< shift_imm)) (get_bit rm_value (32 - shift_imm)))
    else if shift_code == 1
    then (if shift_imm == 0
        then shifted rm_value (get_bit cpsr 31)
        else shifted (rm_value >>> shift_imm) (get_bit rm_value (shift_imm - 1)))
    else if shift_code == 2
    then (if shift_imm == 0
        then shifted (if get_bit rm_value 31 == 0 then 0 else all_ones) (get_bit rm_value 31)
        else shifted (asr host rm_value shift_imm) (get_bit rm_value (shift_imm - 1)))
    else (if shift_imm == 0
        then shifted (bit_or (u32 (cpsr <<< 31)) (rm_value >>> 1)) (get_bit rm_value 0)
        else shifted (ror host rm_value shift_imm) (get_bit rm_value (shift_imm - 1)))

-- `count` is the low byte of Rs and `rotation` its five low bits.
unfoldable pub shift_by_count : Host → ℕ → ℕ → ℕ → ℕ → ℕ → Shifted
shift_by_count host shift_code rm_value count rotation cpsr =
    if shift_code == 0
    then (if count == 0
        then shifted rm_value (get_bit cpsr flag_c)
        else if ltb count 32
        then shifted (u32 (rm_value <<< count)) (get_bit rm_value (32 - count))
        else if count == 32
        then shifted 0 (get_bit rm_value 0)
        else shifted 0 0)
    else if shift_code == 1
    then (if count == 0
        then shifted rm_value (get_bit cpsr flag_c)
        else if ltb count 32
        then shifted (rm_value >>> count) (get_bit rm_value (count - 1))
        else if count == 32
        then shifted 0 (get_bit rm_value 31)
        else shifted 0 0)
    else if shift_code == 2
    then (if count == 0
        then shifted rm_value (get_bit cpsr flag_c)
        else if ltb count 32
        then shifted (asr host rm_value count) (get_bit rm_value (count - 1))
        else shifted (if get_bit rm_value 31 == 0 then 0 else all_ones) (get_bit rm_value 31))
    else (if count == 0
        then shifted rm_value (get_bit cpsr flag_c)
        else if rotation == 0
        then shifted rm_value (get_bit rm_value 31)
        else shifted (ror host rm_value rotation) (get_bit rm_value (rotation - 1)))

unfoldable pub get_shifter_operand_register_shift : Host → ℕ → ℕ → ℕ → ℕ → Shifted
get_shifter_operand_register_shift host shift_code rm_value rs_value cpsr =
    shift_by_count host shift_code rm_value (get_bits rs_value 7 0) (get_bits rs_value 4 0) cpsr
