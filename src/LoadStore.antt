-- ===== src/LoadStore.antt =====
-- arm_load_store.c: single transfers by immediate and register offset, the miscellaneous
-- transfers (half words, signed values, double words), and the multiple transfers.
-- A function that changes `*addr` in C returns the new address beside its code.
pub mod Single
pub mod Handlers
pub mod Scaled
pub mod RegisterOffset
pub mod Multiple
pub mod Keeps
pub mod Miscellaneous
use arm_sim.Base.{
  ℕ, ◌+◌, ◌-◌, ◌*◌, ◌%◌, ◌/◌, bit_and, bit_or, ◌==◌, if◌then◌else◌, ◌&&◌, ◌||◌, not, Bool, true,
  false,
}
use arm_sim.Host.{Host}
use arm_sim.Util.{
  u8, u16, u32, add32, sub32, ◌<<<◌, ◌>>>◌, all_ones, bit_not, get_bit, get_bits, set_bits, ror,
}
use arm_sim.Core.{
  M, pure, ◌>>=◌, ◌>>◌, arm_read_register, arm_write_register, arm_read_cpsr, arm_read_byte,
  arm_read_half, arm_read_word, arm_write_byte, arm_write_half, arm_write_word,
}
use arm_sim.DataProcessing.Flags.{flag_c}
use arm_sim.BranchOther.{when, undefined_instruction}

unfoldable pub u_bit_handle : Bool → ℕ → ℕ → ℕ
u_bit_handle u addr offset = if u then add32 addr offset else sub32 addr offset

-- `err = ...; if (err) return err; arm_write_register(p, rd, value); return err;`
abbrev store_in : Host → ℕ → ℕ × ℕ → M ℕ
store_in host rd (err, value) =
    if err == 0 then (do arm_write_register host rd value; pure 0) else pure err

unfoldable pub b_bit_handle : Host → Bool → Bool → ℕ → ℕ → M ℕ
b_bit_handle host l b addr rd =
    if l
    then (if b
        then (do r ← arm_read_byte host addr 0; store_in host rd r)
        else (do r ← arm_read_word host addr 0; store_in host rd r))
    else (if b
        then (do value ← arm_read_register host rd; arm_write_byte host addr (u8 value))
        else (do value ← arm_read_register host rd; arm_write_word host addr value))

-- The bits of a single transfer, the registers, the base address and the offset.
pub record Transfer : Type 0 where
  pub l_bit : Bool
  pub u_bit : Bool
  pub b_bit : Bool
  pub register_n : ℕ
  pub register_d : ℕ
  pub addr : ℕ
  pub offset : ℕ

-- arm_load_immediate_offset and arm_store_immediate_offset, which are the same.
unfoldable pub immediate_offset : Host → Transfer → M (ℕ × ℕ)
immediate_offset host t = do
  let addr = u_bit_handle t.u_bit t.addr t.offset
  err ← b_bit_handle host t.l_bit t.b_bit addr t.register_d
  pure (err, addr)

-- arm_load_immediate_preindexing and arm_store_immediate_preindexing.
unfoldable pub immediate_preindexing : Host → Transfer → M ℕ
immediate_preindexing host t = do
  (err, addr) ← immediate_offset host t
  when (err == 0) (arm_write_register host t.register_n addr)
  pure err

-- arm_load_immediate_postindexing and arm_store_immediate_postindexing.
unfoldable pub immediate_postindexing : Host → Transfer → M ℕ
immediate_postindexing host t = do
  err ← b_bit_handle host t.l_bit t.b_bit t.addr t.register_d
  when (err == 0) (arm_write_register host t.register_n (u_bit_handle t.u_bit t.addr t.offset))
  pure err

-- The choice by the P and W bits, which both instruction forms and both directions share.
unfoldable pub index_mode : Host → Bool → Bool → Transfer → M ℕ
index_mode host p_bit w_bit t =
    if p_bit
    then (if w_bit
        then immediate_preindexing host t
        else (do (err, addr) ← immediate_offset host t; pure err))
    else (if w_bit then pure undefined_instruction else immediate_postindexing host t)

unfoldable pub arm_load_store_immediate_offset : Host → ℕ → M ℕ
arm_load_store_immediate_offset host ins = do
  let register_n = get_bits ins 19 16
  address_base ← arm_read_register host register_n
  index_mode host (get_bit ins 24 == 1) (get_bit ins 21 == 1) (record {
    l_bit = get_bit ins 20 == 1;
    u_bit = get_bit ins 23 == 1;
    b_bit = get_bit ins 22 == 1;
    register_n = register_n;
    register_d = get_bits ins 15 12;
    addr = address_base;
    offset = get_bits ins 11 0;
  })

-- `(int)offset >> shift_imm`, for a count of 1 to 31.
unfoldable pub int_shr : ℕ → ℕ → ℕ
int_shr x k = x >>> k + (if get_bit x 31 == 1 then all_ones + 1 - (all_ones + 1) >>> k else 0)

-- The offset register after its shift. `register_m` is the number of that register.
unfoldable pub shifted_offset : Host → ℕ → ℕ → ℕ → ℕ → ℕ → ℕ
shifted_offset host shift shift_imm register_m offset cpsr =
    if bit_or shift_imm shift == 0
    then offset
    else if shift == 0
    then u32 (offset <<< shift_imm)
    else if shift == 1
    then (if shift_imm == 0 then 0 else offset >>> shift_imm)
    else if shift == 2
    then (if shift_imm == 0
        then (if get_bit offset 31 == 1 then all_ones else 0)
        else int_shr offset shift_imm)
    else (if shift_imm == 0
        then bit_or (u32 (get_bit cpsr flag_c <<< 31)) (register_m >>> 1)
        else ror host offset shift_imm)

unfoldable pub arm_load_store_register_offset : Host → ℕ → M ℕ
arm_load_store_register_offset host ins = do
  let register_n = get_bits ins 19 16
  let register_m = get_bits ins 3 0
  offset ← arm_read_register host register_m
  address_base ← arm_read_register host register_n
  cpsr ← arm_read_cpsr
  index_mode host (get_bit ins 24 == 1) (get_bit ins 21 == 1) (record {
    l_bit = get_bit ins 20 == 1;
    u_bit = get_bit ins 23 == 1;
    b_bit = get_bit ins 22 == 1;
    register_n = register_n;
    register_d = get_bits ins 15 12;
    addr = address_base;
    offset = shifted_offset host (get_bits ins 6 5) (get_bits ins 11 7) register_m offset cpsr;
  })

unfoldable pub arm_coprocessor_load_store : ℕ → M ℕ
arm_coprocessor_load_store ins = pure undefined_instruction
