-- ===== src/DataProcessing/Update.antt =====
-- arm_data_processing.c: what the flag update leaves in each bit of the CPSR.
use arm_sim.Base.{ℕ, ◌-◌, ◌%◌, ◌^◌, ◌≤◌, ◌<◌, ◌≡◌, ◌≢◌, ◌∙◌, arith, Bool, true, false}
use arm_sim.Base.{leb, ◌==◌, ◌||◌, if◌then◌else◌}
use arm_sim.Util.{get_bit}
use arm_sim.Util.Laws.{
  get_bit-set_bit, get_bit-clr_bit, set_bit-lt, clr_bit-lt, get_bit-eq-bit_at, get_bit-lt,
}
use arm_sim.Bits.{low_bits_ext}
use arm_sim.DataProcessing.Flags.{flag_n, flag_z, flag_c, flag_v, set_zn, overflow_from}
use arm_sim.DataProcessing.FlagBits.{
  write_bit, get_bit-write_bit, write_bit-lt, set_zn_lem, carry_from_lem, borrow_from_lem,
  add_overflows, sub_overflows, overflow_from_add, overflow_from_sub,
}
use arm_sim.DataProcessing.Alu.{is_arithmetic, operate-lt, operate_arithmetic}
use arm_sim.DataProcessing.{operate, update_flags}

overflow_from_else :
    (x y opcode c j : ℕ) → j < 32 → j ≢ 28 → get_bit (overflow_from x y opcode c) j ≡ get_bit c j
unfolding overflow_from
overflow_from_else x y opcode c j h ne =
    ground (arith, get_bit-set_bit c flag_v j, get_bit-clr_bit c flag_v j)

overflow_from-lt : (x y opcode c : ℕ) → c < 2 ^ 32 → overflow_from x y opcode c < 2 ^ 32
unfolding overflow_from
overflow_from-lt x y opcode c h = ground (arith, set_bit-lt c flag_v h, clr_bit-lt c flag_v h)

-- The carry that the code computes for an opcode, its result and the shifter's carry.
abbrev pub carry_of : ℕ → ℕ → ℕ → Bool
carry_of opcode v carry_out =
    if opcode == 4 || opcode == 5 || opcode == 11
    then leb 0x100000000 v
    else if is_arithmetic opcode
    then get_bit v 31 == 1
    else get_bit carry_out 0 == 1

abbrev adds : ℕ → Bool
adds opcode = opcode == 4 || opcode == 5 || opcode == 11

operate_case :
    (opcode rn operand c : ℕ) (s : Bool)
    → (operate opcode rn operand s c).update_case
      ≡ (if adds opcode then 0 else if is_arithmetic opcode then 2 else 1)
unfolding operate
operate_case opcode rn operand c s = ground arith

module _ (opcode rn operand carry_out c₀ c : ℕ) (s : Bool) where
  abbrev value : ℕ
  value = (operate opcode rn operand s c₀).rd_value

  -- N, Z and C, written before V.
  abbrev three_flags : ℕ
  three_flags =
      write_bit (carry_of opcode value carry_out)
        (write_bit (value == 0) (write_bit (get_bit value 31 == 1) c flag_n) flag_z) flag_c

  abbrev updated : ℕ
  updated = update_flags (operate opcode rn operand s c₀) rn operand carry_out opcode c

  update_flags_shape :
      updated
      ≡ (if is_arithmetic opcode then overflow_from rn operand opcode three_flags else three_flags)
  unfolding update_flags
  update_flags_shape = ground (
    arith,
    operate_case opcode rn operand c₀ s,
    set_zn_lem value c,
    carry_from_lem value (set_zn value c),
    borrow_from_lem value (set_zn value c),
  )

  update_flags_else : (j : ℕ) → j < 32 → j ≢ 28 → get_bit updated j ≡ get_bit three_flags j
  update_flags_else j h ne =
      rw update_flags_shape
        (ground (arith, overflow_from_else rn operand opcode three_flags j h ne))

  three_flags_bits :
      (j : ℕ)
      → j < 32
      → get_bit three_flags j ≡ (
          if j == 31
          then get_bit value 31
          else if j == 30
          then (if value == 0 then 1 else 0)
          else if j == 29
          then (if carry_of opcode value carry_out then 1 else 0)
          else get_bit c j)
  three_flags_bits j h =
      let n = write_bit (get_bit value 31 == 1) c flag_n in
      let zn = write_bit (value == 0) n flag_z in
      ground (
        arith,
        get_bit-lt value 31,
        get_bit-write_bit (get_bit value 31 == 1) c flag_n j (omega arith) h,
        get_bit-write_bit (value == 0) n flag_z j (omega arith) h,
        get_bit-write_bit (carry_of opcode value carry_out) zn flag_c j (omega arith) h,
      )

  -- After an instruction that sets the flags, N is the top bit of the result, Z tells whether it
  -- is zero, C is what the code computes for the kind of the opcode, and bits 0 to 27 of the CPSR,
  -- the mode among them, are as they were.
  pub update_flags_bits :
      (j : ℕ)
      → j < 32
      → j ≢ 28
      → get_bit updated j ≡ (
          if j == 31
          then get_bit value 31
          else if j == 30
          then (if value == 0 then 1 else 0)
          else if j == 29
          then (if carry_of opcode value carry_out then 1 else 0)
          else get_bit c j)
  update_flags_bits j h ne = update_flags_else j h ne ∙ three_flags_bits j h

  -- V is exact: signed overflow of the sum for ADD and CMN, of the difference for SUB and CMP;
  -- a logical opcode leaves it alone. (ADC, SBC, RSB and RSC are not covered.)
  pub update_flags_overflow :
      rn < 2 ^ 32
      → operand < 2 ^ 32
      → (opcode == 3 || opcode == 5 || opcode == 6 || opcode == 7) ≡ false
      → get_bit updated 28 ≡ (
          if opcode == 4 || opcode == 11
          then (if add_overflows rn operand then 1 else 0)
          else if opcode == 2 || opcode == 10
          then (if sub_overflows rn operand then 1 else 0)
          else get_bit c 28)
  update_flags_overflow hr ho covered = ground (
    arith,
    update_flags_shape,
    three_flags_bits 28 (omega arith),
    overflow_from_add rn operand opcode three_flags hr ho,
    overflow_from_sub rn operand opcode three_flags hr ho,
    get_bit-write_bit (add_overflows rn operand) three_flags 28 28 (omega arith) (omega arith),
    get_bit-write_bit (sub_overflows rn operand) three_flags 28 28 (omega arith) (omega arith),
  )

  pub update_flags-lt : c < 2 ^ 32 → updated < 2 ^ 32
  update_flags-lt h =
      let n = write_bit (get_bit value 31 == 1) c flag_n in
      let zn = write_bit (value == 0) n flag_z in
      let flags : three_flags < 2 ^ 32 =
        write_bit-lt (carry_of opcode value carry_out) zn flag_c
          (write_bit-lt (value == 0) n flag_z
            (write_bit-lt (get_bit value 31 == 1) c flag_n h (omega arith)) (omega arith))
          (omega arith) in
      rw update_flags_shape (ground (arith, overflow_from-lt rn operand opcode three_flags flags))

  -- The flag update keeps the mode bits.
  pub update_flags_mode : updated % 2 ^ 6 ≡ c % 2 ^ 6
  update_flags_mode = low_bits_ext 6 updated c (λ i p. ground (
    arith,
    get_bit-eq-bit_at updated i,
    get_bit-eq-bit_at c i,
    update_flags_bits i (omega arith) (omega arith),
  ))

  -- ADD, ADC and CMN with S always leave C clear, also where the sum does not fit 32 bits.
  adds_never_carry : rn < 2 ^ 32 → operand < 2 ^ 32 → adds opcode ≡ true → get_bit updated 29 ≡ 0
  adds_never_carry hr ho kind = ground (
    arith,
    update_flags_bits 29 (omega arith) (omega arith),
    operate-lt opcode rn operand c₀ s hr ho,
  )

  -- SUB and CMP with S leave C clear, the manual's sign of a borrow, though there is none, for
  -- every difference from 0 to 2 ^ 31 - 1.
  pub sub_reports_borrow :
      rn < 2 ^ 32
      → operand < 2 ^ 32
      → (opcode == 2 || opcode == 10) ≡ true
      → operand ≤ rn
      → rn - operand < 2 ^ 31
      → get_bit updated 29 ≡ 0
  sub_reports_borrow hr ho kind above near = ground (
    arith,
    update_flags_bits 29 (omega arith) (omega arith),
    operate_arithmetic opcode rn operand c₀ s,
    get_bit-eq-bit_at value 31,
  )
