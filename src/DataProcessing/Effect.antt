-- ===== src/DataProcessing/Effect.antt =====
-- arm_data_processing.c: what a data-processing operation does to the registers and the CPSR.
use arm_sim.Base.{ℕ, ◌/◌, ◌%◌, ◌^◌, ◌<◌, ◌≡◌, ◌∙◌, sym, ap, arith, refl, Bool, false, some}
use arm_sim.Base.{leb, ◌==◌, ◌&&◌, ◌||◌, not, if◌then◌else◌}
use arm_sim.Host.{Host}
use arm_sim.Util.{get_bits}
use arm_sim.Util.Laws.{get_bits-eq}
use arm_sim.Core.{ArmCore, as_read}
use arm_sim.Core.File.{
  IsRegular, reg_at, put_reg, put_cpsr, cpsr_of, arm_read_register-eq, arm_write_register-eq,
  arm_write_cpsr-eq, reg_at-put_reg, reg_at-put_cpsr, cpsr_of-put_cpsr, cpsr_of-put_reg,
  put_reg-IsRegular, put_cpsr-IsRegular, reg_at-lt, as_read-lt, cpsr_of-lt, if-IsRegular,
}
use arm_sim.DataProcessing.Alu.{operate-lt}
use arm_sim.DataProcessing.Update.{update_flags_mode, update_flags-lt}
use arm_sim.DataProcessing.{Operation, operate, update_flags, write_result, apply_operator}

abbrev compares : ℕ → Bool
compares opcode = leb 8 opcode && leb opcode 11

operate_writes :
    (opcode rn operand c : ℕ) (s : Bool)
    → (operate opcode rn operand s c).update_rd ≡ not (compares opcode)
unfolding operate
operate_writes opcode rn operand c s = ground arith

operate_sets :
    (opcode rn operand c : ℕ) (s : Bool)
    → (operate opcode rn operand s c).s ≡ (s || compares opcode)
unfolding operate
operate_sets opcode rn operand c s = ground arith

nibble : (ins h l : ℕ) → get_bits ins h l ≡ ins / 2 ^ l % 2 ^ 4 → get_bits ins h l < 16
nibble ins h l e = omega (arith, e)

write_result-eq :
    (host : Host) (p : ArmCore) (rd : ℕ) (op : Operation) (c : ℕ)
    → IsRegular p
    → rd < 16
    → (op.update_rd && op.s && rd == 15) ≡ false
    → write_result host rd op c p
      ≡ some (c, (if op.update_rd then put_reg host rd op.rd_value p else p))
unfolding write_result
write_result-eq host p rd op c w h no_restore =
    ground (arith, arm_write_register-eq host p w rd h op.rd_value)

module _ (host : Host) (p : ArmCore) (w : IsRegular p) (ins operand carry_out : ℕ) (s : Bool) where
  abbrev opcode : ℕ
  opcode = get_bits ins 24 21

  abbrev rd : ℕ
  rd = get_bits ins 15 12

  abbrev rn : ℕ
  rn = get_bits ins 19 16

  abbrev rn_value : ℕ
  rn_value = as_read rn (reg_at host p rn)

  abbrev op : Operation
  op = operate opcode rn_value operand s (cpsr_of p)

  abbrev flags : ℕ
  flags = update_flags op rn_value operand carry_out opcode (cpsr_of p)

  rd-lt : rd < 16
  rd-lt = nibble ins 15 12 (get_bits-eq ins 15 12 refl)

  rn-lt : rn < 16
  rn-lt = nibble ins 19 16 (get_bits-eq ins 19 16 refl)

  -- The state after the write of Rd, and after the flags.
  abbrev written : ArmCore
  written = if compares opcode then p else put_reg host rd op.rd_value p

  abbrev final : ArmCore
  final = if s || compares opcode then put_cpsr flags written else written

  apply_operator-final :
      ((s || compares opcode) && not (compares opcode) && rd == 15) ≡ false
      → apply_operator host ins operand carry_out s (cpsr_of p) p ≡ some (0, final)
  unfolding apply_operator
  apply_operator-final no_restore = ground (
    arith,
    arm_read_register-eq host p w rn rn-lt,
    operate_writes opcode rn_value operand (cpsr_of p) s,
    operate_sets opcode rn_value operand (cpsr_of p) s,
    write_result-eq host p rd op (cpsr_of p) w rd-lt,
    arm_write_cpsr-eq written flags,
  )

  value-lt : operand < 2 ^ 32 → op.rd_value < 2 ^ 32
  value-lt ho =
      operate-lt opcode rn_value operand (cpsr_of p) s
        (as_read-lt rn (reg_at host p rn) (reg_at-lt host p w rn rn-lt)) ho

  written-IsRegular : operand < 2 ^ 32 → IsRegular written
  written-IsRegular ho =
      if-IsRegular (compares opcode) p (put_reg host rd op.rd_value p) w
        (put_reg-IsRegular host p w rd rd-lt op.rd_value (value-lt ho))

  cpsr_of-written : cpsr_of written ≡ cpsr_of p
  cpsr_of-written = ground (arith, cpsr_of-put_reg host p rd op.rd_value rd-lt)

  keeps_mode : flags % 2 ^ 6 ≡ cpsr_of written % 2 ^ 6
  keeps_mode =
      update_flags_mode opcode rn_value operand carry_out (cpsr_of p) (cpsr_of p) s
      ∙ ap (λ (t : ℕ). t % 2 ^ 6) (sym cpsr_of-written)

  flags-lt : flags < 2 ^ 32
  flags-lt =
      update_flags-lt opcode rn_value operand carry_out (cpsr_of p) (cpsr_of p) s (cpsr_of-lt p w)

  final-IsRegular : operand < 2 ^ 32 → IsRegular final
  final-IsRegular ho =
      if-IsRegular (s || compares opcode) (put_cpsr flags written) written
        (put_cpsr-IsRegular host written flags keeps_mode flags-lt (written-IsRegular ho))
        (written-IsRegular ho)

  -- On a regular core a data-processing operation returns 0. It writes its result to Rd, unless it
  -- is a comparison, and changes no other register; the CPSR becomes the updated flags if the S bit
  -- is set or it is a comparison, and stays as it was otherwise; memory and output stay, and
  -- the core is regular again. (An operation with S and Rd = pc is not covered.)
  pub apply_operator_effect :
      (j : ℕ)
      → j < 16
      → operand < 2 ^ 32
      → ((s || compares opcode) && not (compares opcode) && rd == 15) ≡ false
      → (p' : ArmCore) × (apply_operator host ins operand carry_out s (cpsr_of p) p ≡ some (0, p'))
        × (reg_at host p' j
            ≡ (if not (compares opcode) && rd == j then op.rd_value else reg_at host p j))
        × (cpsr_of p' ≡ (if s || compares opcode then flags else cpsr_of p))
        × (p'.mem ≡ p.mem)
        × (p'.out ≡ p.out)
        × IsRegular p'
  apply_operator_effect j hj ho no_restore = (
    final,
    apply_operator-final no_restore,
    ground (
      arith,
      value-lt ho,
      reg_at-put_reg host p w rd rd-lt op.rd_value j,
      reg_at-put_cpsr host written flags keeps_mode j hj,
    ),
    ground (arith, cpsr_of-written, cpsr_of-put_cpsr written flags),
    unfold put_reg put_cpsr in ground arith,
    unfold put_reg put_cpsr in ground arith,
    final-IsRegular ho,
  )
