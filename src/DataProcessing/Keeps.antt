-- ===== src/DataProcessing/Keeps.antt =====
-- arm_data_processing.c: the handlers keep the machine.
use arm_sim.Base.{ℕ, ◌*◌, arith, Bool, ◌==◌, ◌&&◌, if◌then◌else◌}
use arm_sim.Bits.{bit_or-lt}
use arm_sim.Host.{Host}
use arm_sim.Util.{u32, ◌<<<◌, ◌>>>◌, get_bits, ror}
use arm_sim.Util.Bounds.{IsWordHost, shifted_right-lt, asr-lt, ror-lt, get_bits-lt}
use arm_sim.Registers.Words.{IsWord}
use arm_sim.Core.{
  pure, ◌>>=◌, arm_read_register, arm_write_register, arm_read_spsr, arm_write_cpsr,
  arm_current_mode_has_spsr,
}
use arm_sim.Core.Keeps.{Keeps, Keeps-pure, Keeps-if, Keeps-bind, Keeps-then}
use arm_sim.Core.Accesses.{
  Keeps-arm_read_register, Keeps-arm_write_register, Keeps-arm_read_spsr, Keeps-arm_write_cpsr,
  Keeps-arm_current_mode_has_spsr,
}
use arm_sim.DataProcessing.Shifter.{
  get_shifter_operand_immediate_shift, shift_by_count, get_shifter_operand_register_shift,
}
use arm_sim.DataProcessing.Alu.{operate-lt}
use arm_sim.DataProcessing.Update.{update_flags-lt}
use arm_sim.DataProcessing.{
  Operation, operate, update_flags, write_result, apply_operator,
  arm_data_processing_immediate_shift, arm_data_processing_register_shift,
  arm_data_processing_immediate,
}

module _ (host : Host) (w : IsWordHost host) where
  immediate_shift-IsWord :
      (shift_imm code v cpsr : ℕ)
      → IsWord v
      → IsWord (get_shifter_operand_immediate_shift host shift_imm code v cpsr).operand
  unfolding get_shifter_operand_immediate_shift
  immediate_shift-IsWord k code v cpsr h = ground (
    arith,
    shifted_right-lt v k h,
    shifted_right-lt v 1 h,
    asr-lt host w v k h,
    ror-lt host w v k h,
    bit_or-lt 32 (u32 (cpsr <<< 31)) (v >>> 1) (omega arith) (shifted_right-lt v 1 h),
  )

  register_shift-IsWord :
      (code v rs cpsr : ℕ)
      → IsWord v
      → IsWord (get_shifter_operand_register_shift host code v rs cpsr).operand
  unfolding get_shifter_operand_register_shift shift_by_count
  register_shift-IsWord code v rs cpsr h =
      let k = get_bits rs 7 0 in
      ground
        (arith, shifted_right-lt v k h, asr-lt host w v k h, ror-lt host w v (get_bits rs 4 0) h)

module _ (host : Host) where
  Keeps-write_result :
      (rd : ℕ) (op : Operation) (cpsr : ℕ)
      → IsWord op.rd_value
      → IsWord cpsr
      → Keeps IsWord (write_result host rd op cpsr)
  unfolding write_result
  Keeps-write_result rd op cpsr hv hc =
      Keeps-if op.update_rd _ _
        (λ _.
          Keeps-bind
            (if op.s && rd == 15
              then (do
                has_spsr ← arm_current_mode_has_spsr
                if has_spsr then arm_read_spsr host else pure cpsr)
              else pure cpsr)
            _
            (Keeps-if (op.s && rd == 15) _ _
              (λ _. Keeps-bind arm_current_mode_has_spsr _ Keeps-arm_current_mode_has_spsr (λ has _.
                Keeps-if has _ _ (λ _. Keeps-arm_read_spsr host) (λ _. Keeps-pure cpsr hc)))
              (λ _. Keeps-pure cpsr hc))
            (λ c h.
              Keeps-then (arm_write_register host rd op.rd_value) _
                (Keeps-arm_write_register host rd op.rd_value hv) (Keeps-pure c h)))
        (λ _. Keeps-pure cpsr hc)

  Keeps-apply_operator :
      (ins operand carry_out : ℕ) (s : Bool) (cpsr : ℕ)
      → IsWord operand
      → IsWord cpsr
      → Keeps IsWord (apply_operator host ins operand carry_out s cpsr)
  unfolding apply_operator
  Keeps-apply_operator ins operand carry_out s cpsr ho hc =
      let opcode = get_bits ins 24 21 in
      let rn = get_bits ins 19 16 in
      let rd = get_bits ins 15 12 in
      Keeps-bind (arm_read_register host rn) _ (Keeps-arm_read_register host rn) (λ v h.
        let op = operate opcode v operand s cpsr in
        Keeps-bind (write_result host rd op cpsr) _
          (Keeps-write_result rd op cpsr (operate-lt opcode v operand cpsr s h ho) hc)
          (λ c k.
            Keeps-if op.s _ _
              (λ _.
                Keeps-then (arm_write_cpsr (update_flags op v operand carry_out opcode c)) _
                  (Keeps-arm_write_cpsr (update_flags op v operand carry_out opcode c)
                    (update_flags-lt opcode v operand carry_out cpsr c s k))
                  (Keeps-pure 0 (omega arith)))
              (λ _. Keeps-pure 0 (omega arith))))

module _ (host : Host) (w : IsWordHost host) (ins cpsr : ℕ) (hc : IsWord cpsr) where
  pub Keeps-arm_data_processing_immediate_shift :
      Keeps IsWord (arm_data_processing_immediate_shift host ins cpsr)
  unfolding arm_data_processing_immediate_shift
  Keeps-arm_data_processing_immediate_shift =
      let rm = get_bits ins 3 0 in
      Keeps-bind (arm_read_register host rm) _ (Keeps-arm_read_register host rm) (λ v h.
        let k = get_bits ins 11 7 in
        let code = get_bits ins 6 5 in
        Keeps-apply_operator host ins
          (get_shifter_operand_immediate_shift host k code v cpsr).operand _ _ cpsr
          (immediate_shift-IsWord host w k code v cpsr h) hc)

  pub Keeps-arm_data_processing_register_shift :
      Keeps IsWord (arm_data_processing_register_shift host ins cpsr)
  unfolding arm_data_processing_register_shift
  Keeps-arm_data_processing_register_shift =
      let rm = get_bits ins 3 0 in
      let rs = get_bits ins 11 8 in
      Keeps-bind (arm_read_register host rm) _ (Keeps-arm_read_register host rm) (λ v h.
        Keeps-bind (arm_read_register host rs) _ (Keeps-arm_read_register host rs) (λ n _.
          let code = get_bits ins 6 5 in
          Keeps-apply_operator host ins
            (get_shifter_operand_register_shift host code v n cpsr).operand _ _ cpsr
            (register_shift-IsWord host w code v n cpsr h) hc))

  pub Keeps-arm_data_processing_immediate :
      IsWord ins → Keeps IsWord (arm_data_processing_immediate host ins cpsr)
  unfolding arm_data_processing_immediate
  Keeps-arm_data_processing_immediate hi =
      let v = get_bits ins 7 0 in
      let n = get_bits ins 11 8 * 2 in
      Keeps-apply_operator host ins (ror host v n) _ _ cpsr
        (ror-lt host w v n (get_bits-lt ins 7 0 hi)) hc
