-- ===== src/Instruction/Keeps.antt =====
-- arm_instruction.c: the step keeps the machine.
use arm_sim.Base.{ℕ, arith, ◌==◌, ◌&&◌, if◌then◌else◌}
use arm_sim.Host.{Host}
use arm_sim.Util.{u8, get_bit, get_bits}
use arm_sim.Util.Bounds.{IsWordHost}
use arm_sim.Registers.Words.{IsWord}
use arm_sim.Core.{arm_fetch, arm_read_cpsr}
use arm_sim.Core.Keeps.{Keeps, Keeps-pure, Keeps-if, Keeps-bind}
use arm_sim.Core.Accesses.{Keeps-arm_fetch, Keeps-arm_read_cpsr}
use arm_sim.BranchOther.{undefined_instruction, software_interrupt, arm_coprocessor_others_swi}
use arm_sim.BranchOther.Keeps.{
  Keeps-arm_branch, Keeps-arm_miscellaneous, Keeps-arm_miscellaneous_2, Keeps-arm_multiply,
}
use arm_sim.DataProcessing.Keeps.{
  Keeps-arm_data_processing_immediate_shift, Keeps-arm_data_processing_register_shift,
  Keeps-arm_data_processing_immediate,
}
use arm_sim.LoadStore.{arm_coprocessor_load_store}
use arm_sim.LoadStore.Keeps.{
  Keeps-arm_load_store_immediate_offset, Keeps-arm_load_store_register_offset,
}
use arm_sim.LoadStore.Multiple.Keeps.{Keeps-arm_load_store_multiple}
use arm_sim.LoadStore.Miscellaneous.Keeps.{Keeps-arm_load_store_miscellaneous}
use arm_sim.Exception.Keeps.{Keeps-arm_exception}
use arm_sim.Instruction.{flag_cond, arm_fetch_code_inst, arm_execute_instruction, arm_step}

module _ (host : Host) (w : IsWordHost host) where
  -- The decoder, for a fetched word and the CPSR.
  Keeps-arm_fetch_code_inst :
      (i c : ℕ) → IsWord i → IsWord c → Keeps IsWord (arm_fetch_code_inst host i c)
  unfolding arm_fetch_code_inst arm_coprocessor_load_store arm_coprocessor_others_swi
  Keeps-arm_fetch_code_inst i c hi hc =
      let code = get_bits i 27 25 in
      let op = get_bits i 24 23 in
      let s = get_bit i 20 in
      let undefined = Keeps-pure {Q = IsWord} undefined_instruction (omega arith) in
      Keeps-if (code == 0x0) _ _
        (λ _.
          Keeps-if (get_bit i 4 == 0) _ _
            (λ _.
              Keeps-if (op == 2 && s == 0) _ _ (λ _. Keeps-arm_miscellaneous host i)
                (λ _. Keeps-arm_data_processing_immediate_shift host w i c hc))
            (λ _.
              Keeps-if (get_bit i 7 == 0) _ _
                (λ _.
                  Keeps-if (op == 2 && s == 0) _ _ (λ _. Keeps-arm_miscellaneous_2 host i)
                    (λ _. Keeps-arm_data_processing_register_shift host w i c hc))
                (λ _.
                  Keeps-if (get_bit i 5 == 0 && get_bit i 6 == 0) _ _
                    (λ _. Keeps-arm_multiply host i c hc)
                    (λ _. Keeps-arm_load_store_miscellaneous host i))))
        (λ _.
          Keeps-if (code == 0x1) _ _
            (λ _.
              Keeps-if (op == 2 && s == 0) _ _ (λ _. undefined)
                (λ _. Keeps-arm_data_processing_immediate host w i c hc hi))
            (λ _.
              Keeps-if (code == 0x2) _ _ (λ _. Keeps-arm_load_store_immediate_offset host i)
                (λ _.
                  Keeps-if (code == 0x3) _ _
                    (λ _.
                      Keeps-if (get_bit i 4 == 0) _ _
                        (λ _. Keeps-arm_load_store_register_offset host i) (λ _. undefined))
                    (λ _.
                      Keeps-if (code == 0x4) _ _ (λ _. Keeps-arm_load_store_multiple host i w)
                        (λ _.
                          Keeps-if (code == 0x5) _ _ (λ _. Keeps-arm_branch host i)
                            (λ _.
                              Keeps-if (code == 0x6) _ _ (λ _. undefined)
                                (λ _.
                                  Keeps-if (get_bit i 24 == 0) _ _ (λ _. undefined)
                                    (λ _.
                                      Keeps-pure
                                        (if get_bit i 24 == 1
                                          then software_interrupt
                                          else undefined_instruction)
                                        (ground arith)))))))))

  Keeps-arm_execute_instruction : Keeps IsWord (arm_execute_instruction host)
  unfolding arm_execute_instruction
  Keeps-arm_execute_instruction =
      Keeps-bind (arm_fetch host host.uninit) _ (Keeps-arm_fetch host host.uninit w.unset) (λ r h.
        Keeps-if (r.0 == 0) _ _
          (λ _. Keeps-bind arm_read_cpsr _ Keeps-arm_read_cpsr (λ c k.
            Keeps-if (flag_cond (get_bits r.1 31 28) c) _ _
              (λ _. Keeps-arm_fetch_code_inst r.1 c h.1 k) (λ _. Keeps-pure 0 (omega arith))))
          (λ _. Keeps-pure 1 (omega arith)))

  pub Keeps-arm_step : Keeps IsWord (arm_step host)
  unfolding arm_step
  Keeps-arm_step = Keeps-bind (arm_execute_instruction host) _ Keeps-arm_execute_instruction (λ r h.
      Keeps-if (r == 0) _ _ (λ _. Keeps-pure 0 (omega arith))
        (λ _. Keeps-arm_exception host w (u8 r) (omega arith)))
