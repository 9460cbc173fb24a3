-- ===== src/BranchOther/Keeps.antt =====
-- arm_branch_other.c: the handlers keep the machine.
use arm_sim.Base.{ℕ, ◌≡◌, arith, Bool, true, false, ◌==◌, refl, bit_and, not}
use arm_sim.Bits.{bit_and-le}
use arm_sim.Host.{Host}
use arm_sim.Util.Laws.{set_bit-lt, clr_bit-lt}
use arm_sim.DataProcessing.Flags.{flag_c, flag_z}
use arm_sim.Util.{set_bit, clr_bit, get_bit, get_bits, add32, sub32, mul32}
use arm_sim.Registers.Words.{IsWord}
use arm_sim.Core.{
  M, pure, ◌>>◌, arm_read_register, arm_write_register, arm_read_cpsr, arm_read_spsr,
  arm_write_cpsr, arm_current_mode_has_spsr, emit, mrs_notice,
}
use arm_sim.Core.Keeps.{Keeps, Any, Keeps-pure, Keeps-if, Keeps-bind, Keeps-then}
use arm_sim.Core.Accesses.{
  Keeps-arm_read_register, Keeps-arm_write_register, Keeps-arm_read_cpsr, Keeps-arm_read_spsr,
  Keeps-arm_write_cpsr, Keeps-emit, Keeps-arm_current_mode_has_spsr,
}
use arm_sim.BranchOther.{
  lr, pc, when, data_abort, branch_offset, arm_branch, arm_miscellaneous, arm_miscellaneous_2,
  arm_multiply, multiply_flags,
}

pub Keeps-when :
    (test : Bool) (m : M (Unit {0})) → (test ≡ true → Keeps Any m) → Keeps Any (when test m)
Keeps-when true m k = k refl
Keeps-when false m k = Keeps-pure tt tt

-- A write of a register at the end, with the code 0.
pub Keeps-last_write :
    (host : Host) (i v : ℕ) → IsWord v → Keeps IsWord (do arm_write_register host i v; pure 0)
Keeps-last_write host i v h =
    Keeps-then _ _ (Keeps-arm_write_register host i v h) (Keeps-pure 0 (omega arith))

multiply_flags-lt : (v cpsr : ℕ) → IsWord cpsr → IsWord (multiply_flags v cpsr)
unfolding multiply_flags
multiply_flags-lt v cpsr h = ground (
  arith,
  set_bit-lt cpsr flag_c h (omega arith),
  clr_bit-lt cpsr flag_c h,
  set_bit-lt (set_bit cpsr flag_c) flag_z (set_bit-lt cpsr flag_c h (omega arith)) (omega arith),
  clr_bit-lt (set_bit cpsr flag_c) flag_z (set_bit-lt cpsr flag_c h (omega arith)),
  set_bit-lt (clr_bit cpsr flag_c) flag_z (clr_bit-lt cpsr flag_c h) (omega arith),
  clr_bit-lt (clr_bit cpsr flag_c) flag_z (clr_bit-lt cpsr flag_c h),
)

module _ (host : Host) (ins : ℕ) where
  pub Keeps-arm_branch : Keeps IsWord (arm_branch host ins)
  unfolding arm_branch
  Keeps-arm_branch =
      Keeps-bind (arm_read_register host pc) _ (Keeps-arm_read_register host pc) (λ v h.
        Keeps-then (when (get_bit ins 24 == 1) (arm_write_register host lr (sub32 v 4))) _
          (Keeps-when _ _ (λ _. Keeps-arm_write_register host lr (sub32 v 4) (omega arith)))
          (Keeps-last_write host pc (add32 v (branch_offset ins)) (omega arith)))

  pub Keeps-arm_miscellaneous_2 : Keeps IsWord (arm_miscellaneous_2 host ins)
  unfolding arm_miscellaneous_2
  Keeps-arm_miscellaneous_2 =
      Keeps-bind (arm_read_register host (get_bits ins 3 0)) _
        (Keeps-arm_read_register host (get_bits ins 3 0))
        (λ v h.
          Keeps-last_write host pc (bit_and v 0xfffffffe) (omega (arith, bit_and-le v 0xfffffffe)))

  pub Keeps-arm_miscellaneous : Keeps IsWord (arm_miscellaneous host ins)
  unfolding arm_miscellaneous
  Keeps-arm_miscellaneous =
      let rd = get_bits ins 15 12 in
      Keeps-then (emit mrs_notice) _ (Keeps-emit mrs_notice) (
        Keeps-if (get_bit ins 22 == 1) _ _
          (λ _. Keeps-bind arm_current_mode_has_spsr _ Keeps-arm_current_mode_has_spsr (λ has _.
            Keeps-if (not has) _ _ (λ _. Keeps-pure data_abort (omega arith))
              (λ _.
                Keeps-bind (arm_read_spsr host) _ (Keeps-arm_read_spsr host)
                  (λ v h. Keeps-last_write host rd v h))))
          (λ _.
            Keeps-bind arm_read_cpsr _ Keeps-arm_read_cpsr (λ v h. Keeps-last_write host rd v h)))

  pub Keeps-arm_multiply : (cpsr : ℕ) → IsWord cpsr → Keeps IsWord (arm_multiply host ins cpsr)
  unfolding arm_multiply
  Keeps-arm_multiply cpsr hc =
      Keeps-bind (arm_read_register host (get_bits ins 11 8)) _
        (Keeps-arm_read_register host (get_bits ins 11 8))
        (λ rs hs.
          Keeps-bind (arm_read_register host (get_bits ins 3 0)) _
            (Keeps-arm_read_register host (get_bits ins 3 0))
            (λ rm hm.
              Keeps-then (arm_write_register host (get_bits ins 19 16) (mul32 rs rm)) _
                (Keeps-arm_write_register host (get_bits ins 19 16) (mul32 rs rm) (omega arith))
                (Keeps-then
                  (when (get_bit ins 4 == 1) (arm_write_cpsr (multiply_flags (mul32 rs rm) cpsr))) _
                  (Keeps-when _ _ (λ _.
                    Keeps-arm_write_cpsr (multiply_flags (mul32 rs rm) cpsr)
                      (multiply_flags-lt (mul32 rs rm) cpsr hc)))
                  (Keeps-pure 0 (omega arith)))))
