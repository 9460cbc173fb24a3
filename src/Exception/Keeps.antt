-- ===== src/Exception/Keeps.antt =====
-- arm_exception.c: the handling of exceptions keeps the machine.
use arm_sim.Base.{
  ℕ, zero, suc, ◌^◌, ◌<◌, arith, Bool, true, false, ◌==◌, bit_and, some, List, [], ◌∷◌,
}
use arm_sim.Host.{Host}
use arm_sim.Util.{u8, add32, sub32, get_bit}
use arm_sim.Util.Bounds.{IsWordHost}
use arm_sim.Registers.Words.{IsWord}
use arm_sim.Core.{
  ArmCore, pure, ◌>>=◌, emit, character, decimal, text, unknown_swi, arm_read_register,
  arm_write_register, arm_read_cpsr, arm_write_cpsr, arm_write_spsr, arm_read_byte, arm_read_word,
}
use arm_sim.Core.Keeps.{
  IsMachine, AllWords, Ends, Keeps, Any, Keeps-pure, Keeps-if, Keeps-bind, Keeps-then,
}
use arm_sim.Core.Accesses.{
  Keeps-arm_read_register, Keeps-arm_write_register, Keeps-arm_read_cpsr, Keeps-arm_write_cpsr,
  Keeps-arm_write_spsr, Keeps-arm_read_byte, Keeps-arm_read_word, Keeps-emit,
}
use arm_sim.BranchOther.{lr, pc, reset, interrupt, software_interrupt, end_simulation}
use arm_sim.BranchOther.Keeps.{Keeps-last_write}
use arm_sim.Exception.Irq.{irq_cpsr-lt}
use arm_sim.Exception.{
  sp, reset_cpsr, irq_vector_adr, string_loop, print_string, scan_int, serve, software_exception,
  irq_cpsr, enter_irq, irq_exception, reset_exception, arm_exception,
}

module _ (host : Host) (w : IsWordHost host) where
  Keeps-string_loop : (room a v : ℕ) → v < 2 ^ 8 → Keeps Any (string_loop host room a v)
  unfolding string_loop
  Keeps-string_loop zero a v h = record { at = λ p q. tt }
  Keeps-string_loop (suc room) a v h =
      let next : (c : ℕ) → c < 2 ^ 8 → Keeps Any (string_loop host room (add32 a 1) c) =
        Keeps-string_loop room (add32 a 1) in
      Keeps-bind (arm_read_byte host a v) _ (Keeps-arm_read_byte host a v h)
        (λ r k. rest r.1 (r.1 == 0) (next r.1 k.1))
    where
      rest :
          (c : ℕ) (b : Bool)
          → Keeps Any (string_loop host room (add32 a 1) c)
          → Keeps Any (elim b [
            | true ↦ pure []
            | false ↦ do more ← string_loop host room (add32 a 1) c; pure (c ∷ more)
          ])
      rest c true k = Keeps-pure [] tt
      rest c false k =
          Keeps-bind (string_loop host room (add32 a 1) c) _ k (λ more _. Keeps-pure (c ∷ more) tt)

  Keeps-print_string : Keeps Any (print_string host)
  unfolding print_string
  Keeps-print_string =
      Keeps-bind (arm_read_register host 0) _ (Keeps-arm_read_register host 0) (λ a _.
        Keeps-bind (string_loop host 100 a (u8 host.uninit)) _
          (Keeps-string_loop 100 a (u8 host.uninit) (omega arith)) (λ c _. Keeps-emit (text c)))

  Keeps-scan_int : Keeps IsWord (scan_int host)
  unfolding scan_int
  Keeps-scan_int = record { at = λ p q. scanned p q p.inp q.numbers }
    where
      scanned :
          (p : ArmCore)
          → IsMachine p
          → (inp : List ℕ) → AllWords inp
          → Ends IsWord
              (elim inp [ [] ↦ some (host.uninit, p) | x ∷ xs ↦ some (x, record p { inp = xs }) ])
      scanned p q [] h = (w.unset, q)
      scanned p q (x ∷ xs) h =
          (h.0, record { words = q.words; cycles = q.cycles; block = q.block; numbers = h.1 })

  Keeps-serve : (i : ℕ) → Keeps IsWord (serve host i)
  unfolding serve
  Keeps-serve i =
      Keeps-if (i == 0x123456) _ _ (λ _. Keeps-pure end_simulation (omega arith))
        (λ _.
          Keeps-if (i == 1) _ _
            (λ _. Keeps-bind (arm_read_register host 0) _ (Keeps-arm_read_register host 0) (λ v _.
              Keeps-then (emit (character (u8 v))) _ (Keeps-emit (character (u8 v)))
                (Keeps-pure 0 (omega arith))))
            (λ _.
              Keeps-if (i == 2) _ _
                (λ _.
                  Keeps-bind (arm_read_register host 0) _ (Keeps-arm_read_register host 0) (λ v _.
                    Keeps-then (emit (decimal v)) _ (Keeps-emit (decimal v))
                      (Keeps-pure 0 (omega arith))))
                (λ _.
                  Keeps-if (i == 3) _ _
                    (λ _.
                      Keeps-then (print_string host) _ Keeps-print_string
                        (Keeps-pure 0 (omega arith)))
                    (λ _.
                      Keeps-if (i == 4) _ _
                        (λ _.
                          Keeps-bind (scan_int host) _ Keeps-scan_int
                            (λ x h. Keeps-last_write host 0 x h))
                        (λ _.
                          Keeps-then (emit (unknown_swi i)) _ (Keeps-emit (unknown_swi i))
                            (Keeps-pure software_interrupt (omega arith)))))))

  Keeps-software_exception : Keeps IsWord (software_exception host)
  unfolding software_exception
  Keeps-software_exception =
      Keeps-bind (arm_read_register host pc) _ (Keeps-arm_read_register host pc) (λ a _.
        Keeps-bind (arm_read_word host (sub32 a 8) host.uninit) _
          (Keeps-arm_read_word host (sub32 a 8) host.uninit w.unset)
          (λ r _. Keeps-serve (bit_and r.1 0xffffff)))

  Keeps-enter_irq : (c : ℕ) → IsWord c → Keeps IsWord (enter_irq host c)
  unfolding enter_irq
  Keeps-enter_irq c h =
      Keeps-bind (arm_read_register host sp) _ (Keeps-arm_read_register host sp) (λ s hs.
        Keeps-bind (arm_read_register host pc) _ (Keeps-arm_read_register host pc) (λ r hr.
          Keeps-then (arm_write_cpsr (irq_cpsr c)) _
            (Keeps-arm_write_cpsr (irq_cpsr c) (irq_cpsr-lt c h))
            (Keeps-then (arm_write_spsr host c) _ (Keeps-arm_write_spsr host c h) (
              Keeps-then (arm_write_register host pc (sub32 irq_vector_adr 4)) _
                (Keeps-arm_write_register host pc (sub32 irq_vector_adr 4) (omega arith))
                (Keeps-then (arm_write_register host lr r) _ (Keeps-arm_write_register host lr r hr)
                  (Keeps-then (arm_write_register host sp s) _
                    (Keeps-arm_write_register host sp s hs)
                    (Keeps-pure interrupt (omega arith))))))))

  pub Keeps-arm_exception : (e : ℕ) → IsWord e → Keeps IsWord (arm_exception host e)
  unfolding arm_exception irq_exception reset_exception
  Keeps-arm_exception e h =
      Keeps-if (e == software_interrupt) _ _ (λ _. Keeps-software_exception)
        (λ _.
          Keeps-if (e == interrupt) _ _
            (λ _. Keeps-bind arm_read_cpsr _ Keeps-arm_read_cpsr (λ c k.
              Keeps-if (get_bit c 7 == 0) _ _ (λ _. Keeps-enter_irq c k)
                (λ _. Keeps-pure 1 (omega arith))))
            (λ _.
              Keeps-if (e == reset) _ _
                (λ _.
                  Keeps-then (arm_write_cpsr reset_cpsr) _
                    (Keeps-arm_write_cpsr reset_cpsr (omega arith))
                    (Keeps-then (arm_write_register host pc 0) _
                      (Keeps-arm_write_register host pc 0 (omega arith))
                      (Keeps-pure reset (omega arith))))
                (λ _. Keeps-pure e h)))
