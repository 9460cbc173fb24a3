-- ===== src/Gdb/Machine/Handlers.antt =====
-- gdb_protocol.c: each handler leaves a machine.
use arm_sim.Base.{
  ℕ, zero, suc, ◌-◌, ◌%◌, ltb, ◌==◌, ◌&&◌, ◌||◌, not, if◌then◌else◌, Bool, true, false, Option,
  some, List, [], ◌∷◌,
}
use arm_sim.Base.Gives.{Meets, Meets-bind, Meets-after, Meets-if, Meets-some, Meets-none}
use arm_sim.Host.{Host}
use arm_sim.Util.Bounds.{IsWordHost}
use arm_sim.Memory.{memory_get_size}
use arm_sim.Registers.{registers_write_cpsr}
use arm_sim.Core.Keeps.{IsMachine}
use arm_sim.Core.Accesses
use arm_sim.Gdb.Text.{
  codes, drop, take, until_nul, same_text, after, expect, scan_hex, read_uint32, atoi,
}
use arm_sim.Gdb.Breakpoints.{gdb_add_breakpoint, gdb_remove_breakpoint}
use arm_sim.Gdb.Session.{Session, single_step, stops, cont_loop, cont, step}
use arm_sim.Gdb.Handlers.{
  query, read_registers, read_general_registers, read_bytes, scan_range, read_memory, read_register,
  read_single_register, any_thread, set_thread, write_register, write_registers, with_registers,
  write_general_registers, write_single_register, write_bytes, with_memory, write_memory_binary,
  set_breakpoint, remove_breakpoint,
}
use arm_sim.Gdb.Machine.{
  HasMachine, sends_buffer, sends, stops_with, read_uint32-IsWord, write_register-HoldsWords,
  write_registers-HoldsWords, registers_write_cpsr-HoldsWords, LeavesBytes, write_bytes-LeavesBytes,
  single_step-HasMachine,
}

-- The handlers that reply and leave the processor alone.
module _ (host : Host) (s : Session) (q : IsMachine s.core) (text : List ℕ) where
  pub query-HasMachine : Meets HasMachine (query s text)
  unfolding query
  query-HasMachine =
      Meets-if HasMachine (same_text (until_nul text) (codes "Offsets")) _ _ (λ _. sends s _ q)
        (λ _.
          Meets-if HasMachine (same_text (take 9 (until_nul text)) (codes "Supported")) _ _
            (λ _. sends s _ q)
            (λ _.
              Meets-if HasMachine (same_text (until_nul text) (codes "TStatus")) _ _
                (λ _. sends s _ q) (λ _. sends s _ q)))

  pub read_general_registers-HasMachine : Meets HasMachine (read_general_registers host s)
  unfolding read_general_registers
  read_general_registers-HasMachine =
      Meets-after HasMachine (read_registers host s.core.reg 16 0) _ (λ g. sends_buffer s _ q)

  pub read_memory-HasMachine : Meets HasMachine (read_memory host s text)
  unfolding read_memory
  read_memory-HasMachine = Meets-after HasMachine (scan_range text) _ (λ range.
      Meets-if HasMachine (ltb range.0.0 (memory_get_size s.core.mem)) _ _
        (λ _.
          Meets-after HasMachine (read_bytes host s.core.mem range.0.1 range.0.0) _
            (λ reply. sends_buffer s reply q))
        (λ _. sends_buffer s _ q))

  pub read_single_register-HasMachine : Meets HasMachine (read_single_register host s text)
  unfolding read_single_register
  read_single_register-HasMachine = Meets-after HasMachine (atoi text) _ (λ n.
      Meets-after HasMachine
        (read_register host s.core.reg (if n.0 then (256 - n.1 % 256) % 256 else n.1 % 256)) _
        (λ reply. sends_buffer s reply q))

  pub set_breakpoint-HasMachine : Meets HasMachine (set_breakpoint s text)
  unfolding set_breakpoint
  set_breakpoint-HasMachine = Meets-after HasMachine (scan_hex 8 text) _ (λ type.
      Meets-if HasMachine (not (type.0 == 0)) _ _ (λ _. sends s _ q)
        (λ _. Meets-after HasMachine (expect b',' type.1) _ (λ rest.
          Meets-after HasMachine (scan_hex 32 rest) _ (λ address.
            Meets-after HasMachine (gdb_add_breakpoint s.table address.0) _
              (λ r. sends (record s { table = r.1 }) _ q)))))

  pub remove_breakpoint-HasMachine : Meets HasMachine (remove_breakpoint s text)
  unfolding remove_breakpoint
  remove_breakpoint-HasMachine = Meets-after HasMachine (scan_hex 8 text) _ (λ type.
      Meets-if HasMachine (not (type.0 == 0)) _ _ (λ _. sends s _ q)
        (λ _. Meets-after HasMachine (expect b',' type.1) _ (λ rest.
          Meets-after HasMachine (scan_hex 32 rest) _ (λ address.
            Meets-after HasMachine (gdb_remove_breakpoint s.table address.0) _
              (λ r. sends (record s { table = r.1 }) _ q)))))

pub set_thread-HasMachine :
    (s : Session) (text : List ℕ) → IsMachine s.core → Meets HasMachine (set_thread s text)
unfolding set_thread
set_thread-HasMachine s [] q = Meets-none HasMachine
set_thread-HasMachine s (type ∷ text) q = Meets-after HasMachine (atoi text) _ (λ value.
    Meets-if HasMachine ((type == b'c' || type == b'g') && any_thread value) _ _ (λ _. sends s _ q)
      (λ _. sends s _ q))

-- The handlers that write registers or memory.
module _ (host : Host) (s : Session) (q : IsMachine s.core) (text : List ℕ) where
  pub write_general_registers-HasMachine : Meets HasMachine (write_general_registers host s text)
  unfolding write_general_registers
  write_general_registers-HasMachine =
      Meets-bind HasMachine (write_registers host s.core.reg 16 0 text) _
        (write_registers-HoldsWords host s.core.reg 16 0 text q.words)
        (λ r h.
          Meets-bind HasMachine (read_uint32 (drop 328 text)) _ (read_uint32-IsWord (drop 328 text))
            (λ v k.
              sends (with_registers s (registers_write_cpsr r v)) _
                (Accesses.with_registers s.core q _ (registers_write_cpsr-HoldsWords r v k h))))

  pub write_single_register-HasMachine : Meets HasMachine (write_single_register host s text)
  unfolding write_single_register
  write_single_register-HasMachine = Meets-after HasMachine (scan_hex 32 text) _ (λ reg.
      Meets-after HasMachine (after b'=' text) _ (λ written.
        Meets-bind HasMachine (write_register host s.core.reg reg.0 written) _
          (write_register-HoldsWords host s.core.reg reg.0 written q.words)
          (λ r h. sends (with_registers s r) _ (Accesses.with_registers s.core q r h))))

  pub write_memory_binary-HasMachine : Meets HasMachine (write_memory_binary s text)
  unfolding write_memory_binary
  write_memory_binary-HasMachine = Meets-after HasMachine (scan_range text) _ (λ range.
      Meets-after HasMachine (after b':' text) _ (λ content.
        Meets-bind HasMachine
          (if ltb range.0.0 (memory_get_size s.core.mem)
            then write_bytes s.core.mem range.0.1 content range.0.0
            else some (false, s.core.mem))
          _
          (Meets-if LeavesBytes (ltb range.0.0 (memory_get_size s.core.mem)) _ _
            (λ _. write_bytes-LeavesBytes s.core.mem range.0.1 content range.0.0 q.block)
            (λ _. Meets-some LeavesBytes (false, s.core.mem) q.block))
          (λ done h. sends (with_memory s done.1) _ (Accesses.with_memory s.core q done.1 h))))

-- The handlers that step the processor.
module _ (host : Host) (w : IsWordHost host) where
  cont_loop-HasMachine :
      (fuel : ℕ) (s : Session) → HasMachine s → Meets HasMachine (cont_loop host fuel s)
  unfolding cont_loop
  cont_loop-HasMachine zero s q = Meets-none HasMachine
  cont_loop-HasMachine (suc fuel) s q =
      Meets-bind HasMachine (single_step host s) _ (single_step-HasMachine host w s q) (λ s₁ q₁.
        Meets-after HasMachine (stops host s₁) _
          (λ stop. ends stop s₁ q₁ (cont_loop host fuel s₁) (cont_loop-HasMachine fuel s₁ q₁)))
    where
      ends :
          (stop : Bool) (s₁ : Session)
          → HasMachine s₁
          → (rest : Option Session) → Meets HasMachine rest
          → Meets HasMachine (elim stop [ true ↦ some s₁ | false ↦ rest ])
      ends true s₁ q₁ rest k = Meets-some HasMachine s₁ q₁
      ends false s₁ q₁ rest k = k

  pub cont-HasMachine :
      (fuel : ℕ) (s : Session) → HasMachine s → Meets HasMachine (cont host fuel s)
  unfolding cont
  cont-HasMachine fuel s q =
      Meets-bind HasMachine (cont_loop host fuel s) _ (cont_loop-HasMachine fuel s q)
        (λ s₁ q₁. stops_with s₁ q₁.machine)

  pub step-HasMachine : (s : Session) → HasMachine s → Meets HasMachine (step host s)
  unfolding step
  step-HasMachine s q =
      Meets-bind HasMachine (single_step host s) _ (single_step-HasMachine host w s q)
        (λ s₁ q₁. stops_with s₁ q₁.machine)
