-- ===== src/Gdb/Machine.antt =====
-- gdb_protocol.c: what the handlers leave of the machine that the session drives.
pub mod Handlers
pub mod Dispatch
use arm_sim.Base.{
  ℕ, zero, suc, ◌+◌, ◌-◌, ◌*◌, ◌%◌, ◌^◌, ◌<◌, arith, ltb→lt, ltb, ◌==◌, ◌&&◌, ◌||◌, if◌then◌else◌,
  Bool, true, false, Option, some, none, List, [], ◌∷◌,
}
use arm_sim.Base.Gives.{Gives, Meets, Meets-bind, Meets-after, Meets-if, Meets-some, Meets-none}
use arm_sim.Host.{Host}
use arm_sim.Util.{u8, add32}
use arm_sim.Util.Bounds.{IsWordHost}
use arm_sim.Memory.{Memory, memory_get_size, memory_write_byte}
use arm_sim.Memory.Bytes.{HoldsBytes, memory_write_byte_bytes}
use arm_sim.Registers.{Registers, registers_get_mode, registers_write, registers_write_cpsr}
use arm_sim.Registers.Words.{IsWord, HoldsWords, registers_write_words}
use arm_sim.Core.{ArmCore}
use arm_sim.Core.Keeps.{IsMachine, Ends, Keeps}
use arm_sim.Core.Accesses.{all_cells, all_bytes, IsStored}
use arm_sim.Instruction.{arm_step}
use arm_sim.Instruction.Keeps.{Keeps-arm_step}
use arm_sim.Trace.{trace_arm_state}
use arm_sim.Gdb.Text.{
  codes, drop, take, until_nul, same_text, after, skip_spaces, skip_sign, skip_prefix, scan_number,
  scan_hex, read_uint32, atoi,
}
use arm_sim.Gdb.Session.{
  Session, max_packet_size, frame, write_to_gdb, gdb_transmit_packet, gdb_send_buffer,
  gdb_send_data, gdb_send_stop_reason, single_step, stops, cont_loop, cont, step,
}
use arm_sim.Gdb.Handlers.{
  query, read_registers, read_general_registers, read_bytes, scan_range, read_memory, read_register,
  read_single_register, any_thread, set_thread, write_register, write_registers, with_registers,
  write_general_registers, write_single_register, unescape, write_bytes, with_memory,
  write_memory_binary,
}

-- The processor of the session is a machine.
pub record HasMachine (s : Session) : Type 0 where
  pub machine : IsMachine s.core

-- The replies leave the processor alone.
pub write_to_gdb-HasMachine :
    (s : Session) (cs : List ℕ) → IsMachine s.core → Meets HasMachine (write_to_gdb s cs)
write_to_gdb-HasMachine s [] w = Meets-some HasMachine s (record { machine = w })
write_to_gdb-HasMachine s (c ∷ cs) w =
    Meets-if HasMachine s.is_open _ _ (λ _. Meets-some HasMachine _ (record { machine = w }))
      (λ _. Meets-none HasMachine)

pub sends_buffer :
    (s : Session) (reply : List ℕ) → IsMachine s.core → Meets HasMachine (gdb_send_buffer s reply)
unfolding gdb_send_buffer gdb_transmit_packet
sends_buffer s reply w =
    Meets-if HasMachine (ltb _ max_packet_size) _ _
      (λ _. write_to_gdb-HasMachine (record s { packet = frame reply }) (frame reply) w)
      (λ _. Meets-none HasMachine)

pub sends :
    (s : Session) (reply : List ℕ) → IsMachine s.core → Meets HasMachine (gdb_send_data s reply)
unfolding gdb_send_data
sends s reply w = sends_buffer s reply w

pub stops_with : (s : Session) → IsMachine s.core → Meets HasMachine (gdb_send_stop_reason s)
unfolding gdb_send_stop_reason
stops_with s w = sends s _ w

-- The numbers that are scanned fit in the variables that hold them.
abbrev FitsIn : ℕ → ℕ × List ℕ → Type 0
FitsIn w r = r.0 < 2 ^ w

pub scan_hex-FitsIn : (cs : List ℕ) → Meets (FitsIn 32) (scan_hex 32 cs)
unfolding scan_hex
scan_hex-FitsIn cs =
    let text = skip_sign (skip_spaces cs) in
    Meets-after (FitsIn 32) (scan_number (skip_prefix text.1)) _ (λ r.
      Meets-if (FitsIn 32) (ltb r.0 (if text.0 then 1 else 2 ^ 32)) _ _
        (λ h. Meets-some (FitsIn 32) _ (ground (arith, h))) (λ _. Meets-none (FitsIn 32)))

pub read_uint32-IsWord : (cs : List ℕ) → Meets IsWord (read_uint32 cs)
unfolding read_uint32
read_uint32-IsWord cs =
    Meets-bind IsWord (scan_hex 32 (take 8 (skip_spaces cs))) _
      (scan_hex-FitsIn (take 8 (skip_spaces cs))) (λ r h. Meets-some IsWord r.0 h)

-- Registers that are written from a text hold words.
pub write_register-HoldsWords :
    (host : Host) (r : Registers) (i : ℕ) (text : List ℕ)
    → HoldsWords r
    → Meets HoldsWords (write_register host r i text)
unfolding write_register
write_register-HoldsWords host r i text w =
    let mode = registers_get_mode r in
    Meets-bind HoldsWords (read_uint32 text) _ (read_uint32-IsWord text) (λ v h.
      Meets-if HoldsWords (ltb i 16) (registers_write host r i mode v) none
        (λ _. record {
          meets = all_cells _ (λ j d. registers_write_words host r i mode v j d h (w j d));
        })
        (λ _. Meets-none HoldsWords))

pub write_registers-HoldsWords :
    (host : Host) (r : Registers) (n i : ℕ) (text : List ℕ)
    → HoldsWords r
    → Meets HoldsWords (write_registers host r n i text)
unfolding write_registers
write_registers-HoldsWords host r zero i text w = Meets-some HoldsWords r w
write_registers-HoldsWords host r (suc n) i text w =
    Meets-bind HoldsWords (write_register host r i text) _
      (write_register-HoldsWords host r i text w)
      (λ r₁ w₁. write_registers-HoldsWords host r₁ n (i + 1) (drop 8 text) w₁)

pub registers_write_cpsr-HoldsWords :
    (r : Registers) (v : ℕ) → IsWord v → HoldsWords r → HoldsWords (registers_write_cpsr r v)
unfolding registers_write_cpsr
registers_write_cpsr-HoldsWords r v h w j d = ground (arith, w j d)

-- Memory that is written from a text holds bytes.
abbrev pub LeavesBytes : Bool × Memory → Type 0
LeavesBytes r = HoldsBytes r.1

pub write_bytes-LeavesBytes :
    (mem : Memory) (size : ℕ) (content : List ℕ) (address : ℕ)
    → HoldsBytes mem
    → Meets LeavesBytes (write_bytes mem size content address)
unfolding write_bytes
write_bytes-LeavesBytes mem zero content address w = Meets-some LeavesBytes _ w
write_bytes-LeavesBytes mem (suc size) content address w =
    Meets-after LeavesBytes (unescape content) _ (λ u.
      Meets-bind LeavesBytes (memory_write_byte mem address (u8 u.0)) _
        (record {
          meets =
              all_bytes _ (λ i. memory_write_byte_bytes address (u8 u.0) i mem (w i) (omega arith));
        })
        (λ r h.
          goes r.1 h.1 u.1 (r.0 == 0) (write_bytes-LeavesBytes r.1 size u.1 (add32 address 1) h.1)))
  where
    goes :
        (m : Memory)
        → HoldsBytes m
        → (rest : List ℕ) (b : Bool) → Meets LeavesBytes (write_bytes m size rest (add32 address 1))
        → Meets LeavesBytes
            (elim b [ true ↦ write_bytes m size rest (add32 address 1) | false ↦ some (false, m) ])
    goes m h rest true k = k
    goes m h rest false k = Meets-some LeavesBytes _ h

-- The handlers that step the processor.
pub Ends-Meets {ℓ} :
    {A : Type ℓ} (Q : A → Type 0) (o : Option (A × ArmCore))
    → Ends Q o
    → Meets (λ r. IsMachine r.1) o
Ends-Meets Q none e = Meets-none _
Ends-Meets Q (some r) e = Meets-some _ r e.1

module _ (host : Host) (w : IsWordHost host) where
  pub single_step-HasMachine : (s : Session) → HasMachine s → Meets HasMachine (single_step host s)
  unfolding single_step
  single_step-HasMachine s q =
      Meets-bind HasMachine (arm_step host s.core) _
        (Ends-Meets IsWord (arm_step host s.core) ((Keeps-arm_step host w).at s.core q.machine))
        (λ r h.
          Meets-after HasMachine (trace_arm_state host r.1.reg s.trace) _
            (λ t. Meets-some HasMachine _ (record { machine = h })))
