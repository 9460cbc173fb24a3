-- ===== src/Gdb/Packets/Invariant.antt =====
-- gdb_protocol.c, scanner.l: what every token leaves of a session.
use arm_sim.Base.{
  ltb→lt, ℕ, ◌<◌, ◌-◌, ◌%◌, ◌&&◌, ◌||◌, ltb, ◌==◌, if◌then◌else◌, false, some, none, List, [], ◌∷◌,
}
use arm_sim.Base.Gives.{Meets, Meets-after, Meets-if, Meets-some, Meets-none}
use arm_sim.Host.{Host}
use arm_sim.Gdb.Text.{
  codes, count, drop, take, after, scan_hex, atoi, until_nul, same_text, read_uint32,
}
use arm_sim.Gdb.Breakpoints.Search.{IsTable}
use arm_sim.Gdb.Session.{
  Session, max_packet_size, frame, write_to_gdb, gdb_transmit_packet, gdb_send_buffer,
  gdb_send_data, gdb_send_stop_reason,
}
use arm_sim.Memory.{memory_get_size}
use arm_sim.Registers.{registers_get_mode, registers_write_cpsr}
use arm_sim.Gdb.Handlers.{
  read_registers, read_register, read_bytes, scan_range, write_registers, write_register,
  write_bytes, with_registers, with_memory, any_thread, query, read_general_registers, read_memory,
  read_single_register, set_thread, write_general_registers, write_single_register,
  write_memory_binary,
}

-- The table of breakpoints ascends within its array, and the packet fits in its array with a
-- terminator.
pub record IsSession (s : Session) : Type 0 where
  pub table : IsTable s.table
  pub packet : count s.packet < max_packet_size

pub write_to_gdb-IsSession :
    (s : Session) (cs : List ℕ) → IsSession s → Meets IsSession (write_to_gdb s cs)
write_to_gdb-IsSession s [] w = Meets-some IsSession s w
write_to_gdb-IsSession s (c ∷ cs) w =
    Meets-if IsSession s.is_open _ _
      (λ _. Meets-some IsSession _ (record { table = w.table; packet = w.packet }))
      (λ _. Meets-none IsSession)

gdb_send_buffer-IsSession :
    (s : Session) (reply : List ℕ) → IsTable s.table → Meets IsSession (gdb_send_buffer s reply)
unfolding gdb_send_buffer gdb_transmit_packet
gdb_send_buffer-IsSession s reply w =
    let s₁ = record s { packet = frame reply } in
    Meets-if IsSession (ltb (count (frame reply)) max_packet_size) (gdb_transmit_packet s₁) none
      (λ h.
        write_to_gdb-IsSession s₁ (frame reply)
          (record { table = w; packet = ltb→lt (count (frame reply)) max_packet_size h }))
      (λ _. Meets-none IsSession)

pub sends :
    (s : Session) (reply : List ℕ) → IsTable s.table → Meets IsSession (gdb_send_data s reply)
unfolding gdb_send_data
sends s reply w = gdb_send_buffer-IsSession s reply w

pub stops_with : (s : Session) → IsTable s.table → Meets IsSession (gdb_send_stop_reason s)
unfolding gdb_send_stop_reason
stops_with s w = sends s _ w

-- The handlers that leave the table alone.
module _ (host : Host) (s : Session) (w : IsTable s.table) (text : List ℕ) where
  abbrev mode : ℕ
  mode = registers_get_mode s.core.reg

  pub query-IsSession : Meets IsSession (query s text)
  unfolding query
  query-IsSession =
      Meets-if IsSession (same_text (until_nul text) (codes "Offsets")) _ _ (λ _. sends s _ w)
        (λ _.
          Meets-if IsSession (same_text (take 9 (until_nul text)) (codes "Supported")) _ _
            (λ _. sends s _ w)
            (λ _.
              Meets-if IsSession (same_text (until_nul text) (codes "TStatus")) _ _
                (λ _. sends s _ w) (λ _. sends s _ w)))

  pub read_general_registers-IsSession : Meets IsSession (read_general_registers host s)
  unfolding read_general_registers
  read_general_registers-IsSession =
      Meets-after IsSession (read_registers host s.core.reg 16 0) _
        (λ general. gdb_send_buffer-IsSession s _ w)

  pub read_memory-IsSession : Meets IsSession (read_memory host s text)
  unfolding read_memory
  read_memory-IsSession = Meets-after IsSession (scan_range text) _ (λ range.
      Meets-if IsSession (ltb range.0.0 (memory_get_size s.core.mem)) _ _
        (λ _.
          Meets-after IsSession (read_bytes host s.core.mem range.0.1 range.0.0) _
            (λ reply. gdb_send_buffer-IsSession s reply w))
        (λ _. gdb_send_buffer-IsSession s (codes "E0E") w))

  pub read_single_register-IsSession : Meets IsSession (read_single_register host s text)
  unfolding read_single_register
  read_single_register-IsSession = Meets-after IsSession (atoi text) _ (λ n.
      Meets-after IsSession
        (read_register host s.core.reg (if n.0 then (256 - n.1 % 256) % 256 else n.1 % 256)) _
        (λ reply. gdb_send_buffer-IsSession s reply w))

  pub write_general_registers-IsSession : Meets IsSession (write_general_registers host s text)
  unfolding write_general_registers
  write_general_registers-IsSession =
      Meets-after IsSession (write_registers host s.core.reg 16 0 text) _ (λ r.
        Meets-after IsSession (read_uint32 (drop 328 text)) _
          (λ value. sends (with_registers s (registers_write_cpsr r value)) _ w))

  pub write_single_register-IsSession : Meets IsSession (write_single_register host s text)
  unfolding write_single_register
  write_single_register-IsSession = Meets-after IsSession (scan_hex 32 text) _ (λ reg.
      Meets-after IsSession (after b'=' text) _ (λ written.
        Meets-after IsSession (write_register host s.core.reg reg.0 written) _
          (λ r. sends (with_registers s r) _ w)))

  pub write_memory_binary-IsSession : Meets IsSession (write_memory_binary s text)
  unfolding write_memory_binary
  write_memory_binary-IsSession = Meets-after IsSession (scan_range text) _ (λ range.
      Meets-after IsSession (after b':' text) _ (λ content.
        Meets-after IsSession
          (if ltb range.0.0 (memory_get_size s.core.mem)
            then write_bytes s.core.mem range.0.1 content range.0.0
            else some (false, s.core.mem))
          _ (λ done. sends (with_memory s done.1) _ w)))

pub set_thread-IsSession :
    (s : Session) (text : List ℕ) → IsTable s.table → Meets IsSession (set_thread s text)
unfolding set_thread
set_thread-IsSession s [] w = Meets-none IsSession
set_thread-IsSession s (type ∷ text) w = Meets-after IsSession (atoi text) _ (λ value.
    Meets-if IsSession ((type == b'c' || type == b'g') && any_thread value) _ _ (λ _. sends s _ w)
      (λ _. sends s _ w))
