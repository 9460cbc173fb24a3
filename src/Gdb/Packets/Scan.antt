-- ===== src/Gdb/Packets/Scan.antt =====
-- gdb_protocol.c, scanner.l: what every packet, and every token of the scanner, leaves.
use arm_sim.Base.{ℕ, ◌-◌, ◌≤◌, ◌≡◌, arith, ltb, ◌==◌, if◌then◌else◌, some, List, [], ◌∷◌, refl}
use arm_sim.Base.Gives.{Meets, Meets-bind, Meets-if, Meets-some, Meets-none, Meets-weaken}
use arm_sim.Host.{Host}
use arm_sim.Gdb.Session.{Session, gdb_require_retransmission, kill_request}
use arm_sim.Gdb.Packets.{
  handlers, gdb_packet_analysis, ParserData, max_error_size, put_error, handle_error,
}
use arm_sim.Gdb.Packets.Keeps.{◌▸◌, AllSound, gdb_packet_analysis-Keeps}
use arm_sim.Gdb.Packets.Invariant.{
  IsSession, write_to_gdb-IsSession, sends, stops_with, query-IsSession,
  read_general_registers-IsSession, read_memory-IsSession, read_single_register-IsSession,
  write_general_registers-IsSession, write_single_register-IsSession, write_memory_binary-IsSession,
  set_thread-IsSession,
}
use arm_sim.Gdb.Packets.Stepping.{
  set_breakpoint-IsSession, remove_breakpoint-IsSession, cont-IsSession, step-IsSession,
}

kill_request-IsSession : (s : Session) → IsSession s → IsSession (kill_request s)
unfolding kill_request
kill_request-IsSession s w = record { table = w.table; packet = w.packet }

module _ (host : Host) (fuel : ℕ) where
  all_sound : AllSound IsSession (handlers host fuel)
  all_sound =
      (λ s text w. cont-IsSession host fuel s w.table)
      ▸ (λ s text w. cont-IsSession host fuel s w.table)
      ▸ (λ s text w. Meets-some IsSession _ (kill_request-IsSession s w))
      ▸ (λ s text w. query-IsSession host s w.table text)
      ▸ (λ s text w. read_general_registers-IsSession host s w.table text)
      ▸ (λ s text w. read_memory-IsSession host s w.table text)
      ▸ (λ s text w. read_single_register-IsSession host s w.table text)
      ▸ (λ s text w. stops_with s w.table)
      ▸ (λ s text w. set_thread-IsSession s text w.table)
      ▸ (λ s text w. step-IsSession host s w.table)
      ▸ (λ s text w. step-IsSession host s w.table)
      ▸ (λ s text w. write_general_registers-IsSession host s w.table text)
      ▸ (λ s text w. write_memory_binary-IsSession host s w.table text)
      ▸ (λ s text w. write_single_register-IsSession host s w.table text)
      ▸ (λ s text w. remove_breakpoint-IsSession s w.table text)
      ▸ (λ s text w. set_breakpoint-IsSession s w.table text)
      ▸ tt

  pub gdb_packet_analysis-IsSession :
      (s : Session) (packet : List ℕ)
      → IsSession s
      → Meets IsSession (gdb_packet_analysis host fuel s packet)
  gdb_packet_analysis-IsSession =
      gdb_packet_analysis-Keeps IsSession write_to_gdb-IsSession
        (λ s reply w. sends s reply w.table) host fuel all_sound

-- The session is sound and there are at most `limit` characters in error.
pub record IsParserData (limit : ℕ) (d : ParserData) : Type 0 where
  pub session : IsSession d.gdb
  pub room : d.len ≤ limit

abbrev pub last_place : ℕ
last_place = 1023

pub put_error-IsSession :
    (d : ParserData) (i c : ℕ)
    → IsSession d.gdb
    → Meets (λ e. IsSession e.gdb × (e.len ≡ d.len)) (put_error d i c)
put_error-IsSession d i c w =
    Meets-if _ (ltb i max_error_size) _ _ (λ _. Meets-some _ _ (w, refl)) (λ _. Meets-none _)

pub longer : (n m : ℕ) (d : ParserData) → n ≤ m → IsParserData n d → IsParserData m d
longer n m d h w = record { session = w.session; room = let r = w.room in omega arith }

-- The characters in error are gone.
pub handle_error-IsParserData :
    (n : ℕ) (d : ParserData) → IsParserData n d → Meets (IsParserData 0) (handle_error d)
unfolding handle_error gdb_require_retransmission
handle_error-IsParserData n d w =
    Meets-if (IsParserData 0) (d.len == 0) _ _
      (λ h.
        Meets-some (IsParserData 0) d (record { session = w.session; room = ground (arith, h) }))
      (λ _.
        Meets-bind (IsParserData 0) (put_error d d.len 0) _
          (put_error-IsSession d d.len 0 w.session)
          (λ d₁ w₁.
            Meets-bind (IsParserData 0) (gdb_require_retransmission d₁.gdb) _
              (write_to_gdb-IsSession d₁.gdb (b'-' ∷ []) w₁.0)
              (λ s ws.
                Meets-some (IsParserData 0) _ (record { session = ws; room = omega arith }))))

pub make_room :
    (d : ParserData)
    → IsParserData last_place d
    → Meets (IsParserData 1022) (if ltb (max_error_size - 2) d.len then handle_error d else some d)
make_room d w =
    Meets-if (IsParserData 1022) (ltb (max_error_size - 2) d.len) (handle_error d) (some d)
      (λ _.
        Meets-weaken (handle_error d) (λ e q. longer 0 1022 e (omega arith) q)
          (handle_error-IsParserData last_place d w))
      (λ h.
        Meets-some (IsParserData 1022) d (record { session = w.session; room = ground (arith, h) }))
