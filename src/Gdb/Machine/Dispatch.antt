-- ===== src/Gdb/Machine/Dispatch.antt =====
-- gdb_protocol.c, scanner.l: every token leaves a machine.
use arm_sim.Base.{ℕ}
use arm_sim.Base.Gives.{Meets, Meets-some}
use arm_sim.Host.{Host}
use arm_sim.Util.Bounds.{IsWordHost}
use arm_sim.Gdb.Session.{Session, kill_request}
use arm_sim.Gdb.Packets.{handlers, ParserData, Token, scan}
use arm_sim.Gdb.Packets.Keeps.{◌▸◌, AllSound, scan-Keeps}
use arm_sim.Gdb.Machine.{HasMachine, write_to_gdb-HasMachine, sends, stops_with}
use arm_sim.Gdb.Machine.Handlers.{
  query-HasMachine, read_general_registers-HasMachine, read_memory-HasMachine,
  read_single_register-HasMachine, set_thread-HasMachine, write_general_registers-HasMachine,
  write_single_register-HasMachine, write_memory_binary-HasMachine, set_breakpoint-HasMachine,
  remove_breakpoint-HasMachine, cont-HasMachine, step-HasMachine,
}

kill_request-HasMachine : (s : Session) → HasMachine s → HasMachine (kill_request s)
unfolding kill_request
kill_request-HasMachine s q = record { machine = q.machine }

module _ (host : Host) (fuel : ℕ) (w : IsWordHost host) where
  all_sound : AllSound HasMachine (handlers host fuel)
  all_sound =
      (λ s text q. cont-HasMachine host w fuel s q)
      ▸ (λ s text q. cont-HasMachine host w fuel s q)
      ▸ (λ s text q. Meets-some HasMachine _ (kill_request-HasMachine s q))
      ▸ (λ s text q. query-HasMachine host s q.machine text)
      ▸ (λ s text q. read_general_registers-HasMachine host s q.machine text)
      ▸ (λ s text q. read_memory-HasMachine host s q.machine text)
      ▸ (λ s text q. read_single_register-HasMachine host s q.machine text)
      ▸ (λ s text q. stops_with s q.machine)
      ▸ (λ s text q. set_thread-HasMachine s text q.machine)
      ▸ (λ s text q. step-HasMachine host w s q)
      ▸ (λ s text q. step-HasMachine host w s q)
      ▸ (λ s text q. write_general_registers-HasMachine host s q.machine text)
      ▸ (λ s text q. write_memory_binary-HasMachine host s q.machine text)
      ▸ (λ s text q. write_single_register-HasMachine host s q.machine text)
      ▸ (λ s text q. remove_breakpoint-HasMachine host s q.machine text)
      ▸ (λ s text q. set_breakpoint-HasMachine host s q.machine text)
      ▸ tt

  pub scan-HasMachine :
      (d : ParserData) (t : Token)
      → HasMachine d.gdb
      → Meets (λ e. HasMachine e.gdb) (scan host fuel d t)
  scan-HasMachine =
      scan-Keeps HasMachine (λ s cs q. write_to_gdb-HasMachine s cs q.machine)
        (λ s reply q. sends s reply q.machine) host fuel all_sound
