-- ===== src/Gdb/Session.antt =====
-- gdb_protocol.c: the state of a session and the packets that it sends. `none` is undefined
-- behaviour, an assertion that fails, or a write to a connection that was shut down.
pub mod Continue
use arm_sim.Base.{
  ℕ, zero, suc, ◌+◌, ltb, ◌==◌, if◌then◌else◌, Bool, true, false, Option, none, some, List, [], ◌∷◌,
  ◌++◌,
}
use arm_sim.Base.Optional.{◌>>=◌}
use arm_sim.Host.{Host}
use arm_sim.Util.{u8}
use arm_sim.Registers.{registers_get_mode, registers_read}
use arm_sim.Core.{ArmCore}
use arm_sim.BranchOther.{data_abort, undefined_instruction, end_simulation}
use arm_sim.Instruction.{arm_step}
use arm_sim.Trace.{Trace, initial_trace, trace_arm_state}
use arm_sim.Gdb.Text.{codes, count, hex_digits}
use arm_sim.Gdb.Breakpoints.{Table, is_breakpoint, init_breakpoints}

abbrev pub max_packet_size : ℕ
max_packet_size = 4096

abbrev pub prefetch_abort : ℕ
prefetch_abort = 6

-- `arm`, `reg` and `mem` of `struct gdb_protocol_data` are the processor, its registers and its
-- memory. `packet` holds the `len` characters of the last packet, `sent` what was written to the
-- connection, last write first, and `is_open` whether it may be written to. `trace` is the static
-- variables of trace.c, which the program has beside the session.
pub record Session : Type 0 where
  pub core : ArmCore
  pub target_exception : ℕ
  pub table : Table
  pub packet : List ℕ
  pub sent : List (List ℕ)
  pub is_open : Bool
  pub trace : Trace

-- The array of breakpoints holds what malloc left in it.
unfoldable pub gdb_init_data : ArmCore → (ℕ → ℕ) → Session
gdb_init_data core contents = record {
  core = core;
  target_exception = 0;
  table = init_breakpoints contents;
  packet = [];
  sent = [];
  is_open = true;
  trace = initial_trace;
}

-- Rio_writen: it writes nothing where there is nothing to write.
abbrev pub write_to_gdb : Session → List ℕ → Option Session
write_to_gdb s [] = some s
write_to_gdb s (c ∷ cs) = if s.is_open then some (record s { sent = (c ∷ cs) ∷ s.sent }) else none

unfoldable pub gdb_transmit_packet : Session → Option Session
gdb_transmit_packet s = write_to_gdb s s.packet

unfoldable pub gdb_send_ack : Session → Option Session
gdb_send_ack s = write_to_gdb s (b'+' ∷ [])

unfoldable pub gdb_require_retransmission : Session → Option Session
gdb_require_retransmission s = write_to_gdb s (b'-' ∷ [])

-- The sum of the characters, in an `unsigned char`.
unfoldable pub checksum : ℕ → List ℕ → ℕ
checksum check [] = check
checksum check (c ∷ cs) = checksum (u8 (check + c)) cs

-- A reply between its marks, with its checksum.
unfoldable pub frame : List ℕ → List ℕ
frame reply = b'$' ∷ reply ++ (b'#' ∷ hex_digits 2 (checksum 0 reply))

-- The reply stands in the buffer already; the packet needs room for its terminator.
unfoldable pub gdb_send_buffer : Session → List ℕ → Option Session
gdb_send_buffer s reply =
    if ltb (count (frame reply)) max_packet_size
    then gdb_transmit_packet (record s { packet = frame reply })
    else none

unfoldable pub gdb_send_data : Session → List ℕ → Option Session
gdb_send_data s reply = gdb_send_buffer s reply

unfoldable pub stop_action : ℕ → List ℕ
stop_action e =
    if e == undefined_instruction
    then codes "S04"
    else if e == prefetch_abort
    then codes "S0A"
    else if e == data_abort
    then codes "S0B"
    else if e == end_simulation
    then codes "X05"
    else codes "S05"

unfoldable pub gdb_send_stop_reason : Session → Option Session
gdb_send_stop_reason s = gdb_send_data s (stop_action s.target_exception)

unfoldable pub single_step : Host → Session → Option Session
single_step host s = do
  (e, core) ← arm_step host s.core
  trace ← trace_arm_state host core.reg s.trace
  some (record s { core = core; target_exception = e; trace = trace })

-- Whether the loop of `cont` ends after a step: at a breakpoint, or on an exception.
unfoldable pub stops : Host → Session → Option Bool
stops host s = do
  pc ← registers_read host s.core.reg 15 (registers_get_mode s.core.reg)
  there ← is_breakpoint s.table pc
  some (if there then true else if s.target_exception == 0 then false else true)

-- The loop, on fuel: `none` also where it does not end within `fuel` rounds.
unfoldable pub cont_loop : Host → ℕ → Session → Option Session
cont_loop host zero s = none
cont_loop host (suc fuel) s = do
  s₁ ← single_step host s
  stop ← stops host s₁
  elim stop [ true ↦ some s₁ | false ↦ cont_loop host fuel s₁ ]

unfoldable pub cont : Host → ℕ → Session → Option Session
cont host fuel s = do s₁ ← cont_loop host fuel s; gdb_send_stop_reason s₁

unfoldable pub step : Host → Session → Option Session
step host s = do s₁ ← single_step host s; gdb_send_stop_reason s₁

-- `shutdown`.
unfoldable pub kill_request : Session → Session
kill_request s = record s { is_open = false }
