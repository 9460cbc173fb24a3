-- ===== src/Gdb/Packets.antt =====
-- gdb_protocol.c: the table of handlers and the analysis of a packet. scanner.l: the actions of the
-- scanner, which cuts what gdb sends into packets, acknowledgements and characters in error.
pub mod Dispatch
pub mod Invariant
pub mod Stepping
pub mod Keeps
pub mod Scan
pub mod Tokens
use arm_sim.Base.{
  ℕ, zero, suc, ◌+◌, ◌-◌, ltb, ◌==◌, if◌then◌else◌, ◌||◌, Bool, true, false, Option, none, some,
  List, [], ◌∷◌, ◌++◌,
}
use arm_sim.Base.Optional.{◌>>=◌}
use arm_sim.Host.{Host}
use arm_sim.Gdb.Text.{count, drop, take, scan_hex}
use arm_sim.Gdb.Session.{
  Session, checksum, gdb_send_ack, gdb_send_data, gdb_require_retransmission, gdb_transmit_packet,
  gdb_send_stop_reason, cont, step, kill_request,
}
use arm_sim.Gdb.Handlers.{
  query, read_general_registers, read_memory, read_single_register, set_thread,
  write_general_registers, write_single_register, write_memory_binary, set_breakpoint,
  remove_breakpoint,
}

abbrev pub Handler : Type 0
Handler = Session → List ℕ → Option Session

-- The assignments of `gdb_init`. `fuel` bounds the rounds of `cont`.
abbrev pub handlers : Host → ℕ → List (ℕ × Handler)
handlers host fuel =
    (b'c', λ s text. cont host fuel s)
    ∷ (b'C', λ s text. cont host fuel s)
    ∷ (b'k', λ s text. some (kill_request s))
    ∷ (b'q', query)
    ∷ (b'g', λ s text. read_general_registers host s)
    ∷ (b'm', read_memory host)
    ∷ (b'p', read_single_register host)
    ∷ (b'?', λ s text. gdb_send_stop_reason s)
    ∷ (b'H', set_thread)
    ∷ (b's', λ s text. step host s)
    ∷ (b'S', λ s text. step host s)
    ∷ (b'G', write_general_registers host)
    ∷ (b'X', write_memory_binary)
    ∷ (b'P', write_single_register host)
    ∷ (b'z', remove_breakpoint)
    ∷ (b'Z', set_breakpoint)
    ∷ []

unfoldable pub entry : List (ℕ × Handler) → ℕ → Option Handler
entry [] letter = none
entry ((l, h) ∷ rest) letter = if l == letter then some h else entry rest letter

-- `handler[letter]`, where `none` is NULL.
unfoldable pub handler : Host → ℕ → ℕ → Option Handler
handler host fuel letter = entry (handlers host fuel) letter

-- The position of `#`, where the loop of the checksum ends.
abbrev pub end_of_text : List ℕ → ℕ
end_of_text packet = if ltb 4 (count packet) then count packet - 3 else 1

-- `packet + 1` once its `#` is a terminator, to the terminator of the packet.
unfoldable pub terminated : List ℕ → List ℕ
terminated packet =
    let i = end_of_text packet in drop 1 (take i packet ++ (0 ∷ drop (suc i) packet ++ (0 ∷ [])))

-- The call of the handler of the first letter.
unfoldable pub dispatch : Host → ℕ → Session → List ℕ → Option Session
dispatch host fuel s [] = none
dispatch host fuel s (letter ∷ text) = elim (handler host fuel letter) [
  | none ↦ gdb_send_data s []
  | some h ↦ h s text
]

-- The checksum is taken and compared; `length` is the length of the packet.
unfoldable pub gdb_packet_analysis : Host → ℕ → Session → List ℕ → Option Session
gdb_packet_analysis host fuel s packet = do
  let i = end_of_text packet
  (given, _) ← scan_hex 32 (drop (suc i) packet)
  if checksum 0 (drop 1 (take i packet)) == given
      then (do s₁ ← gdb_send_ack s; dispatch host fuel s₁ (terminated packet))
      else gdb_require_retransmission s

abbrev pub max_error_size : ℕ
max_error_size = 1024

-- `struct parser_data`, where `buffer` is an array of `max_error_size` characters.
pub record ParserData : Type 0 where
  pub gdb : Session
  pub buffer : ℕ → ℕ
  pub len : ℕ

-- `buffer[i] = c`.
abbrev pub put_error : ParserData → ℕ → ℕ → Option ParserData
put_error d i c =
    if ltb i max_error_size
    then some (record d { buffer = λ j. if i == j then c else d.buffer j })
    else none

unfoldable pub handle_error : ParserData → Option ParserData
handle_error d = if d.len == 0 then some d else (do
  d₁ ← put_error d d.len 0
  s ← gdb_require_retransmission d₁.gdb
  some (record d₁ { gdb = s; len = 0 }))

unfoldable pub add_character_to_error : ParserData → ℕ → Option ParserData
add_character_to_error d c = do
  d₁ ← (if ltb (max_error_size - 2) d.len then handle_error d else some d)
  d₂ ← put_error d₁ d₁.len c
  some (record d₂ { len = d₂.len + 1 })

-- What the rules of the scanner match, in their order; the packet rule takes `$`, a text without
-- `$` and `#`, `#` and two hexadecimal digits.
pub data Token : Type 0 where
  ack : Token
  retransmission : Token
  received : List ℕ → Token
  other : ℕ → Token
  eof : Token

-- The action of a rule.
unfoldable pub scan : Host → ℕ → ParserData → Token → Option ParserData
scan host fuel d ack = handle_error d
scan host fuel d retransmission = do
  d₁ ← handle_error d
  s ← gdb_transmit_packet d₁.gdb
  some (record d₁ { gdb = s })
scan host fuel d (received packet) = do
  d₁ ← handle_error d
  s ← gdb_packet_analysis host fuel d₁.gdb packet
  some (record d₁ { gdb = s })
scan host fuel d (other c) = add_character_to_error d c
scan host fuel d eof = handle_error d
