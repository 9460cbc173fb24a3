-- ===== src/Gdb/Handlers.antt =====
-- gdb_protocol.c: the handlers of the commands. Each takes the text after the letter of the
-- command, to the end of what was received, and gives the session that it leaves.
pub mod Files
pub mod Blocks
pub mod Binary
use arm_sim.Base.{
  ℕ, zero, suc, ◌+◌, ◌-◌, ◌*◌, ◌%◌, bit_xor, ltb, leb, ◌==◌, if◌then◌else◌, ◌&&◌, ◌||◌, not, Bool,
  true, false, Option, none, some, List, [], ◌∷◌, ◌++◌,
}
use arm_sim.Base.Optional.{◌>>=◌}
use arm_sim.Host.{Host}
use arm_sim.Util.{u8, add32}
use arm_sim.Memory.{Memory, minus_one, memory_get_size, memory_read_byte, memory_write_byte}
use arm_sim.Registers.{
  Registers, registers_get_mode, registers_read, registers_write, registers_read_cpsr,
  registers_write_cpsr,
}
use arm_sim.Gdb.Text.{
  codes, drop, take, until_nul, same_text, after, expect, hex_digits, write_uint32, read_uint32,
  scan_hex, atoi,
}
use arm_sim.Gdb.Breakpoints.{Table, gdb_add_breakpoint, gdb_remove_breakpoint}
use arm_sim.Gdb.Session.{Session, gdb_send_buffer, gdb_send_data}

unfoldable pub query : Session → List ℕ → Option Session
query s text =
    if same_text (until_nul text) (codes "Offsets")
    then gdb_send_data s (codes "Text=0;Data=0;Bss=0")
    else if same_text (take 9 (until_nul text)) (codes "Supported")
    then gdb_send_data s (codes "PacketSize=400")
    else if same_text (until_nul text) (codes "TStatus")
    then gdb_send_data s (codes "T0;tnotrun:0")
    else gdb_send_data s []

-- The assertion that `reg` is below 16, and the text of the register in the current mode.
unfoldable pub read_register : Host → Registers → ℕ → Option (List ℕ)
read_register host r reg =
    if ltb reg 16
    then (do value ← registers_read host r reg (registers_get_mode r); some (write_uint32 value))
    else none

-- `n` registers from `i` on.
unfoldable pub read_registers : Host → Registers → ℕ → ℕ → Option (List ℕ)
read_registers host r zero i = some []
read_registers host r (suc n) i = do
  first ← read_register host r i
  rest ← read_registers host r n (i + 1)
  some (first ++ rest)

abbrev pub unknown_words : ℕ → List ℕ
unknown_words zero = []
unknown_words (suc n) = codes "xxxxxxxx" ++ unknown_words n

-- Eight floating point registers of three words, and one status register, have no value.
abbrev pub floating_point_words : ℕ
floating_point_words = 25

unfoldable pub read_general_registers : Host → Session → Option Session
read_general_registers host s = do
  general ← read_registers host s.core.reg 16 0
  gdb_send_buffer s (
      general
      ++ unknown_words floating_point_words
      ++ write_uint32 (registers_read_cpsr s.core.reg))

-- The loop over the bytes: it ends before `size` bytes where a read fails. The variable that the
-- reads set has no value before the first.
unfoldable pub read_bytes : Host → Memory → ℕ → ℕ → Option (List ℕ)
read_bytes host mem zero address = some []
read_bytes host mem (suc size) address = do
  (code, value) ← memory_read_byte mem address host.uninit
  elim (code == minus_one) [
    | true ↦ some []
    | false ↦ do
      rest ← read_bytes host mem size (add32 address 1)
      some (hex_digits 2 value ++ rest)
  ]

-- Two fields of hexadecimal digits with a comma between.
unfoldable pub scan_range : List ℕ → Option ((ℕ × ℕ) × List ℕ)
scan_range text = do
  (address, rest) ← scan_hex 32 text
  rest₁ ← expect b',' rest
  (size, rest₂) ← scan_hex 32 rest₁
  some ((address, size), rest₂)

unfoldable pub read_memory : Host → Session → List ℕ → Option Session
read_memory host s text = do
  ((address, size), _) ← scan_range text
  if ltb address (memory_get_size s.core.mem)
      then (do reply ← read_bytes host s.core.mem size address; gdb_send_buffer s reply)
      else gdb_send_buffer s (codes "E0E")

-- `(uint8_t) atoi(text)`.
unfoldable pub read_single_register : Host → Session → List ℕ → Option Session
read_single_register host s text = do
  (negative, n) ← atoi text
  reply ← read_register host s.core.reg (if negative then (256 - n % 256) % 256 else n % 256)
  gdb_send_buffer s reply

-- The thread 0 or -1.
unfoldable pub any_thread : Bool × ℕ → Bool
any_thread (negative, n) = n == 0 || (negative && n == 1)

unfoldable pub set_thread : Session → List ℕ → Option Session
set_thread s [] = none
set_thread s (type ∷ text) = do
  value ← atoi text
  if (type == b'c' || type == b'g') && any_thread value
      then gdb_send_data s (codes "OK")
      else gdb_send_data s (codes "E01")

unfoldable pub write_register : Host → Registers → ℕ → List ℕ → Option Registers
write_register host r reg text = do
  value ← read_uint32 text
  if ltb reg 16 then registers_write host r reg (registers_get_mode r) value else none

-- `n` registers from `i` on, eight characters each.
unfoldable pub write_registers : Host → Registers → ℕ → ℕ → List ℕ → Option Registers
write_registers host r zero i text = some r
write_registers host r (suc n) i text = do
  r₁ ← write_register host r i text
  write_registers host r₁ n (i + 1) (drop 8 text)

abbrev pub with_registers : Session → Registers → Session
with_registers s r = record s { core = record s.core { reg = r } }

unfoldable pub write_general_registers : Host → Session → List ℕ → Option Session
write_general_registers host s text = do
  r ← write_registers host s.core.reg 16 0 text
  value ← read_uint32 (drop (8 * (16 + floating_point_words)) text)
  gdb_send_data (with_registers s (registers_write_cpsr r value)) (codes "OK")

unfoldable pub write_single_register : Host → Session → List ℕ → Option Session
write_single_register host s text = do
  (reg, _) ← scan_hex 32 text
  written ← after b'=' text
  r ← write_register host s.core.reg reg written
  gdb_send_data (with_registers s r) (codes "OK")

abbrev escaped : List ℕ → Option (ℕ × List ℕ)
escaped [] = none
escaped (c ∷ cs) = some (bit_xor c 0x20, cs)

-- One byte of a binary text, where `}` is before a byte with its sixth bit inverted.
unfoldable pub unescape : List ℕ → Option (ℕ × List ℕ)
unescape [] = none
unescape (c ∷ cs) = if c == 0x7d then escaped cs else some (c, cs)

-- The loop over the bytes of the text: whether all were written, and the memory.
unfoldable pub write_bytes : Memory → ℕ → List ℕ → ℕ → Option (Bool × Memory)
write_bytes mem zero content address = some (true, mem)
write_bytes mem (suc size) content address = do
  (value, rest) ← unescape content
  (code, mem₁) ← memory_write_byte mem address (u8 value)
  elim (code == 0) [
    | true ↦ write_bytes mem₁ size rest (add32 address 1)
    | false ↦ some (false, mem₁)
  ]

abbrev pub with_memory : Session → Memory → Session
with_memory s m = record s { core = record s.core { mem = m } }

unfoldable pub write_memory_binary : Session → List ℕ → Option Session
write_memory_binary s text = do
  ((address, size), _) ← scan_range text
  content ← after b':' text
  (write_ok, mem) ←
      (if ltb address (memory_get_size s.core.mem)
        then write_bytes s.core.mem size content address
        else some (false, s.core.mem))
  gdb_send_data (with_memory s mem) (if write_ok then codes "OK" else codes "E02")

-- The reply to a call on the table of breakpoints.
abbrev pub answer_call : Session → List ℕ → ℕ × Table → Option Session
answer_call s failure (code, table) =
    gdb_send_data (record s { table = table }) (if code == 0 then failure else codes "OK")

-- The length is scanned and not used.
unfoldable pub set_breakpoint : Session → List ℕ → Option Session
set_breakpoint s text = do
  (type, rest) ← scan_hex 8 text
  if not (type == 0) then gdb_send_data s (codes "E03") else (do
    rest₁ ← expect b',' rest
    (address, _) ← scan_hex 32 rest₁
    answer ← gdb_add_breakpoint s.table address
    answer_call s (codes "E04") answer)

unfoldable pub remove_breakpoint : Session → List ℕ → Option Session
remove_breakpoint s text = do
  (type, rest) ← scan_hex 8 text
  if not (type == 0) then gdb_send_data s (codes "E03") else (do
    rest₁ ← expect b',' rest
    (address, _) ← scan_hex 32 rest₁
    answer ← gdb_remove_breakpoint s.table address
    answer_call s (codes "E05") answer)
