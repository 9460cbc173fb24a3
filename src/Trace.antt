-- ===== src/Trace.antt =====
-- trace.c and trace.h: the trace of accesses and states. The state is the static variables of the
-- file, with what was printed in `lines`, last line first; a line is held as the arguments of its
-- fprintf, in both formats of the file. An access past an array is undefined in C, and gives `none`.
pub mod Accesses
pub mod States
pub mod Flags
use arm_sim.Base.{
  ℕ, zero, suc, ◌+◌, ◌^◌, bit_and, bit_or, ltb, ◌==◌, if◌then◌else◌, ◌&&◌, not, Bool, true, false,
  Option, none, some, List, [], ◌∷◌, ◌++◌,
}
use arm_sim.Base.Optional.{◌>>=◌}
use arm_sim.Host.{Host}
use arm_sim.Util.{add32, sub32}
use arm_sim.Registers.{Registers, registers_read, registers_read_cpsr, registers_read_spsr}
use arm_sim.Constants.{Name, arm_get_mode_name, arm_get_register_name}

abbrev pub memory_flag : ℕ
memory_flag = 32

abbrev pub registers_flag : ℕ
registers_flag = 64

abbrev pub state_flag : ℕ
state_flag = 128

abbrev pub position_flag : ℕ
position_flag = 256

-- The entries of the two stacks of locations.
abbrev pub max_locations : ℕ
max_locations = 128

abbrev pub Location : Type 0
Location = Name × ℕ

-- The name of a mode and its words: the sixteen registers, the CPSR and the SPSR.
pub data Line : Type 0 where
  access_line : Option Location → ℕ → ℕ → ℕ → ℕ → ℕ → ℕ → ℕ → Line
  register_line : Option Location → ℕ → Name → Option Name → ℕ → ℕ → Line
  state_line : Name → List ℕ → ℕ → ℕ → Line

-- `location_stack_top` is an int: -1, where the stack is empty, is 0xffffffff.
pub record Trace : Type 0 where
  pub last_address : ℕ
  pub enabled : Bool
  pub location_file_stack : ℕ → Name
  pub location_line_stack : ℕ → ℕ
  pub location_stack_top : ℕ
  pub trace_flags : ℕ
  pub states : ℕ → ℕ
  pub lines : List Line

abbrev pub initial_trace : Trace
initial_trace = record {
  last_address = 0x12345678;
  enabled = true;
  location_file_stack = λ i. [];
  location_line_stack = λ i. 0;
  location_stack_top = 0xffffffff;
  trace_flags = 0;
  states = λ mode. 0;
  lines = [];
}

unfoldable pub trace_start_location : Name → ℕ → Trace → Option Trace
trace_start_location file line t =
    if not t.enabled
    then some t
    else (let top = add32 t.location_stack_top 1 in
        if ltb top max_locations
        then some (record t {
          location_file_stack = λ i. if top == i then file else t.location_file_stack i;
          location_line_stack = λ i. if top == i then line else t.location_line_stack i;
          location_stack_top = top;
        })
        else none)

unfoldable pub trace_end_location : Trace → Trace
trace_end_location t =
    if t.enabled then record t { location_stack_top = sub32 t.location_stack_top 1 } else t

-- `enabled && (trace_flags & flag)`.
unfoldable pub is_traced : ℕ → Trace → Bool
is_traced flag t = t.enabled && not (bit_and t.trace_flags flag == 0)

-- What `trace_print_location` prints.
unfoldable pub trace_print_location : Trace → Option Location
trace_print_location t =
    if is_traced position_flag t && ltb t.location_stack_top (2 ^ 31)
    then some
        (t.location_file_stack t.location_stack_top, t.location_line_stack t.location_stack_top)
    else none

-- `type` and `cause` choose from tables of two texts.
unfoldable pub trace_memory : ℕ → ℕ → ℕ → ℕ → ℕ → ℕ → Trace → Option Trace
trace_memory cycle type size cause address value t =
    if not (is_traced memory_flag t)
    then some t
    else (let seq = if address == add32 t.last_address 4 then 1 else 0 in
        if ltb type 2 && ltb cause 2
        then some (record t {
          last_address = address;
          lines =
              access_line (trace_print_location t) cycle seq type size cause address value
              ∷ t.lines;
        })
        else none)

unfoldable pub trace_register : ℕ → ℕ → ℕ → ℕ → ℕ → Trace → Option Trace
trace_register cycle type reg mode value t =
    if not (is_traced registers_flag t) then some t else (do
      mode_name ← arm_get_mode_name mode
      name ← arm_get_register_name reg
      register_name ← name
      if ltb type 2
          then some (record t {
            lines =
                register_line (trace_print_location t) cycle register_name mode_name type value
                ∷ t.lines;
          })
          else none)

-- The loop over the registers, `n` of them from `reg` on.
unfoldable pub read_all : Host → Registers → ℕ → ℕ → ℕ → Option (List ℕ)
read_all host r mode zero reg = some []
read_all host r mode (suc n) reg = do
  value ← registers_read host r reg mode
  rest ← read_all host r mode n (reg + 1)
  some (value ∷ rest)

-- The line of a mode.
unfoldable pub state_of : Host → Registers → ℕ → Name → Option Line
state_of host r mode name = do
  words ← read_all host r mode 16 0
  spsr ← registers_read_spsr host r mode
  some (state_line name words (registers_read_cpsr r) spsr)

-- The body of the loop over the modes, with the lines that it adds.
unfoldable pub mode_state : Host → Registers → (ℕ → ℕ) → ℕ → Option Name → Option (List Line)
mode_state host r states mode none = some []
mode_state host r states mode (some name) =
    if states mode == 0 then some [] else (do line ← state_of host r mode name; some (line ∷ []))

-- The loop over the modes, `n` of them from `mode` on; last line first.
unfoldable pub state_lines : Host → Registers → (ℕ → ℕ) → ℕ → ℕ → Option (List Line)
state_lines host r states zero mode = some []
state_lines host r states (suc n) mode = do
  name ← arm_get_mode_name mode
  line ← mode_state host r states mode name
  rest ← state_lines host r states n (mode + 1)
  some (rest ++ line)

unfoldable pub trace_arm_state : Host → Registers → Trace → Option Trace
trace_arm_state host r t = if not (is_traced state_flag t) then some t else (do
  printed ← state_lines host r t.states 32 0
  some (record t { lines = printed ++ t.lines }))

unfoldable pub trace_disable : Trace → Trace
trace_disable t = record t { enabled = false }

unfoldable pub trace_enable : Trace → Trace
trace_enable t = record t { enabled = true }

-- `none` is a negative number: a number below 32 is a mode whose state is traced.
unfoldable pub trace_add : Option ℕ → Trace → Trace
trace_add none t = t
trace_add (some flags) t =
    if ltb flags 32
    then record t {
      trace_flags = bit_or t.trace_flags state_flag;
      states = λ mode. if flags == mode then 1 else t.states mode;
    }
    else record t { trace_flags = bit_or t.trace_flags flags }
