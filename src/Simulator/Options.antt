-- ===== src/Simulator/Options.antt =====
-- arm_simulator.c: `main`, which reads the options and starts the simulator. What getopt_long gives is
-- a list of letters with their arguments, where `none` is a NULL: the short `-s` has no argument, and
-- a NULL that is looked at is undefined. Whether a file can be opened is a parameter.
pub mod Traces
pub mod Reports
use arm_sim.Base.{
  ℕ, ◌+◌, ◌-◌, ◌%◌, ◌^◌, ◌==◌, if◌then◌else◌, Bool, true, false, Option, none, some, List, [], ◌∷◌,
}
use arm_sim.Base.Optional.{◌>>=◌}
use arm_sim.Host.{Host}
use arm_sim.Gdb.Text.{atoi}
use arm_sim.Gdb.Packets.{ParserData}
use arm_sim.Constants.{Name, arm_get_mode_number}
use arm_sim.Trace.{Trace, initial_trace, memory_flag, registers_flag, position_flag, trace_add}
use arm_sim.Debug.{DebuggedFiles, no_files, add_debug_to}
use arm_sim.Simulator.{Blocks, start}

-- The variables that the options set: the ports, the file of the trace, where `none` is stdout, the
-- static variables of trace.c, and those of debug.c.
pub record Settings : Type 0 where
  pub gdb_port : ℕ
  pub irq_port : ℕ
  pub trace_file : Option Name
  pub trace : Trace
  pub files : DebuggedFiles

abbrev pub initial_settings : Settings
initial_settings = record {
  gdb_port = 0;
  irq_port = 0;
  trace_file = none;
  trace = initial_trace;
  files = no_files;
}

-- The program goes on with its settings, or exits.
pub data Reading : Type 0 where
  goes : Settings → Reading
  exits : ℕ → Reading

-- `(in_port_t) atoi(optarg)`, a number of 16 bits.
unfoldable pub port_of : Name → Option ℕ
port_of optarg = do
  (negative, n) ← atoi optarg
  some (if negative then (2 ^ 16 - n % 2 ^ 16) % 2 ^ 16 else n % 2 ^ 16)

abbrev pub add_trace : Option ℕ → Settings → Reading
add_trace flags s = goes (record s { trace = trace_add flags s.trace })

-- The body of the loop over the options.
unfoldable pub read_option : (Name → Bool) → ℕ → Option Name → Settings → Option Reading
read_option opens opt optarg s =
    if opt == b'g'
    then (do text ← optarg; port ← port_of text; some (goes (record s { gdb_port = port })))
    else if opt == b'i'
    then (do text ← optarg; port ← port_of text; some (goes (record s { irq_port = port })))
    else if opt == b'h'
    then some (exits 0)
    else if opt == b't'
    then (do
      name ← optarg
      some (if opens name then goes (record s { trace_file = some name }) else exits 1))
    else if opt == b'r'
    then some (add_trace (some registers_flag) s)
    else if opt == b'm'
    then some (add_trace (some memory_flag) s)
    else if opt == b's'
    then (do name ← optarg; some (add_trace (arm_get_mode_number name) s))
    else if opt == b'p'
    then some (add_trace (some position_flag) s)
    else if opt == b'd'
    then (do
      name ← optarg
      files ← add_debug_to name s.files
      some (goes (record s { files = files })))
    else some (exits 1)

-- The loop.
unfoldable pub read_options : (Name → Bool) → List (ℕ × Option Name) → Settings → Option Reading
read_options opens [] s = some (goes s)
read_options opens ((opt, optarg) ∷ rest) s = do
  reading ← read_option opens opt optarg s
  elim reading [ exits code ↦ some (exits code) | goes s₁ ↦ read_options opens rest s₁ ]

-- The simulator with its settings, before the first turn of a listener, or an exit.
pub data Program : Type 0 where
  running : Settings → ParserData → Program
  ended : ℕ → Program

unfoldable pub main :
    Host → Blocks → (Name → Bool) → List ℕ → List (ℕ × Option Name) → Option Program
main host blocks opens inp options = do
  reading ← read_options opens options initial_settings
  elim reading [
    | exits code ↦ some (ended code)
    | goes s ↦ (do
      d ← start host blocks inp
      some (running s (record d { gdb = record d.gdb { trace = s.trace } })))
  ]
