-- ===== src/Examples/Programs.antt =====
-- Applications of the theorems on the programs: arm_simulator.c, send_irq.c, debug.c, trace.c and the tests.
use mathlib.Core.Option.{get_or}
use arm_sim.Base.{
  ℕ, ◌<◌, ◌≡◌, ◌≢◌, ◌↔◌, arith, refl, ◌==◌, ◌&&◌, not, true, false, Option, some, none, List, [],
  ◌∷◌, if◌then◌else◌,
}
use arm_sim.Base.Optional.{◌>>=◌}
use arm_sim.Util.Bounds.{IsWordHost}
use arm_sim.Util.{get_bit, get_bits, set_bit, clr_bit, set_bits, switch_endian}
use arm_sim.Memory.{memory_create, memory_get_size}
use arm_sim.Registers.{
  cell, ptrs, cells, get_read_write_mode, registers_get_mode, registers_write, registers_write_cpsr,
  registers_read, registers_read_cpsr, registers_write_spsr, registers_mode_has_spsr,
  registers_create, to_stored,
}
use arm_sim.Core.{
  ArmCore, arm_write_cpsr, arm_write_register, arm_read_register, arm_read_cpsr, arm_write_spsr,
}
use arm_sim.Exception.{
  arm_create, arm_exception, reset_exception, irq_exception, enter_irq, irq_cpsr,
}
use arm_sim.Gdb.Session.{gdb_init_data}
use arm_sim.Core.File.{cpsr_of, reg_at}
use arm_sim.Gdb.Text.{codes, same_text}
use arm_sim.Gdb.Packets.{ParserData, other, scan, add_character_to_error}
use arm_sim.Gdb.Packets.Tokens.{gdb_scanner}
use arm_sim.Constants.{
  Name, get_elem?, arm_exception_names, arm_get_mode_number, arm_mode_names, mode_loop, exits,
  sends, send_irq,
}
use arm_sim.Constants.Names.{send_irq_iff}
use arm_sim.Trace.{
  access_line, Trace, initial_trace, memory_flag, registers_flag, state_flag, position_flag,
  is_traced, trace_add, trace_print_location, trace_arm_state,
}
use arm_sim.Trace.Accesses.{Access, trace_accesses, lines_after, trace_accesses-eq}
use arm_sim.Trace.States.{is_defined, trace_arm_state-is_defined}
use arm_sim.Debug.{DebuggedFiles, no_files, add_debug_to, is_debugged, precedes}
use arm_sim.Debug.Search.{IsFiles}
use arm_sim.Debug.Insert.{full_table, add_debug_to-full}
use arm_sim.Debug.Refine.{add_all, named_in, is_debugged-add_all}
use arm_sim.Simulator.{Blocks, start, Turn, gdb, request, simulate, turn, irq_listener}
use arm_sim.Simulator.Shared.{IsAllocated, IsShared, start-IsShared, simulate-start}
use arm_sim.Simulator.Options.{Settings, initial_settings, read_options, read_option}
use arm_sim.Simulator.Options.Reports.{asks_mode, read_options-reports}
use arm_sim.Examples.{x86, file}

x86-IsHost : IsWordHost x86
x86-IsHost = record { wide = λ x k. omega arith; unset = omega arith }

-- malloc leaves 7 in the memory, and other numbers in the arrays.
abbrev blocks : Blocks
blocks = record {
  has_memory = true;
  has_core = true;
  block = some (λ i. 7);
  breakpoints = λ i. 9;
  buffer = λ i. 5;
}

blocks-IsAllocated : IsAllocated blocks
blocks-IsAllocated = record {
  contents = λ i. 7;
  bytes = λ i. omega arith;
  memory = refl;
  core = refl;
  given = refl;
}

start-IsShared_example :
    (p : ArmCore) × (start x86 blocks [] ≡ some (gdb_scanner p (λ i. 9) (λ i. 5)))
    × (cpsr_of p ≡ 0x153)
    × (reg_at x86 p 15 ≡ 0)
    × (reg_at x86 p 13 ≡ 0x8000)
    × (p.mem ≡ memory_create true (some (λ i. 7)) 0x8000)
    × (p.out ≡ [])
    × IsShared (gdb_scanner p (λ i. 9) (λ i. 5))
start-IsShared_example = start-IsShared x86 blocks [] blocks-IsAllocated tt x86-IsHost

-- A character in error from gdb, between an interrupt and a reset from the other connection.
abbrev turns : List Turn
turns = request 4 ∷ gdb (other 65) ∷ request 1 ∷ []

abbrev after_turns : ParserData
after_turns = get_or (start x86 blocks [] >>= λ d₀. simulate x86 0 d₀ turns) (
    gdb_scanner (record { cycle_count = 0; reg = file 0; mem = none; out = []; inp = [] }) (λ i. 9)
      (λ i. 5))

simulate-start_example : IsShared after_turns
unfolding start arm_create arm_exception reset_exception arm_write_cpsr arm_write_register
    registers_write cell ptrs cells get_read_write_mode registers_get_mode get_bits
    registers_write_cpsr simulate turn irq_listener arm_read_register arm_read_cpsr registers_read
    registers_read_cpsr irq_exception enter_irq irq_cpsr set_bits clr_bit set_bit get_bit
    arm_write_spsr registers_write_spsr registers_mode_has_spsr scan add_character_to_error
    gdb_init_data memory_get_size memory_create registers_create to_stored switch_endian
simulate-start_example =
    simulate-start x86 blocks [] blocks-IsAllocated tt 0 turns {d = after_turns} x86-IsHost refl

send_irq_iff_example :
    let o =
      send_irq
        (codes "send_irq" ∷ codes "localhost" ∷ codes "8000" ∷ codes "software interrupt" ∷ []) in
    ((k : ℕ)
      → (o ≡ some (sends k))
        ↔ ((k < 8) × (get_elem? arm_exception_names k ≡ some (some (codes "software interrupt")))))
    × ((o ≡ some (exits 2)) ↔ (
        (k : ℕ)
        → k < 8
        → get_elem? arm_exception_names k ≢ some (some (codes "software interrupt"))))
send_irq_iff_example =
    send_irq_iff (codes "software interrupt") (codes "send_irq") (codes "localhost") (codes "8000")
      []

-- Two accesses to memory, the second four bytes after the first.
abbrev accesses : List Access
accesses =
    record { cycle = 1; type = 1; size = 4; cause = 1; address = 0x100; value = 7 }
    ∷ record { cycle = 2; type = 1; size = 4; cause = 1; address = 0x104; value = 8 }
    ∷ []

abbrev tracing : Trace
tracing = record initial_trace { trace_flags = 32 }

trace_accesses-eq_example :
    trace_accesses accesses tracing
    ≡ some (record tracing {
      last_address = 0x104;
      lines = access_line none 2 1 1 4 1 0x104 8 ∷ access_line none 1 0 1 4 1 0x100 7 ∷ [];
    })
unfolding is_traced lines_after trace_print_location
trace_accesses-eq_example =
    trace_accesses-eq accesses tracing refl
      ((omega arith, omega arith), ((omega arith, omega arith), tt))

trace_arm_state-is_defined_example :
    is_defined (
      trace_arm_state x86
        (file 0)
        (record initial_trace { trace_flags = 128; states = λ m. if m == 16 then 1 else 0 }))
    ≡ false
unfolding is_traced
trace_arm_state-is_defined_example =
    trace_arm_state-is_defined x86 (file 0)
      (record initial_trace { trace_flags = 128; states = λ m. if m == 16 then 1 else 0 })

is_debugged-add_all_example :
    (t : DebuggedFiles) × (add_all (codes "trace.c" ∷ codes "memory.c" ∷ []) no_files ≡ some t)
    × IsFiles t
    × ((x : Name)
        → is_debugged x t
          ≡ some (named_in (codes "trace.c" ∷ codes "memory.c" ∷ []) (λ y. false) x))
is_debugged-add_all_example =
    is_debugged-add_all (codes "trace.c" ∷ codes "memory.c" ∷ []) (omega arith)

-- The table holds `b` in each of its places.
add_debug_to-full_example :
    ((add_debug_to (codes "a") (full_table (λ i. codes "b")) ≡ none)
      ↔ ((k : ℕ) × (k < 64) × (precedes (codes "b") (codes "a") ≡ false)))
    × ((add_debug_to (codes "a") (full_table (λ i. codes "b")) ≡ some (full_table (λ i. codes "b")))
        ↔ ((k : ℕ) → k < 64 → precedes (codes "b") (codes "a") ≡ true))
add_debug_to-full_example = add_debug_to-full (λ i. codes "b") (codes "a")

-- `-m -s SVC`, by its long name.
abbrev options : List (ℕ × Option Name)
options = (b'm', none) ∷ (b's', some (codes "SVC")) ∷ []

abbrev settings : Settings
settings = record initial_settings {
  trace = record initial_trace { trace_flags = 160; states = λ m. if 19 == m then 1 else 0 };
}

read_options-reports_example :
    (is_traced memory_flag settings.trace ≡ true)
    × (is_traced registers_flag settings.trace ≡ false)
    × (is_traced position_flag settings.trace ≡ false)
    × (is_traced state_flag settings.trace ≡ true)
    × ((m : ℕ)
        → m < 32
        → (is_traced state_flag settings.trace && not (settings.trace.states m == 0))
          ≡ asks_mode m options)
unfolding read_options read_option is_traced arm_get_mode_number arm_mode_names mode_loop same_text
    trace_add
read_options-reports_example = read_options-reports (λ name. false) options settings refl
