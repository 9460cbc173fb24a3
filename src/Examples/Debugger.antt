-- ===== src/Examples/Debugger.antt =====
-- Applications of the theorems on gdb_protocol.c and scanner.l.
use arm_sim.Registers.{registers_read_cpsr}
use arm_sim.Trace.{initial_trace}
use arm_sim.Gdb.Text.{after}
use arm_sim.Gdb.Text.{expect}
use arm_sim.Gdb.Text.{scan_digits}
use arm_sim.Gdb.Text.{digit_value}
use arm_sim.Gdb.Text.{is_space}
use arm_sim.Gdb.Text.{skip_spaces}
use arm_sim.Gdb.Text.{skip_sign}
use arm_sim.Gdb.Text.{skip_prefix}
use arm_sim.Gdb.Text.{scan_number}
use arm_sim.Gdb.Breakpoints.Refine.{unmark}
use arm_sim.Gdb.Breakpoints.Refine.{mark}
use arm_sim.Base.{
  ℕ, ◌*◌, ◌%◌, ◌^◌, ◌≡◌, arith, refl, ◌==◌, ◌||◌, if◌then◌else◌, true, some, List, [], ◌∷◌, ◌++◌,
}
use arm_sim.Base.Optional.{◌>>=◌}
use arm_sim.Registers.{put_cell}
use arm_sim.Core.File.{cpsr_of}
use arm_sim.Gdb.Text.{codes, hex_digit, hex_digits, scan_hex, write_uint32}
use arm_sim.Gdb.Breakpoints.{Table, gdb_find_breakpoint, init_breakpoints}
use arm_sim.Gdb.Breakpoints.Search.{IsTable, Locates, gdb_find_breakpoint-Locates}
use arm_sim.Gdb.Breakpoints.Refine.{Marks}
use arm_sim.Gdb.Breakpoints.Runs.{insert, delete, stops_at, call_set, run, run_set, run-eq-run_set}
use arm_sim.Gdb.Session.{Session, checksum, gdb_send_ack, gdb_send_buffer}
use arm_sim.Gdb.Handlers.{read_memory, scan_range, unknown_words}
use arm_sim.Gdb.Handlers.Blocks.{read_memory-eq}
use arm_sim.Gdb.Handlers.Binary.{escape, Downloads, write_memory_binary-Downloads}
use arm_sim.Gdb.Text.Words.{words_text}
use arm_sim.Gdb.Handlers.Files.{Fills, write_general_registers-Fills}
use arm_sim.Gdb.Packets.{gdb_packet_analysis, dispatch}
use arm_sim.Gdb.Packets.Dispatch.{marked, gdb_packet_analysis-marked}
use arm_sim.Examples.{x86, program_block, at_branch, core_of-IsRegular}

abbrev two_breakpoints : Table
two_breakpoints = record {
  breakpoints = λ i. if i == 0 then 0x104 else 0x10c;
  breakpoints_number = 2;
}

abbrev two_marks : Marks
two_marks = record { size = 2; marked = λ x. x == 0x104 || x == 0x10c }

two_breakpoints-IsTable : IsTable two_breakpoints
two_breakpoints-IsTable = record { room = omega arith; ascending = λ i j p q. ground arith }

gdb_find_breakpoint-Locates_example :
    Locates two_breakpoints.breakpoints 0x10c 0 2 (gdb_find_breakpoint two_breakpoints 0x10c)
gdb_find_breakpoint-Locates_example =
    gdb_find_breakpoint-Locates two_breakpoints 0x10c two_breakpoints-IsTable

run-eq-run_set_example :
    run
      (init_breakpoints (λ i. 9))
      (insert 0x10c ∷ insert 0x104 ∷ stops_at 0x104 ∷ delete 0x104 ∷ delete 0x104 ∷ [])
    ≡ some (1 ∷ 1 ∷ 1 ∷ 1 ∷ 0 ∷ [])
unfolding run_set call_set mark unmark
run-eq-run_set_example =
    run-eq-run_set (λ i. 9)
      (insert 0x10c ∷ insert 0x104 ∷ stops_at 0x104 ∷ delete 0x104 ∷ delete 0x104 ∷ [])

-- A session with the two breakpoints, before the instruction at 0x100 that branches to 0x10c.
abbrev session : Session
session = record {
  core = at_branch;
  target_exception = 0;
  table = two_breakpoints;
  packet = [];
  sent = [];
  is_open = true;
  trace = initial_trace;
}

abbrev stopped : Session
stopped = record session {
  core = record at_branch {
    cycle_count = 1;
    reg =
        put_cell (put_cell (put_cell at_branch.reg 15 0 0x04010000) 14 2 0x04010000) 15 0
          0x0c010000;
  };
}

-- The checksum of Hc0 is 0xdb.
gdb_packet_analysis-marked_example :
    gdb_packet_analysis x86 0 session (marked (codes "Hc0") 13 11) ≡ (do
      s ← gdb_send_ack session
      dispatch x86 0 s (codes "Hc0" ++ (0 ∷ hex_digit 13 ∷ hex_digit 11 ∷ 0 ∷ [])))
unfolding checksum
gdb_packet_analysis-marked_example =
    gdb_packet_analysis-marked (codes "Hc0") 13 11 (omega arith) (omega arith) x86 0 session

-- Eight bytes asked for, of which two are in the block.
read_memory-eq_example :
    read_memory x86 session (codes "ffe,8") ≡ gdb_send_buffer session (codes "0000")
unfolding hex_digits scan_range scan_hex scan_number skip_prefix skip_sign skip_spaces is_space
    digit_value scan_digits expect hex_digit
read_memory-eq_example =
    read_memory-eq x86 program_block (omega arith) session (codes "ffe,8") [] 0xffe 8 refl refl

abbrev download : List ℕ
download = codes "200,3:" ++ escape (0x7d ∷ 1 ∷ 0x23 ∷ [])

write_memory_binary-Downloads_example :
    Downloads x86 session program_block 0x200 (0x7d ∷ 1 ∷ 0x23 ∷ []) download
unfolding scan_range scan_hex scan_number skip_prefix skip_sign skip_spaces is_space digit_value
    scan_digits expect after
write_memory_binary-Downloads_example =
    write_memory_binary-Downloads x86 session program_block refl (omega arith) 0x200
      (0x7d ∷ 1 ∷ 0x23 ∷ []) download (b':' ∷ escape (0x7d ∷ 1 ∷ 0x23 ∷ [])) [] refl refl
      (omega arith, (omega arith, (omega arith, tt))) (omega arith) (omega arith)

write_general_registers-Fills_example :
    Fills x86
      (λ j. j * 0x1000 % 2 ^ 32)
      0x60000013
      session
      (words_text (λ j. j * 0x1000 % 2 ^ 32) 16 0
        ++ (unknown_words 25 ++ (write_uint32 0x60000013 ++ [])))
unfolding cpsr_of registers_read_cpsr
write_general_registers-Fills_example =
    write_general_registers-Fills x86 (λ j. j * 0x1000 % 2 ^ 32) (λ j. omega arith) 0x60000013
      (omega arith) session (core_of-IsRegular 0x00010000 (some program_block) (omega arith)) refl
      (unknown_words 25) [] refl
