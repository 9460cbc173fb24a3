-- ===== src/Lib.antt =====
-- A model of the ARM simulator of this repository: the memory, the banked register file, the
-- instruction handlers, the exceptions, the step that fetches, tests, decodes and executes, the
-- server of the gdb protocol that drives it, and the program around them.
--
-- The parts and their files, paths from the root of the repository:
--   Util               util.h, util.c: the macros get_bit to set_bits, asr, ror, switch_endian
--   Memory             memory.c: create, get_size, and the six accesses
--   Registers          registers.c, modes of arm_constants.h: the cells, the pointers of each mode,
--                      and the accesses
--   Core               arm_core.c: the state of the processor and the accesses of instructions
--   DataProcessing     arm_data_processing.c: Flags (set_zn, carryFrom, overflowFrom, borrowFrom),
--                      Shifter (the shifter operands), and apply_operator with the three handlers
--   BranchOther        arm_branch_other.c: branches, BX, MRS, MUL
--   Exception          arm_exception.c, and arm_create of arm_core.c
--   LoadStore          arm_load_store.c, with Multiple and Miscellaneous
--   Instruction        arm_instruction.c: the condition, the decoder, the step
--   Gdb                gdb_protocol.c and the actions of scanner.l: Breakpoints (the table), Text
--                      (hexadecimal fields), Session (the state, the replies, cont), Handlers (the
--                      commands), Packets (the table of handlers, the analysis, the scanner)
--   Constants          arm_constants.c: the names and their search; send_irq.c: the byte of a name
--   Trace              trace.c: the state of the trace, the lines of accesses and of states
--   Debug              debug.c: the table of the debugged files
--   Simulator          arm_simulator.c: the start, the two listeners, and Options, which reads the
--                      options
--   UnitTests          memory_test.c, registers_test.c
--   Base, Bits         shared names, tests on numbers, and the arithmetic of bit operations
--   Host               what the machine and the build decide
--   Examples           a processor with a small program, and each theorem applied to it
-- A file below one of these modules holds its laws. A function has its name in C, with
-- underscores for capitals (carryFrom is carry_from), but the load and store pairs
-- arm_load_immediate_... and arm_store_immediate_..., which do the same, are one immediate_... .
--
-- State. An instruction is a function `ArmCore → Option (A × ArmCore)`: the core holds the cycle
-- count, the registers, the memory, and the output and the input of the process. `none` stands for
-- behaviour that C leaves undefined: an access through NULL, past the cells of a register, past
-- the bytes of the block, or past the array of print_string. Error codes are the returned numbers.
-- Words are natural numbers with `% 2 ^ 32` where the C type wraps; -1 is 0xffffffff. A byte read
-- takes the old contents of the variable that it is to fill and returns the new ones.
--
-- Host is a parameter: is_big_endian, the compile-time ENDIANESS, the value of a shift by 32 or
-- more, and the contents of an uninitialised local. The contents of fresh memory and the numbers
-- that scanf reads are arguments.
--
-- Loops. print_string runs on the 100 characters of its array, and ends in `none` past them, as C
-- does. The loops of LDM and STM run over 16 registers. The search of a breakpoint has fuel for
-- one round for each slot in use and one more: a round leaves a shorter range, or is the last. The
-- loop of cont may run for ever; its fuel is an argument.
--
-- A gdb session holds the processor, the table of breakpoints and what was written to the connection;
-- its handlers are functions `Session → List ℕ → Option Session` of a text, a list of bytes. `none` is
-- undefined behaviour, an assertion that fails, or a write after the shutdown. The functions of C
-- on texts (sscanf, snprintf, atoi, strcmp, index) are modelled as far as they are used. The tokens of
-- the scanner, which flex finds, are a parameter. A breakpoint stops cont only: step looks at none.
--
-- The modules named Keeps follow each handler with one rule for each way to build a run (Core/Keeps).
-- IsRegular (Core/File) is the invariant of the instruction theorems: the CPSR names a mode other
-- than FIQ, and each cell holds a 32-bit word.
--
-- The simulator has two threads: one takes what gdb sends, the other a byte for each interrupt. The
-- handlers of gdb and the exceptions run under one lock, so that a run is a list of turns of the two
-- threads; the processor is the one of the session, shared by both. malloc, getopt_long, fopen and
-- random are parameters. The table of debugged files and the trace are states of their own, which the
-- options set. A session holds the trace: single_step prints the states after each step, which can be
-- undefined. arm_core.c calls the trace of accesses, which changes nothing of the core, and these
-- calls are left out of Core. The search of a debugged file has fuel for each file and one more round.
--
-- Not modelled: sockets and threads (csapp.c is a copy of a library), the generated scanner.c, the
-- texts that are printed to the standard error, the release of memory, and the C programs under
-- Showcase, which are input of the simulator.
pub mod Base
pub mod Bits
pub mod Host
pub mod Util
pub mod Memory
pub mod Registers
pub mod Core
pub mod DataProcessing
pub mod BranchOther
pub mod Exception
pub mod LoadStore
pub mod Instruction
pub mod Gdb
pub mod Constants
pub mod Trace
pub mod Debug
pub mod Simulator
pub mod UnitTests
mod Examples
