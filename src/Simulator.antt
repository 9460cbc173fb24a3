-- ===== src/Simulator.antt =====
-- arm_simulator.c: the program around the processor. The two listeners are threads that share the
-- processor under one lock: the gdb listener runs the scanner, whose handlers hold the lock from
-- their start to their end, and the IRQ listener raises an exception for each byte that it
-- receives, under the same lock. A run is the sequence of these turns, in any order. Sockets,
-- threads and the lock itself are system calls and parameters of the run; so are what malloc leaves in
-- its blocks and the numbers that the simulated program will read.
pub mod Shared
pub mod Options
use arm_sim.Base.{ℕ, Bool, Option, none, some, List, [], ◌∷◌}
use arm_sim.Base.Optional.{◌>>=◌}
use arm_sim.Host.{Host}
use arm_sim.Util.{u8}
use arm_sim.Memory.{memory_create}
use arm_sim.Registers.{registers_create}
use arm_sim.Core.{ArmCore}
use arm_sim.Exception.{arm_create, arm_exception}
use arm_sim.Gdb.Session.{Session}
use arm_sim.Gdb.Packets.{ParserData, Token, scan}
use arm_sim.Gdb.Packets.Tokens.{gdb_scanner}

-- The memory that `main` asks for.
abbrev pub memory_size : ℕ
memory_size = 0x8000

-- What the calls of malloc give: whether each structure was allocated, and the contents of the block
-- of memory, of the array of breakpoints, and of the buffer of the scanner.
pub record Blocks : Type 0 where
  pub has_memory : Bool
  pub has_core : Bool
  pub block : Option (ℕ → ℕ)
  pub breakpoints : ℕ → ℕ
  pub buffer : ℕ → ℕ

-- A core that was not allocated is NULL, which the listeners go through.
abbrev connect : Blocks → Option ArmCore → Option ParserData
connect blocks none = none
connect blocks (some core) = some (gdb_scanner core blocks.breakpoints blocks.buffer)

-- `main` from the creation of the memory on, to the connection of gdb.
unfoldable pub start : Host → Blocks → List ℕ → Option ParserData
start host blocks inp = do
  let mem = memory_create blocks.has_memory blocks.block memory_size
  core ← arm_create host blocks.has_core registers_create mem inp
  connect blocks core

-- A turn of one of the threads: what flex finds in the text of gdb, or a byte on the IRQ connection.
pub data Turn : Type 0 where
  gdb : Token → Turn
  request : ℕ → Turn

-- The body of the loop of `irq_listener`; the code of the exception is not used.
unfoldable pub irq_listener : Host → Session → ℕ → Option Session
irq_listener host s byte = do
  (code, core) ← arm_exception host (u8 byte) s.core
  some (record s { core = core })

unfoldable pub turn : Host → ℕ → ParserData → Turn → Option ParserData
turn host fuel d (gdb t) = scan host fuel d t
turn host fuel d (request byte) = do s ← irq_listener host d.gdb byte; some (record d { gdb = s })

-- The turns of a run, in their order. Nothing comes from gdb after its end of file.
unfoldable pub simulate : Host → ℕ → ParserData → List Turn → Option ParserData
simulate host fuel d [] = some d
simulate host fuel d (t ∷ ts) = do d₁ ← turn host fuel d t; simulate host fuel d₁ ts
