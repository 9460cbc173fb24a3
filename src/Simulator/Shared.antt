-- ===== src/Simulator/Shared.antt =====
-- arm_simulator.c: the state at the start, and what every interleaving of the two listeners keeps.
use arm_sim.Base.{
  ℕ, ◌^◌, ◌<◌, ◌≡◌, ◌∙◌, ap, arith, refl, Bool, true, Option, none, some, List, [], ◌∷◌,
}
use arm_sim.Base.Optional.{◌>>=◌}
use arm_sim.Base.Gives.{Meets, Meets-bind, Meets-some, Meets-none}
use arm_sim.Host.{Host}
use arm_sim.Util.{u8}
use arm_sim.Util.Bounds.{IsWordHost}
use arm_sim.Memory.{memory_create, memory_get_size}
use arm_sim.Registers.{registers_create}
use arm_sim.Core.{ArmCore}
use arm_sim.Core.File.{
  IsRegular, cpsr_of, reg_at, put_reg, arm_write_register-eq, cpsr_of-put_reg, reg_at-put_reg,
}
use arm_sim.Core.Keeps.{IsMachine, AllWords}
use arm_sim.Core.Accesses.{Keeps-arm_write_register}
use arm_sim.BranchOther.{pc, reset}
use arm_sim.Exception.{sp, reset_cpsr, arm_create, arm_exception}
use arm_sim.Exception.Entry.{arm_exception_resets}
use arm_sim.Exception.Keeps.{Keeps-arm_exception}
use arm_sim.Gdb.Session.{gdb_init_data}
use arm_sim.Gdb.Machine.{HasMachine, Ends-Meets}
use arm_sim.Gdb.Machine.Dispatch.{scan-HasMachine}
use arm_sim.Gdb.Packets.{ParserData, scan}
use arm_sim.Gdb.Packets.Invariant.{IsSession}
use arm_sim.Gdb.Packets.Scan.{IsParserData, last_place}
use arm_sim.Gdb.Packets.Tokens.{gdb_scanner, gdb_scanner-IsParserData, scan-IsParserData}
use arm_sim.Simulator.{memory_size, Blocks, start, Turn, gdb, request, irq_listener, turn, simulate}

-- The blocks that the structures need, of bytes.
pub record IsAllocated (blocks : Blocks) : Type 0 where
  pub contents : ℕ → ℕ
  pub bytes : (i : ℕ) → contents i < 2 ^ 8
  pub memory : blocks.has_memory ≡ true
  pub core : blocks.has_core ≡ true
  pub given : blocks.block ≡ some contents

-- The scanner and the session are sound, and the processor is a machine.
pub record IsShared (d : ParserData) : Type 0 where
  pub parser : IsParserData last_place d
  pub machine : IsMachine d.gdb.core

module _ (host : Host) (fuel : ℕ) (w : IsWordHost host) where
  irq_listener-IsShared :
      (d : ParserData) (byte : ℕ)
      → IsShared d
      → Meets (λ s. IsSession s × IsMachine s.core) (irq_listener host d.gdb byte)
  unfolding irq_listener
  irq_listener-IsShared d byte q =
      Meets-bind _ (arm_exception host (u8 byte) d.gdb.core) _
        (Ends-Meets _ _
          ((Keeps-arm_exception host w (u8 byte) (omega arith)).at d.gdb.core q.machine))
        (λ r h.
          let session = q.parser.session in
          Meets-some _ (record d.gdb { core = r.1 })
            (record { table = session.table; packet = session.packet }, h))

  both :
      (o : Option ParserData)
      → Meets (IsParserData last_place) o
      → Meets (λ e. HasMachine e.gdb) o
      → Meets IsShared o
  both none p m = Meets-none IsShared
  both (some d) p m = Meets-some IsShared d (record { parser = p.meets; machine = m.meets.machine })

  turn-IsShared : (d : ParserData) (t : Turn) → IsShared d → Meets IsShared (turn host fuel d t)
  unfolding turn
  turn-IsShared d (gdb t) q =
      both (scan host fuel d t) (scan-IsParserData host fuel d t q.parser)
        (scan-HasMachine host fuel w d t (record { machine = q.machine }))
  turn-IsShared d (request byte) q =
      Meets-bind IsShared (irq_listener host d.gdb byte) _ (irq_listener-IsShared d byte q) (λ s h.
        Meets-some IsShared (record d { gdb = s })
          (record { parser = record { session = h.0; room = q.parser.room }; machine = h.1 }))

  simulate-IsShared :
      (d : ParserData) (ts : List Turn) → IsShared d → Meets IsShared (simulate host fuel d ts)
  unfolding simulate
  simulate-IsShared d [] q = Meets-some IsShared d q
  simulate-IsShared d (t ∷ ts) q =
      Meets-bind IsShared (turn host fuel d t) _ (turn-IsShared d t q)
        (λ d₁ q₁. simulate-IsShared d₁ ts q₁)

module _ (host : Host) (blocks : Blocks) (inp : List ℕ) where
  abbrev created : ArmCore
  created = record {
    cycle_count = 0;
    reg = registers_create;
    mem = memory_create blocks.has_memory blocks.block memory_size;
    out = [];
    inp = inp;
  }

  created-IsMachine : IsAllocated blocks → AllWords inp → IsMachine created
  unfolding registers_create memory_create
  created-IsMachine a n = record {
    words = λ i c. omega arith;
    cycles = omega arith;
    block = λ i. rw (a.memory, a.given) (a.bytes i);
    numbers = n;
  }

  module _ (a : IsAllocated blocks) (n : AllWords inp) where
    size-created : memory_get_size created.mem ≡ memory_size
    unfolding memory_get_size memory_create
    size-created = rw (a.memory, a.given) refl

    module _ (r : ArmCore) (ran : arm_exception host reset created ≡ some (reset, r))
        (q : IsRegular r) where
      abbrev booted : ArmCore
      booted = put_reg host sp memory_size r

      arm_create-booted : arm_create host true registers_create created.mem inp ≡ some (some booted)
      unfolding arm_create
      arm_create-booted =
          ground
            (arith, ran, size-created, arm_write_register-eq host r q sp (omega arith) memory_size)

      start-booted :
          start host blocks inp ≡ some (gdb_scanner booted blocks.breakpoints blocks.buffer)
      unfolding start
      start-booted = rw (a.core, arm_create-booted) refl

      booted-IsMachine : IsWordHost host → IsMachine booted
      booted-IsMachine w =
          let m = created-IsMachine a n in
          let reset_run = (Keeps-arm_exception host w reset (omega arith)).at created m in
          let q₁ : IsMachine r = (rw ran at reset_run).1 in
          let sp_run = (Keeps-arm_write_register host sp memory_size (omega arith)).at r q₁ in
          (rw (arm_write_register-eq host r q sp (omega arith) memory_size) at sp_run).1

      booted-IsShared :
          IsWordHost host → IsShared (gdb_scanner booted blocks.breakpoints blocks.buffer)
      unfolding gdb_init_data
      booted-IsShared w = record {
        parser = gdb_scanner-IsParserData booted blocks.breakpoints blocks.buffer;
        machine = booted-IsMachine w;
      }

    -- When malloc gives every structure: the simulator starts, with the CPSR of a reset, the pc at
    -- 0, the stack pointer at the end of the memory, which holds what malloc left in its block, no
    -- output, a new session, and a state that is sound.
    pub start-IsShared :
        IsWordHost host
        → (p : ArmCore) × (start host blocks inp
            ≡ some (gdb_scanner p blocks.breakpoints blocks.buffer))
          × (cpsr_of p ≡ reset_cpsr)
          × (reg_at host p pc ≡ 0)
          × (reg_at host p sp ≡ memory_size)
          × (p.mem ≡ memory_create true blocks.block memory_size)
          × (p.out ≡ [])
          × IsShared (gdb_scanner p blocks.breakpoints blocks.buffer)
    start-IsShared w =
        let (r, ran, status, at_zero, memory, output, q) =
          arm_exception_resets host created (created-IsMachine a n).words in
        (
          booted r ran q,
          start-booted r ran q,
          ground (arith, cpsr_of-put_reg host r sp memory_size (omega arith), status),
          ground (
            arith,
            at_zero,
            reg_at-put_reg host r q sp (omega arith) memory_size pc (omega arith) (omega arith),
          ),
          ground (
            arith,
            reg_at-put_reg host r q sp (omega arith) memory_size sp (omega arith) (omega arith),
          ),
          unfold put_reg in
              memory ∙ ap (λ (b : Bool). memory_create b blocks.block memory_size) a.memory,
          unfold put_reg in output,
          booted-IsShared r ran q w,
        )

    -- Every interleaving of the turns of the two listeners, whatever gdb and the IRQ connection
    -- send: as long as the run stays within defined behaviour, the scanner, the session and its
    -- table of breakpoints stay within their arrays, the registers hold words and the memory
    -- bytes.
    pub simulate-start :
        (fuel : ℕ) (ts : List Turn) {d : ParserData}
        → IsWordHost host
        → (start host blocks inp >>= λ d₀. simulate host fuel d₀ ts) ≡ some d
        → IsShared d
    simulate-start fuel ts w e =
        let (p, started, _, _, _, _, _, shared) = start-IsShared w in
        let d₀ = gdb_scanner p blocks.breakpoints blocks.buffer in
        let k = simulate-IsShared host fuel w d₀ ts shared in (rw (rw started at e) at k).meets
