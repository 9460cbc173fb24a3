-- ===== src/Exception.antt =====
-- arm_exception.c, and `arm_create` of arm_core.c, which resets the core that it makes: the
-- software interrupts that the simulator serves itself, the IRQ entry, and reset.
pub mod Entry
pub mod Irq
pub mod IrqEntry
pub mod Keeps
use arm_sim.Base.{ℕ, zero, suc, bit_and, ◌==◌, if◌then◌else◌, Bool, true, false, Option, none, some}
use arm_sim.Base.{List, [], ◌∷◌}
use arm_sim.Host.{Host}
use arm_sim.Util.{u8, u32, add32, sub32, get_bit, set_bit, clr_bit, set_bits}
use arm_sim.Memory.{Memory, memory_get_size}
use arm_sim.Registers.{Registers, irq}
use arm_sim.Core.{
  ArmCore, M, pure, ◌>>=◌, ◌>>◌, emit, character, decimal, text, unknown_swi, arm_read_register,
  arm_write_register, arm_read_cpsr, arm_write_cpsr, arm_write_spsr, arm_read_byte, arm_read_word,
}
use arm_sim.BranchOther.{lr, pc, reset, interrupt, software_interrupt, end_simulation}

abbrev pub sp : ℕ
sp = 13

abbrev pub reset_cpsr : ℕ
reset_cpsr = 0x153

abbrev pub irq_vector_adr : ℕ
irq_vector_adr = 0x18

-- The loop of `print_string` over its array of 100 characters, with `room` of them left; a
-- string that does not fit is written past the array.
unfoldable pub string_loop : Host → ℕ → ℕ → ℕ → M (List ℕ)
string_loop host zero address value p = none
string_loop host (suc room) address value p =
    (do
      (code, c) ← arm_read_byte host address value
      elim (c == 0) [
        | true ↦ pure []
        | false ↦ do rest ← string_loop host room (add32 address 1) c; pure (c ∷ rest)
      ])
      p

unfoldable pub print_string : Host → M (Unit {0})
print_string host = do
  address ← arm_read_register host 0
  c ← string_loop host 100 address (u8 host.uninit)
  emit (text c)

-- With no number left on the input `scanf` stores none.
unfoldable pub scan_int : Host → M ℕ
scan_int host p = elim p.inp [
  | [] ↦ some (host.uninit, p)
  | x ∷ xs ↦ some (x, record p { inp = xs })
]

unfoldable pub serve : Host → ℕ → M ℕ
serve host instruction =
    if instruction == 0x123456
    then pure end_simulation
    else if instruction == 1
    then (do value ← arm_read_register host 0; emit (character (u8 value)); pure 0)
    else if instruction == 2
    then (do value ← arm_read_register host 0; emit (decimal value); pure 0)
    else if instruction == 3
    then (do print_string host; pure 0)
    else if instruction == 4
    then (do x ← scan_int host; arm_write_register host 0 x; pure 0)
    else (do emit (unknown_swi instruction); pure software_interrupt)

-- The branch for SOFTWARE_INTERRUPT.
unfoldable pub software_exception : Host → M ℕ
software_exception host = do
  address ← arm_read_register host pc
  (code, instruction) ← arm_read_word host (sub32 address 8) host.uninit
  serve host (bit_and instruction 0xffffff)

-- The CPSR of IRQ mode: ARM state, further IRQs disabled.
unfoldable pub irq_cpsr : ℕ → ℕ
irq_cpsr cpsr = set_bit (clr_bit (set_bits cpsr 4 0 irq) 5) 7

unfoldable pub enter_irq : Host → ℕ → M ℕ
enter_irq host cpsr = do
  sp_adr ← arm_read_register host sp
  r14_irq ← arm_read_register host pc
  arm_write_cpsr (irq_cpsr cpsr)
  arm_write_spsr host cpsr
  arm_write_register host pc (sub32 irq_vector_adr 4)
  arm_write_register host lr r14_irq
  arm_write_register host sp sp_adr
  pure interrupt

-- The branch for INTERRUPT.
unfoldable pub irq_exception : Host → M ℕ
irq_exception host = do
  cpsr ← arm_read_cpsr
  if get_bit cpsr 7 == 0 then enter_irq host cpsr else pure 1

unfoldable pub reset_exception : Host → M ℕ
reset_exception host = do arm_write_cpsr reset_cpsr; arm_write_register host pc 0; pure reset

-- `exception` is a uint8_t.
unfoldable pub arm_exception : Host → ℕ → M ℕ
arm_exception host exception =
    if exception == software_interrupt
    then software_exception host
    else if exception == interrupt
    then irq_exception host
    else if exception == reset
    then reset_exception host
    else pure exception

-- The first argument tells whether malloc gave the structure; the streams are those of the process.
unfoldable pub arm_create : Host → Bool → Registers → Memory → List ℕ → Option (Option ArmCore)
arm_create host false reg mem inp = some none
arm_create host true reg mem inp =
    elim ((do
      code ← arm_exception host reset
      arm_write_register host sp (u32 (memory_get_size mem)))
      (record { cycle_count = 0; reg = reg; mem = mem; out = []; inp = inp })) [
        | none ↦ none
        | some (_, p) ↦ some (some p)
      ]
