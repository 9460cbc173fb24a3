-- ===== src/Core.antt =====
-- arm_core.c: the state of the simulated processor and the accesses that the instructions make.
-- Each access is a function in a state monad; `none` is a run that leaves defined behaviour.
-- The two last fields of the state stand for the standard output and input of the process. The
-- calls of trace.c write to the trace file only and are left out.
pub mod File
pub mod Fetch
pub mod Keeps
pub mod Accesses
use arm_sim.Base.{
  ℕ, ◌+◌, ◌%◌, ◌^◌, bit_and, ◌==◌, if◌then◌else◌, Bool, Option, none, some, List, ◌∷◌,
}
use arm_sim.Host.{Host}
use arm_sim.Util.{u8, u16, u32, add32}
use arm_sim.Memory.{
  Memory, memory_read_byte, memory_read_half, memory_read_word, memory_write_byte,
  memory_write_half, memory_write_word,
}
use arm_sim.Registers.{
  Registers, usr, registers_get_mode, registers_read, registers_read_cpsr, registers_read_spsr,
  registers_write, registers_write_cpsr, registers_write_spsr, registers_current_mode_has_spsr,
  registers_in_a_privileged_mode,
}

-- What the program prints while it simulates.
pub data Output : Type 0 where
  character : ℕ → Output
  decimal : ℕ → Output
  text : List ℕ → Output
  unknown_swi : ℕ → Output
  mrs_notice : Output

-- `inp` holds the numbers that the calls of scanf to come will store.
pub record ArmCore : Type 0 where
  pub cycle_count : ℕ
  pub reg : Registers
  pub mem : Memory
  pub out : List Output
  pub inp : List ℕ

-- A run from a core: its result with the core that it leaves.
abbrev pub M : Type 0 → Type 0
M A = ArmCore → Option (A × ArmCore)

abbrev pub pure : {A : Type 0} → A → M A
pure result core = some (result, core)

-- What comes after a run, which a fault cuts off.
abbrev pub resume : {A B : Type 0} → (A → M B) → Option (A × ArmCore) → Option (B × ArmCore)
resume next none = none
resume next (some (result, core)) = next result core

infixl 5 ◌>>=◌ ◌>>◌
abbrev pub ◌>>=◌ : {A B : Type 0} → M A → (A → M B) → M B
run >>= next = λ core. resume next (run core)

abbrev pub ◌>>◌ : {B : Type 0} → M (Unit {0}) → M B → M B
(run >> after) core = resume (λ _. after) (run core)

abbrev pub lift : {A : Type 0} → Option A → M A
lift none p = none
lift (some a) p = some (a, p)

-- The mode bits of the CPSR.
unfoldable pub current_mode : M ℕ
current_mode p = some (registers_get_mode p.reg, p)

abbrev pub set_registers : Registers → M (Unit {0})
set_registers r p = some (tt, record p { reg = r })

abbrev pub set_memory : Memory → M (Unit {0})
set_memory m p = some (tt, record p { mem = m })

unfoldable pub emit : Output → M (Unit {0})
emit o p = some (tt, record p { out = o ∷ p.out })

unfoldable pub arm_current_mode_has_spsr : M Bool
arm_current_mode_has_spsr p = some (registers_current_mode_has_spsr p.reg, p)

unfoldable pub arm_in_a_privileged_mode : M Bool
arm_in_a_privileged_mode p = some (registers_in_a_privileged_mode p.reg, p)

unfoldable pub arm_get_cycle_count : M ℕ
arm_get_cycle_count p = some (p.cycle_count, p)

-- The fetch has moved the pc by 4 already; a read adds 4 more.
abbrev pub as_read : ℕ → ℕ → ℕ
as_read reg value = if reg == 15 then bit_and (add32 value 4) 0xfffffffd else value

unfoldable pub arm_read_register_internal : Host → ℕ → ℕ → M ℕ
arm_read_register_internal host reg mode p =
    (do value ← lift (registers_read host p.reg reg mode); pure (as_read reg value)) p

unfoldable pub arm_read_register : Host → ℕ → M ℕ
unfolding arm_read_register_internal current_mode
arm_read_register host reg = do mode ← current_mode; arm_read_register_internal host reg mode

unfoldable pub arm_read_usr_register : Host → ℕ → M ℕ
unfolding arm_read_register_internal
arm_read_usr_register host reg = arm_read_register_internal host reg usr

unfoldable pub arm_read_cpsr : M ℕ
arm_read_cpsr p = some (registers_read_cpsr p.reg, p)

unfoldable pub arm_read_spsr : Host → M ℕ
arm_read_spsr host p = lift (registers_read_spsr host p.reg (registers_get_mode p.reg)) p

unfoldable pub arm_write_register_internal : Host → ℕ → ℕ → ℕ → M (Unit {0})
arm_write_register_internal host reg mode value p =
    (do r ← lift (registers_write host p.reg reg mode value); set_registers r) p

unfoldable pub arm_write_register : Host → ℕ → ℕ → M (Unit {0})
unfolding arm_write_register_internal current_mode
arm_write_register host reg value = do
  mode ← current_mode
  arm_write_register_internal host reg mode value

unfoldable pub arm_write_usr_register : Host → ℕ → ℕ → M (Unit {0})
unfolding arm_write_register_internal
arm_write_usr_register host reg value = arm_write_register_internal host reg usr value

unfoldable pub arm_write_cpsr : ℕ → M (Unit {0})
arm_write_cpsr value p = some (tt, record p { reg = registers_write_cpsr p.reg value })

unfoldable pub arm_write_spsr : Host → ℕ → M (Unit {0})
arm_write_spsr host value p =
    (do
      r ← lift (registers_write_spsr host p.reg (registers_get_mode p.reg) value)
      set_registers r)
      p

-- A read takes the old contents of the variable that its third argument points to, and returns
-- the code with the new contents.
unfoldable pub arm_read_byte : Host → ℕ → ℕ → M (ℕ × ℕ)
arm_read_byte host address value p = lift (memory_read_byte p.mem address value) p

unfoldable pub arm_read_half : Host → ℕ → ℕ → M (ℕ × ℕ)
arm_read_half host address value p = lift (memory_read_half p.mem address value host.endianess) p

unfoldable pub arm_read_word : Host → ℕ → ℕ → M (ℕ × ℕ)
arm_read_word host address value p = lift (memory_read_word p.mem address value host.endianess) p

abbrev pub tick : M (Unit {0})
tick p = some (tt, record p { cycle_count = add32 p.cycle_count 1 })

unfoldable pub arm_fetch : Host → ℕ → M (ℕ × ℕ)
unfolding current_mode
arm_fetch host value p =
    (do
      mode ← current_mode
      address ← lift (registers_read host p.reg 15 mode)
      r ← lift (registers_write host p.reg 15 mode (add32 address 4))
      set_registers r
      result ← lift (memory_read_word p.mem address value host.endianess)
      tick
      pure result)
      p

unfoldable pub arm_write_byte : Host → ℕ → ℕ → M ℕ
arm_write_byte host address value p =
    (do (code, m) ← lift (memory_write_byte p.mem address (u8 value)); set_memory m; pure code) p

unfoldable pub arm_write_half : Host → ℕ → ℕ → M ℕ
arm_write_half host address value p =
    (do
      (code, m) ← lift (memory_write_half p.mem address (u16 value) host.endianess)
      set_memory m
      pure code)
      p

unfoldable pub arm_write_word : Host → ℕ → ℕ → M ℕ
arm_write_word host address value p =
    (do
      (code, m) ← lift (memory_write_word p.mem address value host.endianess)
      set_memory m
      pure code)
      p
