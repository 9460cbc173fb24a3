-- ===== src/Registers.antt =====
-- registers.c and the modes of arm_constants.h: 18 registers, each an array of cells with one
-- pointer per processor mode, so that modes share a cell or have their own.
-- An access through a NULL pointer, or past the cells that calloc gave, is undefined in C and
-- gives `none`.
pub mod Laws
pub mod Banks
pub mod Words
use arm_sim.Base.{ℕ, ◌-◌, ltb, leb, ◌==◌, if◌then◌else◌, ◌&&◌, ◌||◌, not, Bool, Option, none, some}
use arm_sim.Base.Optional.{◌>>=◌}
use arm_sim.Host.{Host}
use arm_sim.Util.{get_bits, switch_endian}

abbrev pub usr : ℕ
usr = 0x10

abbrev pub fiq : ℕ
fiq = 0x11

abbrev pub irq : ℕ
irq = 0x12

abbrev pub svc : ℕ
svc = 0x13

abbrev pub abt : ℕ
abt = 0x17

abbrev pub und : ℕ
und = 0x1b

abbrev pub sys : ℕ
sys = 0x1f

abbrev pub n_registres : ℕ
n_registres = 18

abbrev pub n_modes : ℕ
n_modes = 7

abbrev pub cpsr : ℕ
cpsr = 16

abbrev pub spsr : ℕ
spsr = 17

-- `data_of i c` is `reg[i].data[c]`. The pointers are set once, by `registers_create`, and are the
-- function `ptrs` below.
pub record Registers : Type 0 where
  pub data_of : ℕ → ℕ → ℕ

-- The number of cells that `registers_create` asks calloc for.
unfoldable pub cells : ℕ → ℕ
cells i =
    if leb 8 i && leb i 12 then 2 else if i == 13 || i == 14 then 6 else if i == 17 then 5 else 1

-- `reg[i].ptrs[j]` as the index of the cell that it points to, and `none` for NULL.
unfoldable pub ptrs : ℕ → ℕ → Option ℕ
ptrs i j =
    if leb 8 i && leb i 12
    then (if j == 6 then some 1 else some 0)
    else if i == 13 || i == 14
    then (if ltb j 2 then some 0 else some j)
    else if i == 17
    then (if ltb j 2 then none else some (j - 2))
    else some 0

-- calloc clears the cells.
unfoldable pub registers_create : Registers
registers_create = record { data_of = λ i c. 0 }

unfoldable pub get_read_write_mode : ℕ → ℕ
get_read_write_mode mode =
    if mode == usr
    then 0
    else if mode == sys
    then 1
    else if mode == svc
    then 2
    else if mode == abt
    then 3
    else if mode == und
    then 4
    else if mode == irq
    then 5
    else if mode == fiq
    then 6
    else 0

unfoldable pub registers_get_mode : Registers → ℕ
registers_get_mode r = get_bits (r.data_of cpsr 0) 5 0

unfoldable pub registers_mode_has_spsr : ℕ → Bool
registers_mode_has_spsr mode = leb 2 (get_read_write_mode mode)

unfoldable pub registers_current_mode_has_spsr : Registers → Bool
registers_current_mode_has_spsr r = registers_mode_has_spsr (registers_get_mode r)

unfoldable pub registers_in_a_privileged_mode : Registers → Bool
registers_in_a_privileged_mode r = not (registers_get_mode r == usr)

-- The cell that `*(r->reg[reg].ptrs[m])` names.
unfoldable pub cell : ℕ → ℕ → Option ℕ
cell reg m =
    if ltb reg n_registres
    then (do c ← ptrs reg m; if ltb c (cells reg) then some c else none)
    else none

-- A register is held in big-endian order, whatever the machine.
unfoldable pub to_stored : Host → ℕ → ℕ
to_stored host x = if not host.is_big_endian then switch_endian x else x

unfoldable pub registers_read : Host → Registers → ℕ → ℕ → Option ℕ
registers_read host r reg mode = do
  c ← cell reg (get_read_write_mode mode)
  some (to_stored host (r.data_of reg c))

unfoldable pub registers_read_cpsr : Registers → ℕ
registers_read_cpsr r = r.data_of cpsr 0

unfoldable pub registers_read_spsr : Host → Registers → ℕ → Option ℕ
registers_read_spsr host r mode = registers_read host r spsr mode

-- `reg[i].data[c] = v`.
abbrev pub put_cell : Registers → ℕ → ℕ → ℕ → Registers
put_cell r i c v = record { data_of = λ j d. if i == j && c == d then v else r.data_of j d }

unfoldable pub registers_write : Host → Registers → ℕ → ℕ → ℕ → Option Registers
registers_write host r reg mode value = do
  c ← cell reg (get_read_write_mode mode)
  some (put_cell r reg c (to_stored host value))

unfoldable pub registers_write_cpsr : Registers → ℕ → Registers
registers_write_cpsr r value = put_cell r cpsr 0 value

unfoldable pub registers_write_spsr : Host → Registers → ℕ → ℕ → Option Registers
registers_write_spsr host r mode value =
    if registers_mode_has_spsr mode then registers_write host r spsr mode value else some r
