-- ===== src/Registers/Banks.antt =====
-- The banks of the ARM register file (manual A2.3 to A2.5) as an independent description, and
-- that registers.c keeps to it.
use arm_sim.Base.{ℕ, ◌<◌, ◌^◌, ◌≡◌, ◌↔◌, arith, refl, Option, none, some}
use arm_sim.Base.{
  ltb, leb, ◌==◌, ◌&&◌, ◌||◌, not, Bool, true, false, if◌then◌else◌, all_below, all_below_sound,
}
use arm_sim.Host.{Host}
use arm_sim.Registers.{
  Registers, usr, fiq, irq, svc, abt, und, sys, cell, ptrs, cells, get_read_write_mode,
  registers_read, registers_write,
}
use arm_sim.Registers.Laws.{to_stored-to_stored}

-- The seven modes.
unfoldable pub is_mode : ℕ → Bool
is_mode m = m == usr || m == fiq || m == irq || m == svc || m == abt || m == und || m == sys

-- User and system mode have one bank; every other mode has its own.
abbrev pub bank_of : ℕ → ℕ
bank_of m = if m == sys then usr else m

-- Whether modes `m` and `m'` see one physical register under number `reg`: r0 to r7, the pc and
-- the CPSR (16) are common to all, r8 to r12 have a second bank for FIQ, and r13, r14 and the
-- SPSR (17) have a bank for each mode.
unfoldable pub same_bank : ℕ → ℕ → ℕ → Bool
same_bank reg m m' =
    if ltb reg 8 || reg == 15 || reg == 16
    then true
    else if leb reg 12
    then (if m == fiq then m' == fiq else not (m' == fiq))
    else bank_of m == bank_of m'

-- The accesses that leave the allocated cells: r13 and r14 in FIQ mode, and the SPSR of user and
-- system mode, which do not have one.
unfoldable pub faults : ℕ → ℕ → Bool
faults reg m = ((reg == 13 || reg == 14) && m == fiq) || (reg == 17 && (m == usr || m == sys))

abbrev cell_in : ℕ → ℕ → Option ℕ
cell_in reg m = cell reg (get_read_write_mode m)

abbrev agree : Bool → Bool → Bool
agree true b = b
agree false b = not b

-- The two descriptions compared at one register and two modes.
abbrev compare_banks : Option ℕ → Option ℕ → Bool → Bool
compare_banks (some c) (some c') same = agree (c == c') same
compare_banks _ _ same = true

is_none : Option ℕ → Bool
is_none none = true
is_none (some c) = false

table_entry : ℕ → ℕ → ℕ → Bool
table_entry reg m m' =
    if is_mode m && is_mode m'
    then compare_banks (cell_in reg m) (cell_in reg m') (same_bank reg m m')
      && agree (is_none (cell_in reg m)) (faults reg m)
    else true

table : all_below 18 (λ reg. all_below 32 (λ m. all_below 32 (λ m'. table_entry reg m m'))) ≡ true
unfolding all_below table_entry is_mode cell get_read_write_mode same_bank faults ptrs cells is_none
table = refl

is_mode-lt : (m : ℕ) → is_mode m ≡ true → m < 32
unfolding is_mode
is_mode-lt m h = ground arith

module _ (reg m m' : ℕ) (in_file : reg < 18) (mode : is_mode m ≡ true)
    (mode' : is_mode m' ≡ true) where
  entry : table_entry reg m m' ≡ true
  entry =
      all_below_sound 32 (λ m'. table_entry reg m m') m'
        (all_below_sound 32 (λ m. all_below 32 (λ m'. table_entry reg m m')) m
          (all_below_sound 18 (λ reg. all_below 32 (λ m. all_below 32 (λ m'. table_entry reg m m')))
            reg table in_file)
          (is_mode-lt m mode))
        (is_mode-lt m' mode')

  compared :
      (compare_banks (cell_in reg m) (cell_in reg m') (same_bank reg m m') ≡ true)
      × (agree (is_none (cell_in reg m)) (faults reg m) ≡ true)
  unfolding table_entry
  compared = ground (arith, entry)

-- In every register and every mode, an access is undefined exactly where `faults` says.
pub access_faults_iff :
    (host : Host) (r : Registers) (reg m v : ℕ)
    → reg < 18
    → is_mode m ≡ true
    → ((registers_read host r reg m ≡ none) ↔ (faults reg m ≡ true))
      × ((registers_write host r reg m v ≡ none) ↔ (faults reg m ≡ true))
unfolding registers_read registers_write is_none
access_faults_iff host r reg m v in_file mode = ground (arith, compared reg m m in_file mode mode)

-- A word written to register `reg` in mode `m` is read back under `reg'` in mode `m'` if the two
-- name one physical register in the ARM register file; otherwise that read is as it was before.
-- The byte order of the machine plays no part. Registers r0 to r15, CPSR and SPSR, all modes.
pub registers_read-registers_write :
    (host : Host) (r r' : Registers) (reg reg' m m' v : ℕ)
    → reg < 18
    → reg' < 18
    → is_mode m ≡ true
    → is_mode m' ≡ true
    → faults reg' m' ≡ false
    → v < 2 ^ 32
    → registers_write host r reg m v ≡ some r'
    → registers_read host r' reg' m'
      ≡ (if reg == reg' && same_bank reg m m' then some v else registers_read host r reg' m')
unfolding registers_read registers_write is_none
registers_read-registers_write host r r' reg reg' m m' v h h' mode mode' sound hv written = ground (
  arith,
  compared reg m m' h mode mode',
  compared reg' m' m h' mode' mode,
  to_stored-to_stored host v hv,
)

pub cell_of_sound :
    (reg m : ℕ)
    → reg < 18
    → is_mode m ≡ true
    → faults reg m ≡ false
    → (c : ℕ) × (cell reg (get_read_write_mode m) ≡ some c)
unfolding is_none
cell_of_sound reg m in_file mode sound = ground (arith, compared reg m m in_file mode mode)
