-- ===== src/Gdb/Breakpoints.antt =====
-- gdb_protocol.c: the table of breakpoints, an array of 1024 addresses of which the first
-- `breakpoints_number` are in use. A read or a write past the array is undefined in C, and `none`;
-- so is a search that has no fuel left.
pub mod Search
pub mod Loops
pub mod Refine
pub mod Runs
use arm_sim.Base.{
  ℕ, zero, suc, ◌+◌, ◌-◌, ◌/◌, ltb, ◌==◌, if◌then◌else◌, Bool, true, false, Option, none, some,
}
use arm_sim.Base.Optional.{◌>>=◌}

abbrev pub max_breakpoints_number : ℕ
max_breakpoints_number = 1024

-- `breakpoints` and `breakpoints_number` of `struct gdb_protocol_data`.
pub record Table : Type 0 where
  pub breakpoints : ℕ → ℕ
  pub breakpoints_number : ℕ

-- The result of a search: a position, or -1.
pub data Position : Type 0 where
  at : ℕ → Position
  absent : Position

-- `breakpoints[i]`.
abbrev pub slot : (ℕ → ℕ) → ℕ → Option ℕ
slot b i = if ltb i max_breakpoints_number then some (b i) else none

-- `breakpoints[i] = v`.
abbrev pub put : (ℕ → ℕ) → ℕ → ℕ → Option (ℕ → ℕ)
put b i v = if ltb i max_breakpoints_number then some (λ j. if i == j then v else b j) else none

-- The three ways to go on from the word in the middle.
pub data Probe : Type 0 where
  left right hit : Probe

abbrev pub probe : ℕ → ℕ → Probe
probe v address = if ltb address v then left else if ltb v address then right else hit

-- The loop of the search, on fuel.
unfoldable pub find_loop : (ℕ → ℕ) → ℕ → ℕ → ℕ → ℕ → Option Position
find_loop b address zero begin end = none
find_loop b address (suc fuel) begin end = elim (ltb begin end) [
  | false ↦ some absent
  | true ↦ do
    v ← slot b ((begin + end) / 2)
    elim (probe v address) [
      | left ↦ find_loop b address fuel begin ((begin + end) / 2)
      | right ↦ find_loop b address fuel ((begin + end) / 2 + 1) end
      | hit ↦ some (at ((begin + end) / 2))
    ]
]

-- One round for each slot in use, and the last test.
unfoldable pub gdb_find_breakpoint : Table → ℕ → Option Position
gdb_find_breakpoint t address =
    find_loop t.breakpoints address (suc t.breakpoints_number) 0 t.breakpoints_number

-- The loop of an insertion: slots move up from `j` until `address` fits.
unfoldable pub insert_loop : (ℕ → ℕ) → ℕ → ℕ → Option (ℕ → ℕ)
insert_loop b address zero = put b 0 address
insert_loop b address (suc j) = do
  v ← slot b j
  elim (ltb address v) [
    | true ↦ do b' ← put b (suc j) v; insert_loop b' address j
    | false ↦ put b (suc j) address
  ]

-- The part after the test for room: 1, with the table.
unfoldable pub add_absent : Table → ℕ → Position → Option (ℕ × Table)
add_absent t address (at p) = some (1, t)
add_absent t address absent = do
  b ← insert_loop t.breakpoints address t.breakpoints_number
  some (1, record { breakpoints = b; breakpoints_number = t.breakpoints_number + 1 })

unfoldable pub gdb_add_breakpoint : Table → ℕ → Option (ℕ × Table)
gdb_add_breakpoint t address =
    if ltb t.breakpoints_number max_breakpoints_number
    then (do p ← gdb_find_breakpoint t address; add_absent t address p)
    else some (0, t)

-- The loop of a removal: `n` slots from `j` on take the word above them.
unfoldable pub remove_loop : (ℕ → ℕ) → ℕ → ℕ → Option (ℕ → ℕ)
remove_loop b zero j = some b
remove_loop b (suc n) j = do v ← slot b (j + 1); b' ← put b j v; remove_loop b' n (j + 1)

unfoldable pub remove_at : Table → Position → Option (ℕ × Table)
remove_at t absent = some (0, t)
remove_at t (at p) = do
  let last = t.breakpoints_number - 1
  b ← remove_loop t.breakpoints (last - p) p
  some (1, record { breakpoints = b; breakpoints_number = last })

unfoldable pub gdb_remove_breakpoint : Table → ℕ → Option (ℕ × Table)
gdb_remove_breakpoint t address = do p ← gdb_find_breakpoint t address; remove_at t p

abbrev pub is_found : Position → Bool
is_found (at p) = true
is_found absent = false

-- `gdb_find_breakpoint(gdb, address) != -1`.
unfoldable pub is_breakpoint : Table → ℕ → Option Bool
is_breakpoint t address = do p ← gdb_find_breakpoint t address; some (is_found p)

-- `gdb_init_data` sets `breakpoints_number` to 0 and leaves the array as malloc gave it.
abbrev pub init_breakpoints : (ℕ → ℕ) → Table
init_breakpoints contents = record { breakpoints = contents; breakpoints_number = 0 }
