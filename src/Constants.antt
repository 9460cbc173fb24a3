-- ===== src/Constants.antt =====
-- arm_constants.c: the names of the modes, the registers and the exceptions, and the search of a
-- mode by its name; send_irq.c: the search of an exception by its name, and the client that sends
-- its number. A name is a list of character codes; a read past a table is undefined in C, and `none`.
pub mod Names
use arm_sim.Base.{
  ℕ, zero, suc, ◌+◌, ltb, ◌==◌, if◌then◌else◌, Bool, true, false, Option, none, some, List, [], ◌∷◌,
}
use arm_sim.Base.Optional.{◌>>=◌}
use arm_sim.Util.{u8}
use arm_sim.Gdb.Text.{codes, same_text}
use arm_sim.BranchOther.{reset, interrupt}

abbrev pub Name : Type 0
Name = List ℕ

-- An entry of a table: a name, or NULL.
abbrev pub unnamed : ℕ → List (Option Name) → List (Option Name)
unnamed zero table = table
unnamed (suc n) table = none ∷ unnamed n table

unfoldable pub arm_mode_names : List (Option Name)
arm_mode_names = unnamed 16 (
    some (codes "USR")
    ∷ some (codes "FIQ")
    ∷ some (codes "IRQ")
    ∷ some (codes "SVC")
    ∷ unnamed 3
        (some (codes "ABT") ∷ unnamed 3 (some (codes "UND") ∷ unnamed 3 (some (codes "SYS") ∷ []))))

unfoldable pub arm_register_names : List (Option Name)
arm_register_names =
    some (codes "R00")
    ∷ some (codes "R01")
    ∷ some (codes "R02")
    ∷ some (codes "R03")
    ∷ some (codes "R04")
    ∷ some (codes "R05")
    ∷ some (codes "R06")
    ∷ some (codes "R07")
    ∷ some (codes "R08")
    ∷ some (codes "R09")
    ∷ some (codes "R10")
    ∷ some (codes "R11")
    ∷ some (codes "R12")
    ∷ some (codes "SP")
    ∷ some (codes "LR")
    ∷ some (codes "PC")
    ∷ some (codes "CPSR")
    ∷ some (codes "SPSR")
    ∷ []

unfoldable pub arm_exception_names : List (Option Name)
arm_exception_names =
    none
    ∷ some (codes "reset")
    ∷ some (codes "data abort")
    ∷ some (codes "fast interrupt")
    ∷ some (codes "interrupt")
    ∷ some (codes "imprecise abort")
    ∷ some (codes "prefetch abort")
    ∷ some (codes "undefined instruction")
    ∷ some (codes "software interrupt")
    ∷ []

-- `table[i]`.
unfoldable pub get_elem? : List (Option Name) → ℕ → Option (Option Name)
get_elem? [] i = none
get_elem? (x ∷ xs) zero = some x
get_elem? (x ∷ xs) (suc i) = get_elem? xs i

unfoldable pub arm_get_exception_name : ℕ → Option (Option Name)
arm_get_exception_name exception =
    if ltb exception 8 then get_elem? arm_exception_names exception else some none

unfoldable pub arm_get_mode_name : ℕ → Option (Option Name)
arm_get_mode_name mode = get_elem? arm_mode_names mode

-- `name_at != NULL && strcmp(name, name_at) == 0`.
abbrev pub is_named : Name → Option Name → Bool
is_named name none = false
is_named name (some n) = same_text name n

-- The loop, over the rest of the table from `i` on; `none` is -1.
unfoldable pub mode_loop : Name → List (Option Name) → ℕ → Option ℕ
mode_loop name [] i = none
mode_loop name (x ∷ xs) i = if is_named name x then some i else mode_loop name xs (i + 1)

unfoldable pub arm_get_mode_number : Name → Option ℕ
arm_get_mode_number name = mode_loop name arm_mode_names 0

unfoldable pub arm_get_register_name : ℕ → Option (Option Name)
arm_get_register_name reg = get_elem? arm_register_names reg

-- The end of a program: an exit code, or the byte that it sends before it returns 0.
pub data Sender : Type 0 where
  exits : ℕ → Sender
  sends : ℕ → Sender

-- The loop of `main` in send_irq.c over the names, on fuel: it ends at the name or at a NULL.
unfoldable pub irq_loop : ℕ → Name → ℕ → Option Sender
irq_loop zero name irq = none
irq_loop (suc fuel) name irq = do
  irq_name ← arm_get_exception_name irq
  elim irq_name [
    | none ↦ some (exits 2)
    | some n ↦ if same_text n name then some (sends irq) else irq_loop fuel name (u8 (irq + 1))
  ]

-- `main` of send_irq.c on its arguments: the program, the host, the port, and the name.
unfoldable pub send_irq : List Name → Option Sender
send_irq [] = some (exits 1)
send_irq (program ∷ []) = some (exits 1)
send_irq (program ∷ host ∷ []) = some (exits 1)
send_irq (program ∷ host ∷ port ∷ []) = some (sends interrupt)
send_irq (program ∷ host ∷ port ∷ name ∷ rest) = irq_loop 256 name reset
