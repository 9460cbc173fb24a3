-- ===== src/Debug.antt =====
-- debug.c: the table of the source files whose messages are printed, in the order of strcmp, and the
-- search of a file in it. A name is the list of its characters, without the terminator. A read or a
-- write past the array is undefined in C, and gives `none`; so does a search without fuel.
pub mod Order
pub mod Search
pub mod Insert
pub mod Refine
use Prim.Native.Nat.{compare, Ordering}
use Prim.Native.Nat.Ordering.{lt, eq, gt}
use arm_sim.Base.{
  ℕ, zero, suc, ◌+◌, ◌-◌, ◌/◌, leb, ltb, ◌==◌, if◌then◌else◌, ◌&&◌, Bool, true, false, Option, none,
  some, List, [], ◌∷◌,
}
use arm_sim.Base.Optional.{◌>>=◌}
use arm_sim.Constants.{Name}

abbrev pub max_files_number : ℕ
max_files_number = 64

-- The sign of `strcmp(s, t)`: that of the first characters that differ.
unfoldable pub strcmp : Name → Name → Ordering
strcmp [] [] = eq
strcmp [] (d ∷ ds) = lt
strcmp (c ∷ cs) [] = gt
strcmp (c ∷ cs) (d ∷ ds) = elim (compare c d) [ eq ↦ strcmp cs ds | lt ↦ lt | gt ↦ gt ]

-- `strcmp(s, t) < 0`.
abbrev pub precedes : Name → Name → Bool
precedes s t = elim (strcmp s t) [ lt ↦ true | eq ↦ false | gt ↦ false ]

pub record DebuggedFiles : Type 0 where
  pub debugged_files : ℕ → Name
  pub nb_debugged_files : ℕ

-- The static variables at the start of the program.
abbrev pub no_files : DebuggedFiles
no_files = record { debugged_files = λ i. []; nb_debugged_files = 0 }

-- `debugged_files[i]`.
abbrev pub file_at : (ℕ → Name) → ℕ → Option Name
file_at b i = if ltb i max_files_number then some (b i) else none

-- `debugged_files[i] = name`.
abbrev pub put_file : (ℕ → Name) → ℕ → Name → Option (ℕ → Name)
put_file b i name =
    if ltb i max_files_number then some (λ j. if i == j then name else b j) else none

-- The first loop, with `n` files in use from `i` on: the place of the name.
unfoldable pub place_loop : (ℕ → Name) → Name → ℕ → ℕ → ℕ
place_loop b name zero i = i
place_loop b name (suc n) i =
    let later = place_loop b name n (i + 1) in
    if ltb i max_files_number && precedes (b i) name then later else i

-- The second loop: `n` files from `j` down move up by one.
unfoldable pub shift_loop : (ℕ → Name) → ℕ → ℕ → Option (ℕ → Name)
shift_loop b zero j = some b
shift_loop b (suc n) j = do
  name ← file_at b (j - 1)
  b' ← put_file b j name
  shift_loop b' n (j - 1)

unfoldable pub add_debug_to : Name → DebuggedFiles → Option DebuggedFiles
add_debug_to name t =
    let nb = t.nb_debugged_files in
    let i = place_loop t.debugged_files name nb 0 in
    if leb max_files_number i then some t else (do
      b ← shift_loop t.debugged_files (nb - i) nb
      b' ← put_file b i name
      some (record { debugged_files = b'; nb_debugged_files = nb + 1 }))

-- The last test, where `past` is `to + 1`.
unfoldable pub is_last : (ℕ → Name) → Name → ℕ → ℕ → Option Bool
is_last b name from past =
    if from + 1 == past
    then (do
      s ← file_at b from
      some (elim (strcmp s name) [ eq ↦ true | lt ↦ false | gt ↦ false ]))
    else some false

-- The loop of the search, on fuel; `past` is `to + 1`, so that `to` may be -1.
unfoldable pub is_debugged_loop : (ℕ → Name) → Name → ℕ → ℕ → ℕ → Option Bool
is_debugged_loop b name zero from past = none
is_debugged_loop b name (suc fuel) from past = elim (ltb (from + 1) past) [
  | false ↦ is_last b name from past
  | true ↦ do
    s ← file_at b ((from + (past - 1)) / 2)
    elim (strcmp s name) [
      | lt ↦ is_debugged_loop b name fuel ((from + (past - 1)) / 2 + 1) past
      | gt ↦ is_debugged_loop b name fuel from ((from + (past - 1)) / 2)
      | eq ↦ some true
    ]
]

-- A round for each file in use, and the last test.
unfoldable pub is_debugged : Name → DebuggedFiles → Option Bool
is_debugged name t =
    is_debugged_loop t.debugged_files name (suc t.nb_debugged_files) 0 t.nb_debugged_files

-- What `__debug_raw_binary` prints for its bytes; isprint is a parameter.
unfoldable pub debug_raw_binary : (ℕ → Bool) → List ℕ → List ℕ
debug_raw_binary isprint [] = []
debug_raw_binary isprint (c ∷ cs) = (if isprint c then c else b'.') ∷ debug_raw_binary isprint cs
