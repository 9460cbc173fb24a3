-- ===== src/Gdb/Breakpoints/Runs.antt =====
-- gdb_protocol.c: sequences of calls on the table of breakpoints.
use arm_sim.Base.{ℕ, ◌≡◌, refl, arith, true, false, Option, some, List, [], ◌∷◌, if◌then◌else◌}
use arm_sim.Base.Optional.{◌>>=◌}
use arm_sim.Gdb.Breakpoints.{
  Table, Position, gdb_add_breakpoint, gdb_remove_breakpoint, is_found, is_breakpoint,
  init_breakpoints,
}
use arm_sim.Gdb.Breakpoints.Search.{IsTable, Locates, found, missing, gdb_find_breakpoint-Locates}
use arm_sim.Gdb.Breakpoints.Refine.{
  Marks, mark, unmark, Represents, Refines, gdb_add_breakpoint-Refines,
  gdb_remove_breakpoint-Refines,
}

-- The three calls. The last is the test of `cont`, the search compared with -1.
pub data Call : Type 0 where
  insert : ℕ → Call
  delete : ℕ → Call
  stops_at : ℕ → Call

unfoldable pub call : Table → Call → Option (ℕ × Table)
call t (insert a) = gdb_add_breakpoint t a
call t (delete a) = gdb_remove_breakpoint t a
call t (stops_at a) = do there ← is_breakpoint t a; some (if there then 1 else 0, t)

unfoldable pub run : Table → List Call → Option (List ℕ)
run t [] = some []
run t (c ∷ cs) = do (answer, t') ← call t c; answers ← run t' cs; some (answer ∷ answers)

unfoldable pub call_set : Marks → Call → ℕ × Marks
call_set s (insert a) = mark s a
call_set s (delete a) = unmark s a
call_set s (stops_at a) = (if s.marked a then 1 else 0, s)

unfoldable pub run_set : Marks → List Call → List ℕ
run_set s [] = []
run_set s (c ∷ cs) = let (answer, s') = call_set s c in answer ∷ run_set s' cs

abbrev pub no_marks : Marks
no_marks = record { size = 0; marked = λ x. false }

module _ (t : Table) (s : Marks) (w : IsTable t) (r : Represents t s) (a : ℕ) where
  is_found-marked :
      {p : Option Position}
      → Locates t.breakpoints a 0 t.breakpoints_number p
      → (do q ← p; some (is_found q)) ≡ some (s.marked a)
  is_found-marked (found l h e) = ground (arith, rw e at (r.sound _ h))
  is_found-marked (missing none_of) = ground (arith, unmarked)
    where
      unmarked : s.marked a ≡ true → ⊥
      unmarked e = let (i, inside, holds) = r.complete a e in none_of i (omega arith) inside holds

  pub is_breakpoint-marked : is_breakpoint t a ≡ some (s.marked a)
  unfolding is_breakpoint
  is_breakpoint-marked = is_found-marked (gdb_find_breakpoint-Locates t a w)

  stop_answer : call t (stops_at a) ≡ some (if s.marked a then 1 else 0, t)
  unfolding call
  stop_answer = rw is_breakpoint-marked refl

  stops_at-Refines : Refines (call t (stops_at a)) (call_set s (stops_at a))
  unfolding call_set
  stops_at-Refines = record { after = t; answers = stop_answer; table = w; represents = r }

-- On an ascending table that stands for a set of addresses, each call runs to its end within the
-- array: it answers as the call on the set does, and leaves an ascending table that stands for the
-- new set. The set takes at most 1024 addresses.
pub call-Refines :
    (t : Table) (s : Marks)
    → IsTable t
    → Represents t s
    → (c : Call) → Refines (call t c) (call_set s c)
unfolding call call_set
call-Refines t s w r (insert a) = gdb_add_breakpoint-Refines t s w r a
call-Refines t s w r (delete a) = gdb_remove_breakpoint-Refines t s w r a
call-Refines t s w r (stops_at a) = stops_at-Refines t s w r a

run_from :
    (t : Table) (s : Marks) (cs : List Call)
    → IsTable t
    → Represents t s
    → run t cs ≡ some (run_set s cs)
unfolding run run_set
run_from t s [] w r = refl
run_from t s (c ∷ cs) w r =
    let step = call-Refines t s w r c in
    rw (step.answers, run_from step.after (call_set s c).1 cs step.table step.represents) refl

-- From the table of a new session, whatever its memory held, every sequence of insertions, removals
-- and tests runs to its end within the array, and its answers are those of a set of at most 1024
-- addresses that starts empty.
pub run-eq-run_set :
    (contents : ℕ → ℕ) (cs : List Call)
    → run (init_breakpoints contents) cs ≡ some (run_set no_marks cs)
run-eq-run_set contents cs =
    run_from (init_breakpoints contents) no_marks cs
      (record { room = omega arith; ascending = λ i j p q. omega arith })
      (record { sized = refl; sound = λ i p. absurd (omega arith); complete = λ x p. cc })
