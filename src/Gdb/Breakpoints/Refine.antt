-- ===== src/Gdb/Breakpoints/Refine.antt =====
-- gdb_protocol.c: the table of breakpoints against a finite set of addresses of bounded size.
use arm_sim.Base.{
  ℕ, ◌+◌, ◌-◌, ◌≤◌, ◌<◌, ◌≡◌, ◌≢◌, refl, inl, inr, arith, Bool, true, false, not, ◌&&◌, ◌||◌,
  Option, some,
}
use arm_sim.Base.{ltb, ◌==◌, if◌then◌else◌, Bool-cases}
use arm_sim.Gdb.Breakpoints.{
  Table, Position, max_breakpoints_number, gdb_find_breakpoint, gdb_add_breakpoint,
  gdb_remove_breakpoint, add_absent, remove_at,
}
use arm_sim.Gdb.Breakpoints.Search.{IsTable, Locates, found, missing, gdb_find_breakpoint-Locates}
use arm_sim.Gdb.Breakpoints.Loops.{Inserts, insert_loop_lem, Removes, remove_loop_lem}

-- A set of addresses with its size.
pub record Marks : Type 0 where
  pub size : ℕ
  pub marked : ℕ → Bool

unfoldable pub mark : Marks → ℕ → ℕ × Marks
mark s a =
    if ltb s.size max_breakpoints_number
    then (if s.marked a
        then (1, s)
        else (1, record { size = s.size + 1; marked = λ x. x == a || s.marked x }))
    else (0, s)

unfoldable pub unmark : Marks → ℕ → ℕ × Marks
unmark s a =
    if s.marked a
    then (1, record { size = s.size - 1; marked = λ x. not (x == a) && s.marked x })
    else (0, s)

-- The slots in use hold exactly the marked addresses.
pub record Represents (t : Table) (s : Marks) : Type 0 where
  pub sized : t.breakpoints_number ≡ s.size
  pub sound : (i : ℕ) → i < t.breakpoints_number → s.marked (t.breakpoints i) ≡ true
  pub complete :
      (x : ℕ) → s.marked x ≡ true → (i : ℕ) × (i < t.breakpoints_number) × (t.breakpoints i ≡ x)

-- A run answers as the set does, and leaves a table that represents the new set.
pub record Refines (run : Option (ℕ × Table)) (spec : ℕ × Marks) : Type 0 where
  pub after : Table
  pub answers : run ≡ some (spec.0, after)
  pub table : IsTable after
  pub represents : Represents after spec.1

Refines-to :
    (run : Option (ℕ × Table)) (spec : ℕ × Marks) (code : ℕ) (t : Table) (s : Marks)
    → run ≡ some (code, t)
    → spec ≡ (code, s)
    → IsTable t
    → Represents t s
    → Refines run spec
Refines-to run spec code t s runs spec_is w r =
    rw (runs, spec_is) (record { after = t; answers = refl; table = w; represents = r })

module _ (t : Table) (s : Marks) (w : IsTable t) (r : Represents t s) (a : ℕ) where
  not_marked :
      ((i : ℕ) → 0 ≤ i → i < t.breakpoints_number → t.breakpoints i ≢ a) → s.marked a ≡ false
  not_marked none_of = elim (Bool-cases (s.marked a)) [
    | inr e ↦ e
    | inl e ↦
        let (i, inside, holds) = r.complete a e in absurd (none_of i (omega arith) inside holds)
  ]

  abbrev n : ℕ
  n = t.breakpoints_number

  module _ (space : n < max_breakpoints_number)
      (none_of : (i : ℕ) → 0 ≤ i → i < n → t.breakpoints i ≢ a)
      (ins : Inserts t.breakpoints n a) where
    abbrev grown : Table
    grown = record { breakpoints = ins.result; breakpoints_number = n + 1 }

    below_place : (i : ℕ) → i < ins.q → t.breakpoints i < a
    below_place i h =
        ground (arith, ins.before, ins.place, none_of (ins.q - 1), w.ascending i (ins.q - 1))

    grown-ascending : (i j : ℕ) → i < j → j < n + 1 → ins.result i < ins.result j
    grown-ascending i j h q = ground (
      arith,
      ins.slots i,
      ins.slots j,
      ins.place,
      below_place i,
      ins.after (j - 1),
      w.ascending i j,
      w.ascending i (j - 1),
      w.ascending (i - 1) (j - 1),
    )

    grown-IsTable : IsTable grown
    grown-IsTable = record { room = omega arith; ascending = grown-ascending }

    abbrev enlarged : Marks
    enlarged = record { size = s.size + 1; marked = λ x. x == a || s.marked x }

    grown_sound : (i : ℕ) → i < n + 1 → enlarged.marked (ins.result i) ≡ true
    grown_sound i h = ground (arith, ins.slots i, ins.place, r.sound i, r.sound (i - 1))

    grown_complete : (x : ℕ) → enlarged.marked x ≡ true → (i : ℕ) × (i < n + 1) × (ins.result i ≡ x)
    grown_complete x h = elim (Bool-cases (x == a)) [
      | inl new ↦ (ins.q, omega (arith, ins.place), ground (arith, ins.slots ins.q))
      | inr old ↦
          let (i, inside, holds) = r.complete x (ground arith) in
          elim (Bool-cases (ltb i ins.q)) [
            | inl low ↦ (i, omega arith, ground (arith, ins.slots i))
            | inr high ↦ (i + 1, omega arith, ground (arith, ins.slots (i + 1)))
          ]
    ]

    grown-Represents : Represents grown enlarged
    grown-Represents = record {
      sized = omega (arith, r.sized);
      sound = grown_sound;
      complete = grown_complete;
    }

  add_at :
      {p : Option Position}
      → n < max_breakpoints_number
      → Locates t.breakpoints a 0 n p
      → gdb_find_breakpoint t a ≡ p
      → Refines (gdb_add_breakpoint t a) (mark s a)
  unfolding gdb_add_breakpoint add_absent mark
  add_at space (found l h e) searched =
      Refines-to (gdb_add_breakpoint t a) (mark s a) 1 t s (ground (arith, searched))
        (ground (arith, r.sized, r.sound, rw e at (r.sound _ h))) w r
  add_at space (missing none_of) searched =
      let ins = insert_loop_lem n t.breakpoints a space in
      Refines-to (gdb_add_breakpoint t a) (mark s a) 1 (grown space none_of ins)
        (enlarged space none_of ins) (ground (arith, searched, ins.runs))
        (ground (arith, r.sized, not_marked none_of)) (grown-IsTable space none_of ins)
        (grown-Represents space none_of ins)

  -- An insertion answers and changes the set as `mark` does: 1, whether or not the address was
  -- there, and 0 without a change where all 1024 slots are in use. It stays within the array.
  pub gdb_add_breakpoint-Refines : Refines (gdb_add_breakpoint t a) (mark s a)
  unfolding gdb_add_breakpoint mark
  gdb_add_breakpoint-Refines = elim (Bool-cases (ltb n max_breakpoints_number)) [
    | inl space ↦ add_at (ground arith) (gdb_find_breakpoint-Locates t a w) refl
    | inr full ↦
        Refines-to (gdb_add_breakpoint t a) (mark s a) 0 t s (ground arith)
          (ground (arith, r.sized)) w r
  ]

  module _ (p : ℕ) (inside : p < n) (holds : t.breakpoints p ≡ a)
      (rem : Removes t.breakpoints (n - 1 - p) p) where
    abbrev shrunk : Table
    shrunk = record { breakpoints = rem.result; breakpoints_number = n - 1 }

    abbrev reduced : Marks
    reduced = record { size = s.size - 1; marked = λ x. not (x == a) && s.marked x }

    shrunk-ascending : (i j : ℕ) → i < j → j < n - 1 → rem.result i < rem.result j
    shrunk-ascending i j h q = ground (
      arith,
      rem.slots i,
      rem.slots j,
      w.ascending i j,
      w.ascending i (j + 1),
      w.ascending (i + 1) (j + 1),
    )

    shrunk-IsTable : IsTable shrunk
    shrunk-IsTable = record { room = omega (arith, w.room); ascending = shrunk-ascending }

    shrunk_sound : (i : ℕ) → i < n - 1 → reduced.marked (rem.result i) ≡ true
    shrunk_sound i h =
        ground
          (arith, rem.slots i, r.sound i, r.sound (i + 1), w.ascending i p, w.ascending p (i + 1))

    shrunk_complete : (x : ℕ) → reduced.marked x ≡ true → (i : ℕ) × (i < n - 1) × (rem.result i ≡ x)
    shrunk_complete x h =
        let (i, within, is) = r.complete x (ground arith) in
        elim (Bool-cases (ltb i p)) [
          | inl low ↦ (i, ground arith, ground (arith, rem.slots i))
          | inr high ↦ (i - 1, ground arith, ground (arith, rem.slots (i - 1)))
        ]

    shrunk-Represents : Represents shrunk reduced
    shrunk-Represents = record {
      sized = omega (arith, r.sized);
      sound = shrunk_sound;
      complete = shrunk_complete;
    }

  remove_from :
      {p : Option Position}
      → Locates t.breakpoints a 0 n p
      → gdb_find_breakpoint t a ≡ p
      → Refines (gdb_remove_breakpoint t a) (unmark s a)
  unfolding gdb_remove_breakpoint remove_at unmark
  remove_from (found {p} l h e) searched =
      let rem = remove_loop_lem (n - 1 - p) p t.breakpoints (omega (arith, w.room)) in
      Refines-to (gdb_remove_breakpoint t a) (unmark s a) 1 (shrunk p h e rem) (reduced p h e rem)
        (ground (arith, searched, rem.runs)) (ground (arith, rw e at (r.sound _ h)))
        (shrunk-IsTable p h e rem) (shrunk-Represents p h e rem)
  remove_from (missing none_of) searched =
      Refines-to (gdb_remove_breakpoint t a) (unmark s a) 0 t s (ground (arith, searched))
        (ground (arith, not_marked none_of)) w r

  -- A removal answers and changes the set as `unmark` does: 1 and the set without the address if it was
  -- there, and 0 without a change if not. It stays within the array.
  pub gdb_remove_breakpoint-Refines : Refines (gdb_remove_breakpoint t a) (unmark s a)
  gdb_remove_breakpoint-Refines = remove_from (gdb_find_breakpoint-Locates t a w) refl
