-- ===== src/Gdb/Breakpoints/Search.antt =====
-- gdb_protocol.c: `gdb_find_breakpoint` on an ascending table.
use arm_sim.Base.{
  ℕ, zero, suc, ◌+◌, ◌-◌, ◌/◌, ◌≤◌, ◌<◌, ◌≡◌, ◌≢◌, ◌⊎◌, inl, inr, arith, Option, some,
}
use arm_sim.Gdb.Breakpoints.{
  Table, Position, at, absent, max_breakpoints_number, find_loop, gdb_find_breakpoint,
}

-- The slots in use lie in the array, and ascend.
pub record IsTable (t : Table) : Type 0 where
  pub room : t.breakpoints_number ≤ max_breakpoints_number
  pub ascending : (i j : ℕ) → i < j → j < t.breakpoints_number → t.breakpoints i < t.breakpoints j

-- What a finished search says of the slots from `lo` to `hi`.
pub data Locates (b : ℕ → ℕ) (address lo hi : ℕ) : Option Position → Type 0 where
  found : {p : ℕ} → lo ≤ p → p < hi → b p ≡ address → Locates b address lo hi (some (at p))
  missing : ((i : ℕ) → lo ≤ i → i < hi → b i ≢ address) → Locates b address lo hi (some absent)

pub order : (x y : ℕ) → (x < y) ⊎ ((y < x) ⊎ (x ≡ y))
order x y = grind arith

module _ (b : ℕ → ℕ) (address : ℕ) where
  -- A range may be widened by slots that hold other addresses.
  widen :
      (lo hi lo' hi' : ℕ) {r : Option Position}
      → lo' ≤ lo
      → hi ≤ hi'
      → ((i : ℕ) → lo' ≤ i → i < lo → b i ≢ address)
      → ((i : ℕ) → hi ≤ i → i < hi' → b i ≢ address)
      → Locates b address lo hi r
      → Locates b address lo' hi' r
  widen lo hi lo' hi' hl hh below above (found p q e) = found (omega arith) (omega arith) e
  widen lo hi lo' hi' hl hh below above (missing none_of) =
      missing (λ i p q. grind (arith, below i, above i, none_of i))

  module _ (fuel lo hi : ℕ) (fits : hi ≤ max_breakpoints_number) where
    abbrev mid : ℕ
    mid = (lo + hi) / 2

    step_empty : hi ≤ lo → find_loop b address (suc fuel) lo hi ≡ some absent
    unfolding find_loop
    step_empty h = ground arith

    step_left :
        lo < hi
        → address < b mid
        → find_loop b address (suc fuel) lo hi ≡ find_loop b address fuel lo mid
    unfolding find_loop
    step_left h p = ground arith

    step_right :
        lo < hi
        → b mid < address
        → find_loop b address (suc fuel) lo hi ≡ find_loop b address fuel (mid + 1) hi
    unfolding find_loop
    step_right h p = ground arith

    step_hit : lo < hi → b mid ≡ address → find_loop b address (suc fuel) lo hi ≡ some (at mid)
    unfolding find_loop
    step_hit h p = ground arith

  find_loop-Locates :
      (n fuel lo hi : ℕ)
      → ((i j : ℕ) → i < j → j < n → b i < b j)
      → n ≤ max_breakpoints_number
      → hi ≤ n
      → hi - lo < fuel
      → Locates b address lo hi (find_loop b address fuel lo hi)
  find_loop-Locates n zero lo hi up room h enough = absurd (omega arith)
  find_loop-Locates n (suc fuel) lo hi up room h enough = elim (order lo hi) [
    | inr empty ↦
        rw (step_empty fuel lo hi (omega arith) (ground arith)) (missing (λ i p q. omega arith))
    | inl some_slots ↦ elim (order address (b (mid fuel lo hi (omega arith)))) [
      | inl less ↦ rw (step_left fuel lo hi (omega arith) some_slots less) (
          widen lo ((lo + hi) / 2) lo hi (omega arith) (omega arith) (λ i p q. omega arith)
            (λ i p q. grind (arith, up ((lo + hi) / 2) i))
            (find_loop-Locates n fuel lo ((lo + hi) / 2) up room (omega arith) (omega arith)))
      | inr (inl more) ↦ rw (step_right fuel lo hi (omega arith) some_slots more) (
          widen ((lo + hi) / 2 + 1) hi lo hi (omega arith) (omega arith)
            (λ i p q. grind (arith, up i ((lo + hi) / 2))) (λ i p q. omega arith)
            (find_loop-Locates n fuel ((lo + hi) / 2 + 1) hi up room h (omega arith)))
      | inr (inr same) ↦
          rw (step_hit fuel lo hi (omega arith) some_slots (omega arith))
            (found (omega arith) (omega arith) (omega arith))
    ]
  ]

-- On a table of at most 1024 ascending slots the search ends, within the array and on its fuel, with
-- the position of the address if a slot in use holds it, and with -1 only if none does.
pub gdb_find_breakpoint-Locates :
    (t : Table) (address : ℕ)
    → IsTable t
    → Locates t.breakpoints address 0 t.breakpoints_number (gdb_find_breakpoint t address)
unfolding gdb_find_breakpoint
gdb_find_breakpoint-Locates t address w =
    find_loop-Locates t.breakpoints address t.breakpoints_number (suc t.breakpoints_number) 0
      t.breakpoints_number w.ascending w.room (omega arith) (omega arith)
