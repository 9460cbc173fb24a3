-- ===== src/Gdb/Packets/Stepping.antt =====
-- gdb_protocol.c: what the handlers that change the table or step the processor leave of a session.
use arm_sim.Base.{
  ℕ, zero, suc, ◌<◌, ◌≡◌, arith, ◌==◌, not, Bool, true, false, Option, some, none, List, refl,
}
use arm_sim.Base.Gives.{Meets, Meets-bind, Meets-after, Meets-if, Meets-some, Meets-none}
use arm_sim.Host.{Host}
use arm_sim.Instruction.{arm_step}
use arm_sim.Trace.{trace_arm_state}
use arm_sim.Gdb.Text.{codes, expect, scan_hex}
use arm_sim.Gdb.Breakpoints.{
  Table, Position, is_found, gdb_find_breakpoint, gdb_add_breakpoint, gdb_remove_breakpoint,
}
use arm_sim.Gdb.Breakpoints.Search.{IsTable, Locates, found, missing, gdb_find_breakpoint-Locates}
use arm_sim.Gdb.Breakpoints.Refine.{
  Marks, Represents, gdb_add_breakpoint-Refines, gdb_remove_breakpoint-Refines,
}
use arm_sim.Gdb.Session.{Session, single_step, stops, cont_loop, cont, step}
use arm_sim.Gdb.Handlers.{set_breakpoint, remove_breakpoint}
use arm_sim.Gdb.Packets.Invariant.{IsSession, sends, stops_with}

-- The set of the addresses that the search finds.
abbrev found_in : Option Position → Bool
found_in none = false
found_in (some p) = is_found p

abbrev marks_of : Table → Marks
marks_of t = record {
  size = t.breakpoints_number;
  marked = λ x. found_in (gdb_find_breakpoint t x);
}

Represents-marks_of : (t : Table) → IsTable t → Represents t (marks_of t)
Represents-marks_of t w = record {
  sized = refl;
  sound = λ i h. holds i h (gdb_find_breakpoint-Locates t (t.breakpoints i) w);
  complete = λ x h. where_at x h (gdb_find_breakpoint-Locates t x w);
}
  where
    holds :
        (i : ℕ) {p : Option Position}
        → i < t.breakpoints_number
        → Locates t.breakpoints (t.breakpoints i) 0 t.breakpoints_number p
        → found_in p ≡ true
    holds i h (found l u e) = refl
    holds i h (missing none_of) = absurd (none_of i (omega arith) h refl)

    where_at :
        (x : ℕ) {p : Option Position}
        → found_in p ≡ true
        → Locates t.breakpoints x 0 t.breakpoints_number p
        → (i : ℕ) × (i < t.breakpoints_number) × (t.breakpoints i ≡ x)
    where_at x h (found {p = i} l u e) = (i, u, e)
    where_at x h (missing none_of) = cc

abbrev LeavesTable : ℕ × Table → Type 0
LeavesTable r = IsTable r.1

module _ (t : Table) (w : IsTable t) (a : ℕ) where
  gdb_add_breakpoint-LeavesTable : Meets LeavesTable (gdb_add_breakpoint t a)
  gdb_add_breakpoint-LeavesTable =
      let q = gdb_add_breakpoint-Refines t (marks_of t) w (Represents-marks_of t w) a in
      rw q.answers (Meets-some LeavesTable _ q.table)

  gdb_remove_breakpoint-LeavesTable : Meets LeavesTable (gdb_remove_breakpoint t a)
  gdb_remove_breakpoint-LeavesTable =
      let q = gdb_remove_breakpoint-Refines t (marks_of t) w (Represents-marks_of t w) a in
      rw q.answers (Meets-some LeavesTable _ q.table)

module _ (s : Session) (w : IsTable s.table) (text : List ℕ) where
  pub set_breakpoint-IsSession : Meets IsSession (set_breakpoint s text)
  unfolding set_breakpoint
  set_breakpoint-IsSession = Meets-after IsSession (scan_hex 8 text) _ (λ type.
      Meets-if IsSession (not (type.0 == 0)) _ _ (λ _. sends s (codes "E03") w)
        (λ _. Meets-after IsSession (expect b',' type.1) _ (λ rest.
          Meets-after IsSession (scan_hex 32 rest) _ (λ address.
            Meets-bind IsSession (gdb_add_breakpoint s.table address.0) _
              (gdb_add_breakpoint-LeavesTable s.table w address.0)
              (λ r v. sends (record s { table = r.1 }) _ v)))))

  pub remove_breakpoint-IsSession : Meets IsSession (remove_breakpoint s text)
  unfolding remove_breakpoint
  remove_breakpoint-IsSession = Meets-after IsSession (scan_hex 8 text) _ (λ type.
      Meets-if IsSession (not (type.0 == 0)) _ _ (λ _. sends s (codes "E03") w)
        (λ _. Meets-after IsSession (expect b',' type.1) _ (λ rest.
          Meets-after IsSession (scan_hex 32 rest) _ (λ address.
            Meets-bind IsSession (gdb_remove_breakpoint s.table address.0) _
              (gdb_remove_breakpoint-LeavesTable s.table w address.0)
              (λ r v. sends (record s { table = r.1 }) _ v)))))

abbrev HasTable : Session → Type 0
HasTable s = IsTable s.table

module _ (host : Host) where
  single_step-HasTable : (s : Session) → HasTable s → Meets HasTable (single_step host s)
  unfolding single_step
  single_step-HasTable s w = Meets-after HasTable (arm_step host s.core) _ (λ r.
      Meets-after HasTable (trace_arm_state host r.1.reg s.trace) _ (λ t. Meets-some HasTable _ w))

  cont_loop-HasTable :
      (fuel : ℕ) (s : Session) → HasTable s → Meets HasTable (cont_loop host fuel s)
  unfolding cont_loop
  cont_loop-HasTable zero s w = Meets-none HasTable
  cont_loop-HasTable (suc fuel) s w =
      Meets-bind HasTable (single_step host s) _ (single_step-HasTable s w) (λ s₁ w₁.
        Meets-after HasTable (stops host s₁) _
          (λ stop. ends stop s₁ w₁ (cont_loop host fuel s₁) (cont_loop-HasTable fuel s₁ w₁)))
    where
      ends :
          (stop : Bool) (s₁ : Session)
          → HasTable s₁
          → (rest : Option Session) → Meets HasTable rest
          → Meets HasTable (elim stop [ true ↦ some s₁ | false ↦ rest ])
      ends true s₁ w₁ rest k = Meets-some HasTable s₁ w₁
      ends false s₁ w₁ rest k = k

  pub cont-IsSession :
      (fuel : ℕ) (s : Session) → IsTable s.table → Meets IsSession (cont host fuel s)
  unfolding cont
  cont-IsSession fuel s w =
      Meets-bind IsSession (cont_loop host fuel s) _ (cont_loop-HasTable fuel s w)
        (λ s₁ w₁. stops_with s₁ w₁)

  pub step-IsSession : (s : Session) → IsTable s.table → Meets IsSession (step host s)
  unfolding step
  step-IsSession s w =
      Meets-bind IsSession (single_step host s) _ (single_step-HasTable s w)
        (λ s₁ w₁. stops_with s₁ w₁)
