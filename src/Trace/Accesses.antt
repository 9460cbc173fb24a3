-- ===== src/Trace/Accesses.antt =====
-- trace.c: which accesses to memory the trace calls sequential.
use arm_sim.Base.{
  ℕ, ◌+◌, ◌%◌, ◌^◌, ◌<◌, ◌≡◌, ◌∙◌, refl, arith, ◌==◌, if◌then◌else◌, true, Option, some, List, [],
  ◌∷◌,
}
use arm_sim.Base.Optional.{◌>>=◌}
use arm_sim.Trace.{
  Location, Line, access_line, Trace, memory_flag, is_traced, trace_print_location, trace_memory,
}

-- An access as arm_core.c reports it.
pub record Access : Type 0 where
  pub cycle : ℕ
  pub type : ℕ
  pub size : ℕ
  pub cause : ℕ
  pub address : ℕ
  pub value : ℕ

abbrev pub IsAccess : Access → Type 0
IsAccess a = (a.type < 2) × (a.cause < 2)

abbrev pub AllAccesses : List Access → Type 0
AllAccesses [] = Unit
AllAccesses (a ∷ rest) = IsAccess a × AllAccesses rest

-- Accesses one after the other.
unfoldable pub trace_accesses : List Access → Trace → Option Trace
trace_accesses [] t = some t
trace_accesses (a ∷ rest) t = do
  t₁ ← trace_memory a.cycle a.type a.size a.cause a.address a.value t
  trace_accesses rest t₁

-- The lines that the accesses make after an access at `last`: an access is sequential where its
-- address is four bytes after the one before it. Last line first.
unfoldable pub lines_after : Option Location → ℕ → List Access → List Line → List Line
lines_after location last [] lines = lines
lines_after location last (a ∷ rest) lines = lines_after location a.address rest (
    access_line location a.cycle (if a.address == (last + 4) % 2 ^ 32 then 1 else 0) a.type a.size
      a.cause a.address a.value
    ∷ lines)

-- The address that the next access is compared with.
abbrev pub last_of : ℕ → List Access → ℕ
last_of last [] = last
last_of last (a ∷ rest) = last_of a.address rest

-- The state after one access.
abbrev traced : Access → Trace → Trace
traced a t = record t {
  last_address = a.address;
  lines =
      access_line (trace_print_location t) a.cycle
        (if a.address == (t.last_address + 4) % 2 ^ 32 then 1 else 0) a.type a.size a.cause
        a.address a.value
      ∷ t.lines;
}

trace_memory-traced :
    (a : Access) (t : Trace)
    → is_traced memory_flag t ≡ true
    → IsAccess a
    → trace_memory a.cycle a.type a.size a.cause a.address a.value t ≡ some (traced a t)
unfolding trace_memory
trace_memory-traced a t h w = ground (arith, h, w.0, w.1)

is_traced-traced :
    (flag : ℕ) (a : Access) (t : Trace) → is_traced flag (traced a t) ≡ is_traced flag t
unfolding is_traced
is_traced-traced flag a t = refl

location-traced :
    (a : Access) (t : Trace) → trace_print_location (traced a t) ≡ trace_print_location t
unfolding trace_print_location is_traced
location-traced a t = refl

-- While accesses to memory are traced, any sequence of them gives one line each: with its numbers, the
-- location on top of the stack, and the mark of a sequential access exactly where its address
-- is four bytes after that of the access before it, or of `last_address` for the first. Nothing
-- else of the state changes but `last_address`.
pub trace_accesses-eq :
    (as' : List Access) (t : Trace)
    → is_traced memory_flag t ≡ true
    → AllAccesses as'
    → trace_accesses as' t
      ≡ some (record t {
        last_address = last_of t.last_address as';
        lines = lines_after (trace_print_location t) t.last_address as' t.lines;
      })
unfolding trace_accesses lines_after
trace_accesses-eq [] t h w = refl
trace_accesses-eq (a ∷ rest) t h w =
    let here = trace_memory-traced a t h w.0 in
    let later = trace_accesses-eq rest (traced a t) (is_traced-traced memory_flag a t ∙ h) w.1 in
    rw here (rw (location-traced a t) at later)
