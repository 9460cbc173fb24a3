-- ===== src/Trace/States.antt =====
-- trace.c: which states of the processor can be traced.
use arm_sim.Base.{
  ℕ, zero, suc, ◌+◌, ◌≤◌, ◌<◌, ◌≡◌, ◌∙◌, ap, sym, refl, arith, ◌==◌, ◌&&◌, ◌||◌, not, if◌then◌else◌,
  all_below, all_below_sound, Bool, true, false, Option, none, some, List, [], ◌∷◌, ◌++◌,
}
use arm_sim.Base.Optional.{◌>>=◌}
use arm_sim.Host.{Host}
use arm_sim.Registers.{Registers, usr, fiq, sys, spsr, registers_read, registers_read_spsr}
use arm_sim.Registers.Banks.{is_mode, faults, access_faults_iff}
use arm_sim.Constants.{Name, arm_mode_names, get_elem?, arm_get_mode_name}
use arm_sim.Trace.{
  Line, Trace, state_flag, is_traced, read_all, state_of, mode_state, state_lines, trace_arm_state,
}

abbrev pub is_defined : {A : Type 0} → Option A → Bool
is_defined none = false
is_defined (some a) = true

-- The modes whose state cannot be read: user and system mode have no SPSR, and r13 and r14 of FIQ
-- mode have no cell.
abbrev pub is_unreadable : ℕ → Bool
is_unreadable m = m == usr || m == sys || m == fiq

-- A run of two parts, neither of which needs the other.
is_defined-both :
    {A B C : Type 0} (o : Option A) (q : Option B) (f : A → B → C)
    → is_defined (o >>= λ a. q >>= λ b. some (f a b)) ≡ (is_defined o && is_defined q)
is_defined-both none q f = refl
is_defined-both (some a) none f = refl
is_defined-both (some a) (some b) f = refl

-- `n` registers from `reg` on that all can be read.
no_fault : ℕ → ℕ → ℕ → Bool
no_fault m zero reg = true
no_fault m (suc n) reg = not (faults reg m) && no_fault m n (reg + 1)

module _ (host : Host) (r : Registers) (m : ℕ) (mode : is_mode m ≡ true) where
  is_defined-read :
      (reg : ℕ) → reg < 18 → is_defined (registers_read host r reg m) ≡ not (faults reg m)
  is_defined-read reg h =
      by (registers_read host r reg m) (faults reg m) (access_faults_iff host r reg m 0 h mode).0.0
        (access_faults_iff host r reg m 0 h mode).0.1
    where
      by :
          (o : Option ℕ) (b : Bool)
          → (o ≡ none → b ≡ true)
          → (b ≡ true → o ≡ none)
          → is_defined o ≡ not b
      by none b f g = ap not (sym (f refl))
      by (some v) true f g = ap is_defined (g refl)
      by (some v) false f g = refl

  is_defined-read_all :
      (n reg : ℕ) → reg + n ≤ 16 → is_defined (read_all host r m n reg) ≡ no_fault m n reg
  unfolding read_all no_fault
  is_defined-read_all zero reg h = refl
  is_defined-read_all (suc n) reg h =
      let here = is_defined-read reg (omega arith) in
      let later = is_defined-read_all n (reg + 1) (omega arith) in
      is_defined-both (registers_read host r reg m) (read_all host r m n (reg + 1)) _
      ∙ rw (here, later) refl

  is_defined-state_of :
      (name : Name) → is_defined (state_of host r m name) ≡ (no_fault m 16 0 && not (faults spsr m))
  unfolding state_of registers_read_spsr
  is_defined-state_of name =
      is_defined-both (read_all host r m 16 0) (registers_read host r spsr m) _
      ∙ rw (is_defined-read_all 16 0 (omega arith), is_defined-read spsr (omega arith)) refl

-- The modes with a name are the seven modes; each can be read but the three.
abbrev is_listed : ℕ → Option (Option Name) → Bool
is_listed m none = false
is_listed m (some none) = not (is_unreadable m)
is_listed m (some (some name)) =
    is_mode m
    && (if is_unreadable m
        then not (no_fault m 16 0 && not (faults spsr m))
        else no_fault m 16 0 && not (faults spsr m))

modes_listed : all_below 32 (λ m. is_listed m (arm_get_mode_name m)) ≡ true
unfolding all_below arm_get_mode_name arm_mode_names get_elem? is_mode no_fault faults
modes_listed = refl

-- Whether the body of the loop can print mode `m`.
abbrev prints : (ℕ → ℕ) → ℕ → Bool
prints states m = not (is_unreadable m) || states m == 0

abbrev prints_all : (ℕ → ℕ) → ℕ → ℕ → Bool
prints_all states zero m = true
prints_all states (suc n) m = prints states m && prints_all states n (m + 1)

printed :
    (u z c : Bool) (o : Option Line)
    → is_defined o ≡ c
    → (if u then not c else c) ≡ true
    → is_defined (if z then some [] else (do line ← o; some (line ∷ []))) ≡ (not u || z)
printed true true c o h e = refl
printed false true c o h e = refl
printed true false true o h e = cc
printed true false false none h e = refl
printed true false false (some line) h e = cc
printed false false true none h e = cc
printed false false true (some line) h e = refl
printed false false false o h e = cc

both_true : (a b : Bool) → (a && b) ≡ true → (a ≡ true) × (b ≡ true)
both_true true b e = (refl, e)
both_true false b e = cc

module _ (host : Host) (r : Registers) (states : ℕ → ℕ) where
  is_defined-mode_state :
      (m : ℕ) (entry : Option Name)
      → is_listed m (some entry) ≡ true
      → is_defined (mode_state host r states m entry) ≡ prints states m
  unfolding mode_state
  is_defined-mode_state m none h = rw h refl
  is_defined-mode_state m (some name) h =
      let c = no_fault m 16 0 && not (faults spsr m) in
      let (mode, e) = both_true (is_mode m) (if is_unreadable m then not c else c) h in
      printed (is_unreadable m) (states m == 0) c (state_of host r m name)
        (is_defined-state_of host r m mode name) e

  is_defined-state_lines :
      (n m : ℕ) → m + n ≤ 32 → is_defined (state_lines host r states n m) ≡ prints_all states n m
  unfolding state_lines
  is_defined-state_lines zero m h = refl
  is_defined-state_lines (suc n) m h =
      by (arm_get_mode_name m)
        (all_below_sound 32 (λ i. is_listed i (arm_get_mode_name i)) m modes_listed (omega arith))
        (is_defined-state_lines n (m + 1) (omega arith))
    where
      by :
          (entry : Option (Option Name))
          → is_listed m entry ≡ true
          → is_defined (state_lines host r states n (m + 1)) ≡ prints_all states n (m + 1)
          → is_defined (do
            name ← entry
            line ← mode_state host r states m name
            rest ← state_lines host r states n (m + 1)
            some (rest ++ line))
            ≡ prints_all states (suc n) m
      by none e later = cc
      by (some name) e later =
          is_defined-both (mode_state host r states m name) (state_lines host r states n (m + 1)) _
          ∙ rw (is_defined-mode_state m name e, later) refl

-- A state is printed exactly if the states are not traced, or none of those that are asked for is
-- that of user, system or FIQ mode: in each of these three the trace reads a register that the
-- mode does not have, through NULL or past its cells. The registers hold anything.
pub trace_arm_state-is_defined :
    (host : Host) (r : Registers) (t : Trace)
    → is_defined (trace_arm_state host r t) ≡ (
        not (is_traced state_flag t)
        || (t.states usr == 0 && t.states fiq == 0 && t.states sys == 0))
unfolding trace_arm_state
trace_arm_state-is_defined host r t =
    by (is_traced state_flag t) (state_lines host r t.states 32 0)
      (is_defined-state_lines host r t.states 32 0 (omega arith))
  where
    by :
        (b : Bool) (o : Option (List Line))
        → is_defined o ≡ prints_all t.states 32 0
        → is_defined (
            if not b
            then some t
            else (do printed ← o; some (record t { lines = printed ++ t.lines })))
          ≡ (not b || (t.states usr == 0 && t.states fiq == 0 && t.states sys == 0))
    by false o e = refl
    by true none e = ground (arith, e)
    by true (some lines) e = ground (arith, e)
