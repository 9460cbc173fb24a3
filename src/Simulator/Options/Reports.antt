-- ===== src/Simulator/Options/Reports.antt =====
-- arm_simulator.c, trace.c: which accesses and which modes the trace reports after the options.
use arm_sim.Base.{
  ℕ, ◌+◌, ◌^◌, ◌<◌, ◌≡◌, ◌∙◌, refl, sym, ap, arith, leb, leb→le, ◌==◌, inl, inr, Bool-cases,
  if◌then◌else◌, ◌&&◌, ◌||◌, not, Bool, true, false, Option, none, some, List, [], ◌∷◌,
}
use arm_sim.Constants.{Name, arm_get_mode_number}
use arm_sim.Constants.Names.{arm_get_mode_number_iff, past_modes}
use arm_sim.Trace.{
  Trace, initial_trace, memory_flag, registers_flag, state_flag, position_flag, is_traced,
  trace_add,
}
use arm_sim.Trace.Flags.{
  IsOn, Addition, nothing, mode, flag, sets, flags_differ, or_false, trace_add-After,
}
use arm_sim.Simulator.Options.{Settings, initial_settings, goes, read_options}
use arm_sim.Simulator.Options.Traces.{mode_number, added, added_by, read_options-added_by}

-- The number of a name, if it is that of a mode.
data ModeNumber : Option ℕ → Type 0 where
  unknown : ModeNumber none
  known : {m : ℕ} → m < 32 → ModeNumber (some m)

mode_number-ModeNumber : (optarg : Option Name) → ModeNumber (mode_number optarg)
mode_number-ModeNumber none = unknown
mode_number-ModeNumber (some name) = by (arm_get_mode_number name) refl
  where
    by : (o : Option ℕ) → arm_get_mode_number name ≡ o → ModeNumber o
    by none e = unknown
    by (some m) e = elim (Bool-cases (leb 32 m)) [
      | inl h ↦
          (let clash = sym (past_modes m (leb→le 32 m h)) ∙ (arm_get_mode_number_iff name m).0 e in
            cc)
      | inr h ↦ known (ground (arith, h))
    ]

ModeNumber-Addition : {a : Option ℕ} → ModeNumber a → Addition a
ModeNumber-Addition unknown = nothing
ModeNumber-Addition (known h) = mode h

-- A mode sets the flag of the states only.
ModeNumber-sets : {a : Option ℕ} (j : ℕ) → ModeNumber a → (j == 2) ≡ false → sets j a ≡ false
ModeNumber-sets j unknown h = refl
ModeNumber-sets j (known l) h = ground (arith, l, h)

if-Addition : (b : Bool) (x y : Option ℕ) → Addition x → Addition y → Addition (if b then x else y)
if-Addition true x y p q = p
if-Addition false x y p q = q

added-Addition : (opt : ℕ) (optarg : Option Name) → Addition (added opt optarg)
added-Addition opt optarg = if-Addition (opt == b'r') _ _ (flag 1 (omega arith)) (
    if-Addition (opt == b'm') _ _ (flag 0 (omega arith)) (
      if-Addition (opt == b'p') _ _ (flag 3 (omega arith)) (
        if-Addition (opt == b's') _ _ (ModeNumber-Addition (mode_number-ModeNumber optarg))
          nothing)))

-- An option that a test accepts.
abbrev pub any_option : (ℕ → Option Name → Bool) → List (ℕ × Option Name) → Bool
any_option test [] = false
any_option test ((opt, optarg) ∷ rest) = test opt optarg || any_option test rest

-- An option with this letter.
abbrev pub asks : ℕ → List (ℕ × Option Name) → Bool
asks letter = any_option (λ opt optarg. opt == letter)

-- An option `-s` with the name of a mode, and with the name of mode `m`.
abbrev names_a_mode : ℕ → Option Name → Bool
names_a_mode opt optarg =
    opt == b's' && (elim (mode_number optarg) [ none ↦ false | some e ↦ true ])

abbrev names_mode : ℕ → ℕ → Option Name → Bool
names_mode m opt optarg =
    opt == b's' && (elim (mode_number optarg) [ none ↦ false | some e ↦ e == m ])

abbrev pub asks_states : List (ℕ × Option Name) → Bool
asks_states = any_option names_a_mode

abbrev pub asks_mode : ℕ → List (ℕ × Option Name) → Bool
asks_mode m = any_option (names_mode m)

-- Who names mode `m` names a mode.
both_asked :
    (m : ℕ) (options : List (ℕ × Option Name))
    → (asks_states options && asks_mode m options) ≡ asks_mode m options
both_asked m [] = refl
both_asked m ((opt, optarg) ∷ rest) = by (opt == b's') (mode_number optarg) (both_asked m rest)
  where
    by :
        (b : Bool) (o : Option ℕ)
        → (asks_states rest && asks_mode m rest) ≡ asks_mode m rest
        → (((b && (elim o [ none ↦ false | some e ↦ true ])) || asks_states rest)
            && ((b && (elim o [ none ↦ false | some e ↦ e == m ])) || asks_mode m rest))
          ≡ ((b && (elim o [ none ↦ false | some e ↦ e == m ])) || asks_mode m rest)
    by false o e = e
    by true none e = e
    by true (some k) e = refl

-- The letter that asks for flag `2 ^ (5 + j)`.
abbrev letter_of : ℕ → ℕ
letter_of j = if j == 0 then b'm' else if j == 1 then b'r' else b'p'

sets-if :
    (j : ℕ) (b : Bool) (x y : Option ℕ)
    → sets j (if b then x else y) ≡ (if b then sets j x else sets j y)
sets-if j true x y = refl
sets-if j false x y = refl

sets-added :
    (j opt : ℕ) (optarg : Option Name)
    → j < 4
    → (j == 2) ≡ false
    → sets j (added opt optarg) ≡ (opt == letter_of j)
sets-added j opt optarg h other =
    let none_set = ModeNumber-sets j (mode_number-ModeNumber optarg) other in
    rw
      (
        sets-if j (opt == b'r') (some registers_flag) _,
        sets-if j (opt == b'm') (some memory_flag) _,
        sets-if j (opt == b'p') (some position_flag) _,
        sets-if j (opt == b's') (mode_number optarg) none,
        none_set,
        flags_differ 0 j (omega arith) h,
        flags_differ 1 j (omega arith) h,
        flags_differ 3 j (omega arith) h,
      )
      (ground (arith, other, h))

shows-added :
    (m opt : ℕ) (optarg : Option Name)
    → m < 32
    → (elim (added opt optarg) [ none ↦ false | some e ↦ e == m ])
      ≡ (opt == b's' && (elim (mode_number optarg) [ none ↦ false | some e ↦ e == m ]))
shows-added m opt optarg h = ground (arith, h)

or_assoc : (a b c d : Bool) → b ≡ c → ((a || b) || d) ≡ (a || (c || d))
or_assoc true b c d e = refl
or_assoc false b c d e = ap (λ x. x || d) e

-- A mode sets the flag of the states.
sets-mode : (a : Option ℕ) → ModeNumber a → sets 2 a ≡ (elim a [ none ↦ false | some e ↦ true ])
sets-mode none unknown = refl
sets-mode (some m) (known l) = ground (arith, l)

sets-states : (opt : ℕ) (optarg : Option Name) → sets 2 (added opt optarg) ≡ names_a_mode opt optarg
sets-states opt optarg =
    rw
      (
        sets-if 2 (opt == b'r') (some registers_flag) _,
        sets-if 2 (opt == b'm') (some memory_flag) _,
        sets-if 2 (opt == b'p') (some position_flag) _,
        sets-if 2 (opt == b's') (mode_number optarg) none,
        sets-mode (mode_number optarg) (mode_number-ModeNumber optarg),
      )
      (ground arith)

module _ (j : ℕ) (h : j < 4) (test : ℕ → Option Name → Bool)
    (each : (opt : ℕ) (optarg : Option Name) → sets j (added opt optarg) ≡ test opt optarg) where
  added_by-traced :
      (options : List (ℕ × Option Name)) (t : Trace)
      → IsOn t
      → is_traced (2 ^ (5 + j)) (added_by options t)
        ≡ (is_traced (2 ^ (5 + j)) t || any_option test options)
  added_by-traced [] t w = or_false (is_traced (2 ^ (5 + j)) t)
  added_by-traced ((opt, optarg) ∷ rest) t w =
      let a = added opt optarg in
      let q = trace_add-After a t (added-Addition opt optarg) w in
      added_by-traced rest (trace_add a t) q.still
      ∙ ap (λ x. x || any_option test rest) (q.traced j h)
      ∙ or_assoc (is_traced (2 ^ (5 + j)) t) (sets j a) (test opt optarg) (any_option test rest)
          (each opt optarg)

added_by-shown :
    (options : List (ℕ × Option Name)) (t : Trace) (m : ℕ)
    → IsOn t
    → m < 32
    → not ((added_by options t).states m == 0) ≡ (not (t.states m == 0) || asks_mode m options)
added_by-shown [] t m w h = or_false (not (t.states m == 0))
added_by-shown ((opt, optarg) ∷ rest) t m w h =
    let a = added opt optarg in
    let q = trace_add-After a t (added-Addition opt optarg) w in
    added_by-shown rest (trace_add a t) m q.still h
    ∙ ap (λ x. x || asks_mode m rest) (q.shown m h)
    ∙ or_assoc (not (t.states m == 0)) _ _ (asks_mode m rest) (shows-added m opt optarg h)

initial_trace-IsOn : IsOn initial_trace
initial_trace-IsOn = record { on = refl; flags = omega arith }

-- After any options with which the program goes on, the trace reports the accesses to memory exactly
-- if `m` is among them, the accesses to registers exactly if `r` is, the positions exactly if `p`
-- is, the states exactly if an `s` gives the name of a mode, and the state of a mode, which also needs
-- the flag of the states, exactly if an `s` gives its name.
pub read_options-reports :
    (opens : Name → Bool) (options : List (ℕ × Option Name)) (s : Settings)
    → read_options opens options initial_settings ≡ some (goes s)
    → (is_traced memory_flag s.trace ≡ asks b'm' options)
      × (is_traced registers_flag s.trace ≡ asks b'r' options)
      × (is_traced position_flag s.trace ≡ asks b'p' options)
      × (is_traced state_flag s.trace ≡ asks_states options)
      × ((m : ℕ)
          → m < 32
          → (is_traced state_flag s.trace && not (s.trace.states m == 0)) ≡ asks_mode m options)
unfolding is_traced
read_options-reports opens options s e =
    let same = read_options-added_by opens options initial_settings s e in
    let flag_at = λ (j : ℕ) (h : j < 4) (other : (j == 2) ≡ false).
      added_by-traced j h (λ opt optarg. opt == letter_of j)
        (λ opt optarg. sets-added j opt optarg h other) options initial_trace initial_trace-IsOn in
    let states : is_traced state_flag s.trace ≡ asks_states options =
      ap (is_traced state_flag) same
      ∙ added_by-traced 2 (omega arith) names_a_mode sets-states options initial_trace
          initial_trace-IsOn in
    (
      ap (is_traced memory_flag) same ∙ flag_at 0 (omega arith) refl,
      ap (is_traced registers_flag) same ∙ flag_at 1 (omega arith) refl,
      ap (is_traced position_flag) same ∙ flag_at 3 (omega arith) refl,
      states,
      λ m h.
          let shown : not (s.trace.states m == 0) ≡ asks_mode m options =
            ap (λ (t : Trace). not (t.states m == 0)) same
            ∙ added_by-shown options initial_trace m initial_trace-IsOn h in
          ap (λ b. b && not (s.trace.states m == 0)) states
          ∙ ap (λ b. asks_states options && b) shown
          ∙ both_asked m options,
    )
