-- ===== src/Simulator/Options/Traces.antt =====
-- arm_simulator.c, trace.c: what the options have the trace report.
use arm_sim.Base.{
  ℕ, ◌≡◌, ◌∙◌, refl, sym, ap, arith, ◌==◌, if◌then◌else◌, Bool, true, false, Option, none, some,
  List, [], ◌∷◌,
}
use arm_sim.Base.Optional.{◌>>=◌, bind_inv}
use arm_sim.Base.Gives.{Meets, Meets-after, Meets-if, Meets-some, Meets-none}
use arm_sim.Constants.{Name, arm_get_mode_number}
use arm_sim.Trace.{Trace, memory_flag, registers_flag, position_flag, trace_add}
use arm_sim.Debug.{add_debug_to}
use arm_sim.Simulator.Options.{
  Settings, Reading, goes, exits, add_trace, port_of, read_option, read_options,
}

-- The number of the mode whose name is the argument.
abbrev pub mode_number : Option Name → Option ℕ
mode_number none = none
mode_number (some name) = arm_get_mode_number name

-- What an option adds to the trace.
abbrev pub added : ℕ → Option Name → Option ℕ
added opt optarg =
    if opt == b'r'
    then some registers_flag
    else if opt == b'm'
    then some memory_flag
    else if opt == b'p'
    then some position_flag
    else if opt == b's'
    then mode_number optarg
    else none

-- A reading goes on with `a` added to the trace, or exits.
abbrev Leaves : Trace → Option ℕ → Reading → Type 0
Leaves t a (exits code) = Unit
Leaves t a (goes s) = s.trace ≡ trace_add a t

record Adds (t : Trace) (a : Option ℕ) (reading : Reading) : Type 0 where
  pub leaves : Leaves t a reading

adds_nothing :
    (t : Trace) (opt : ℕ) (optarg : Option Name) (s₁ : Settings)
    → added opt optarg ≡ none
    → s₁.trace ≡ t
    → Adds t (added opt optarg) (goes s₁)
unfolding trace_add
adds_nothing t opt optarg s₁ h e = record { leaves = rw h e }

adds :
    (s : Settings) (opt : ℕ) (optarg : Option Name) (a : Option ℕ)
    → added opt optarg ≡ a
    → Adds s.trace (added opt optarg) (add_trace a s)
adds s opt optarg a h = record { leaves = rw h refl }

mode_option :
    (s : Settings) (opt : ℕ) (optarg : Option Name)
    → (opt == b's') ≡ true
    → Meets
        (Adds s.trace (added opt optarg))
        (do name ← optarg; some (add_trace (arm_get_mode_number name) s))
mode_option s opt none h = Meets-none _
mode_option s opt (some name) h = Meets-some _ _ (adds s opt (some name) _ (ground (arith, h)))

module _ (opens : Name → Bool) (opt : ℕ) (optarg : Option Name) (s : Settings) where
  abbrev Q : Reading → Type 0
  Q = Adds s.trace (added opt optarg)

  opened :
      (b : Bool) (name : Name)
      → added opt optarg ≡ none
      → Q (if b then goes (record s { trace_file = some name }) else exits 1)
  opened true name h = adds_nothing s.trace opt optarg _ h refl
  opened false name h = record { leaves = tt }

  read_option-Adds : Meets Q (read_option opens opt optarg s)
  unfolding read_option
  read_option-Adds =
      Meets-if Q (opt == b'g') _ _
        (λ h. Meets-after Q optarg _ (λ text.
          Meets-after Q (port_of text) _
            (λ port. Meets-some Q _ (adds_nothing s.trace opt optarg _ (ground (arith, h)) refl))))
        (λ _.
          Meets-if Q (opt == b'i') _ _
            (λ h. Meets-after Q optarg _ (λ text. Meets-after Q (port_of text) _ (λ port.
              Meets-some Q _ (adds_nothing s.trace opt optarg _ (ground (arith, h)) refl))))
            (λ _.
              Meets-if Q (opt == b'h') _ _ (λ h. Meets-some Q _ (record { leaves = tt }))
                (λ _.
                  Meets-if Q (opt == b't') _ _
                    (λ h.
                      Meets-after Q optarg _
                        (λ name. Meets-some Q _ (opened (opens name) name (ground (arith, h)))))
                    (λ _.
                      Meets-if Q (opt == b'r') _ _
                        (λ h. Meets-some Q _ (adds s opt optarg _ (ground (arith, h))))
                        (λ _.
                          Meets-if Q (opt == b'm') _ _
                            (λ h. Meets-some Q _ (adds s opt optarg _ (ground (arith, h))))
                            (λ _.
                              Meets-if Q (opt == b's') _ _ (λ h. mode_option s opt optarg h)
                                (λ hs.
                                  Meets-if Q (opt == b'p') _ _
                                    (λ h. Meets-some Q _ (adds s opt optarg _ (ground (arith, h))))
                                    (λ hp.
                                      Meets-if Q (opt == b'd') _ _
                                        (λ h. Meets-after Q optarg _ (λ name.
                                          Meets-after Q (add_debug_to name s.files) _ (λ files.
                                            Meets-some Q _ (
                                              adds_nothing s.trace opt optarg _ (ground (arith, h))
                                                refl))))
                                        (λ h. Meets-some Q _ (record { leaves = tt }))))))))))

-- The numbers that the options add, in their order.
abbrev pub added_by : List (ℕ × Option Name) → Trace → Trace
added_by [] t = t
added_by ((opt, optarg) ∷ rest) t = added_by rest (trace_add (added opt optarg) t)

pub read_options-added_by :
    (opens : Name → Bool) (options : List (ℕ × Option Name)) (s s₁ : Settings)
    → read_options opens options s ≡ some (goes s₁)
    → s₁.trace ≡ added_by options s.trace
unfolding read_options
read_options-added_by opens [] s s₁ e =
    ap (λ (o : Option Reading). elim o [ some (goes u) ↦ u.trace | _ ↦ s.trace ]) (sym e)
read_options-added_by opens ((opt, optarg) ∷ rest) s s₁ e =
    let (reading, ran, e₁) = bind_inv (read_option opens opt optarg s) _ e in
    by reading (rw ran at (read_option-Adds opens opt optarg s))
      (λ s₂. read_options-added_by opens rest s₂ s₁) e₁
  where
    by :
        (reading : Reading)
        → Meets (Adds s.trace (added opt optarg)) (some reading)
        → ((s₂ : Settings)
            → read_options opens rest s₂ ≡ some (goes s₁)
            → s₁.trace ≡ added_by rest s₂.trace)
        → (elim reading [ exits code ↦ some (exits code) | goes s₁ ↦ read_options opens rest s₁ ])
          ≡ some (goes s₁)
        → s₁.trace ≡ added_by rest (trace_add (added opt optarg) s.trace)
    by (exits code) m later e = cc
    by (goes s₂) m later e = later s₂ e ∙ ap (added_by rest) m.meets.leaves
