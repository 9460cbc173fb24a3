-- ===== src/Trace/Flags.antt =====
-- trace.c: what adding a mode or a flag to the trace changes.
use arm_sim.Base.{
  ℕ, ◌+◌, ◌^◌, ◌≤◌, ◌<◌, ◌≡◌, ◌∙◌, refl, arith, bit_and, bit_or, ltb, leb, ◌==◌, ==_iff, all_below,
  all_below_sound, inl, inr, Bool-cases, if◌then◌else◌, ◌&&◌, ◌||◌, not, Bool, true, false, Option,
  none, some,
}
use arm_sim.Bits.{bit_or-lt}
use arm_sim.Trace.{Trace, is_traced, trace_add}

-- The four flags are 2 ^ 5 to 2 ^ 8. Adding one sets that flag and no other.
abbrev apart : ℕ → ℕ → ℕ → Bool
apart i j f =
    if bit_and (bit_or f (2 ^ (5 + i))) (2 ^ (5 + j)) == 0
    then bit_and f (2 ^ (5 + j)) == 0 && not (i == j)
    else not (bit_and f (2 ^ (5 + j)) == 0) || i == j

flags_apart : all_below 4 (λ i. all_below 4 (λ j. all_below 512 (λ f. apart i j f))) ≡ true
unfolding all_below
flags_apart = refl

flag_apart : (i j f : ℕ) → i < 4 → j < 4 → f < 512 → apart i j f ≡ true
flag_apart i j f hi hj hf =
    all_below_sound 512 (λ g. apart i j g) f
      (all_below_sound 4 (λ k. all_below 512 (λ g. apart i k g)) j
        (all_below_sound 4 (λ l. all_below 4 (λ k. all_below 512 (λ g. apart l k g))) i flags_apart
          hi)
        hj)
      hf

-- The trace is on, and has no flags but the four.
pub record IsOn (t : Trace) : Type 0 where
  pub on : t.enabled ≡ true
  pub flags : t.trace_flags < 512

-- What may be added: a mode, or a flag.
pub data Addition : Option ℕ → Type 0 where
  nothing : Addition none
  mode : {m : ℕ} → m < 32 → Addition (some m)
  flag : (i : ℕ) → i < 4 → Addition (some (2 ^ (5 + i)))

-- Whether an addition sets flag `2 ^ (5 + j)`.
abbrev pub sets : ℕ → Option ℕ → Bool
sets j none = false
sets j (some e) = if ltb e 32 then j == 2 else e == 2 ^ (5 + j)

in_range : ℕ → Bool
in_range i = leb 32 (2 ^ (5 + i)) && ltb (2 ^ (5 + i)) 512

flags_in_range : all_below 4 in_range ≡ true
unfolding all_below in_range
flags_in_range = refl

flag_range : (i : ℕ) → i < 4 → (32 ≤ 2 ^ (5 + i)) × (2 ^ (5 + i) < 512)
unfolding in_range
flag_range i h =
    let e = all_below_sound 4 in_range i flags_in_range h in (ground (arith, e), ground (arith, e))

same_flag : ℕ → ℕ → Bool
same_flag i j = if i == j then true else not (2 ^ (5 + i) == 2 ^ (5 + j))

flags_distinct : all_below 4 (λ i. all_below 4 (λ j. same_flag i j)) ≡ true
unfolding all_below same_flag
flags_distinct = refl

pub flags_differ : (i j : ℕ) → i < 4 → j < 4 → (2 ^ (5 + i) == 2 ^ (5 + j)) ≡ (i == j)
unfolding same_flag
flags_differ i j hi hj =
    let e =
      all_below_sound 4 (λ k. same_flag i k) j
        (all_below_sound 4 (λ l. all_below 4 (λ k. same_flag l k)) i flags_distinct hi) hj in
    elim (Bool-cases (i == j)) [
      | inl h ↦ (let same = (==_iff i j).0 h in ground (arith, same))
      | inr h ↦ ground (arith, h, e)
    ]

-- A flag that is added, with any states.
module _ (t : Trace) (w : IsOn t) (states : ℕ → ℕ) (i : ℕ) (h : i < 4) where
  abbrev flagged : Trace
  flagged = record t { trace_flags = bit_or t.trace_flags (2 ^ (5 + i)); states = states }

  flagged-IsOn : IsOn flagged
  flagged-IsOn = record {
    on = w.on;
    flags = bit_or-lt 9 t.trace_flags (2 ^ (5 + i)) w.flags (flag_range i h).1;
  }

  is_traced-flagged :
      (j : ℕ) → j < 4 → is_traced (2 ^ (5 + j)) flagged ≡ (is_traced (2 ^ (5 + j)) t || i == j)
  unfolding is_traced
  is_traced-flagged j hj = ground (arith, w.on, flag_apart i j t.trace_flags h hj w.flags)

-- An addition: the trace stays on, one flag is set, and the state of a mode is asked for.
pub record After (t : Trace) (a : Option ℕ) (t' : Trace) : Type 0 where
  pub still : IsOn t'
  pub traced :
      (j : ℕ) → j < 4 → is_traced (2 ^ (5 + j)) t' ≡ (is_traced (2 ^ (5 + j)) t || sets j a)
  pub shown :
      (m : ℕ)
      → m < 32
      → not (t'.states m == 0)
        ≡ (not (t.states m == 0) || (elim a [ none ↦ false | some e ↦ e == m ]))

pub or_false : (b : Bool) → b ≡ (b || false)
or_false true = refl
or_false false = refl

pub trace_add-After : (a : Option ℕ) (t : Trace) → Addition a → IsOn t → After t a (trace_add a t)
unfolding trace_add
trace_add-After none t nothing w = record {
  still = w;
  traced = λ j h. or_false (is_traced (2 ^ (5 + j)) t);
  shown = λ m h. or_false (not (t.states m == 0));
}
trace_add-After (some m) t (mode h) w =
    let below : ltb m 32 ≡ true = ground (arith, h) in
    let states : ℕ → ℕ = λ i. if m == i then 1 else t.states i in
    rw below (record {
      still = flagged-IsOn t w states 2 (omega arith);
      traced = λ j hj. is_traced-flagged t w states 2 (omega arith) j hj ∙ ground (arith, below);
      shown = λ i hi. ground arith;
    })
trace_add-After (some e) t (flag i h) w =
    let range = flag_range i h in
    let above : ltb (2 ^ (5 + i)) 32 ≡ false = ground (arith, range.0) in
    rw above (record {
      still = flagged-IsOn t w t.states i h;
      traced = λ j hj.
          is_traced-flagged t w t.states i h j hj ∙ ground (arith, above, flags_differ i j h hj);
      shown = λ m hm. ground (arith, range.0, hm);
    })
