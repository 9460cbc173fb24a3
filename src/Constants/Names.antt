-- ===== src/Constants/Names.antt =====
-- arm_constants.c, send_irq.c: names and numbers belong together.
use arm_sim.Base.{
  ℕ, zero, suc, ◌+◌, ◌-◌, ◌≤◌, ◌<◌, ◌≡◌, ◌≢◌, ◌↔◌, ◌⊎◌, inl, inr, ◌∙◌, ap, sym, subst, refl, arith,
  ==_iff, Bool-cases, ltb, ltb→lt, leb, leb→le, all_below, all_below_sound, ◌==◌, if◌then◌else◌,
  Bool, true, false, Option, none, some, List, [], ◌∷◌,
}
use mathlib.Core.Option.{some-injective, get_or}
use arm_sim.Util.{u8}
use arm_sim.Gdb.Text.{same_text}
use arm_sim.Constants.{
  Name, arm_mode_names, arm_exception_names, get_elem?, arm_get_exception_name, arm_get_mode_name,
  is_named, mode_loop, arm_get_mode_number, Sender, exits, sends, irq_loop, send_irq,
}

-- strcmp finds no difference exactly between equal names.
pub same_text_refl : (s : Name) → same_text s s ≡ true
unfolding same_text
same_text_refl [] = refl
same_text_refl (c ∷ cs) = ground (arith, same_text_refl cs)

pub same_text_sound : (s t : Name) → same_text s t ≡ true → s ≡ t
unfolding same_text
same_text_sound [] [] e = refl
same_text_sound [] (d ∷ ds) e = cc
same_text_sound (c ∷ cs) [] e = cc
same_text_sound (c ∷ cs) (d ∷ ds) e = ground (arith, e, same_text_sound cs ds)

-- Where the loop stops, the table has the name.
mode_loop_sound :
    (name : Name) (table : List (Option Name)) (i k : ℕ)
    → mode_loop name table i ≡ some k
    → (j : ℕ) × (k ≡ i + j) × (get_elem? table j ≡ some (some name))
unfolding mode_loop get_elem?
mode_loop_sound name [] i k e = cc
mode_loop_sound name (x ∷ xs) i k e =
    found_or x (Bool-cases (is_named name x)) (mode_loop_sound name xs (i + 1) k) e
  where
    found_or :
        (x : Option Name)
        → (is_named name x ≡ true) ⊎ (is_named name x ≡ false)
        → (mode_loop name xs (i + 1) ≡ some k
            → (j : ℕ) × (k ≡ i + 1 + j) × (get_elem? xs j ≡ some (some name)))
        → (if is_named name x then some i else mode_loop name xs (i + 1)) ≡ some k
        → (j : ℕ) × (k ≡ i + j) × (get_elem? (x ∷ xs) j ≡ some (some name))
    found_or none c rest e = let (j, p, q) = rest e in (suc j, omega arith, q)
    found_or (some n) (inr h) rest e = let (j, p, q) = rest (rw h at e) in (suc j, omega arith, q)
    found_or (some n) (inl h) rest e =
        let at = some-injective _ _ (rw h at e) in
        (0, omega arith, rw (same_text_sound name n h) refl)

-- The number that the search gives for the name of each mode.
abbrev agrees : ℕ → Option (Option Name) → Bool
agrees k none = true
agrees k (some none) = true
agrees k (some (some n)) = elim (arm_get_mode_number n) [ none ↦ false | some i ↦ i == k ]

modes_agree : all_below 32 (λ k. agrees k (arm_get_mode_name k)) ≡ true
unfolding all_below arm_get_mode_name arm_get_mode_number mode_loop arm_mode_names get_elem?
    same_text
modes_agree = refl

pub past_modes : (k : ℕ) → 32 ≤ k → arm_get_mode_name k ≡ none
unfolding arm_get_mode_name arm_mode_names get_elem?
past_modes k h = ground arith

agreed :
    (k : ℕ) (name : Name) (o : Option ℕ)
    → o ≡ arm_get_mode_number name
    → (elim o [ none ↦ false | some i ↦ i == k ]) ≡ true
    → arm_get_mode_number name ≡ some k
agreed k name none h e = cc
agreed k name (some i) h e = sym h ∙ ap (λ (x : ℕ). some x) ((==_iff i k).0 e)

-- The search of a mode by its name gives the number `k`, and not -1, exactly if `k` is the number of
-- a mode with that name: the two functions on modes are inverse to each other.
pub arm_get_mode_number_iff :
    (name : Name) (k : ℕ)
    → (arm_get_mode_number name ≡ some k) ↔ (arm_get_mode_name k ≡ some (some name))
arm_get_mode_number_iff name k = (named, numbered)
  where
    named : arm_get_mode_number name ≡ some k → arm_get_mode_name k ≡ some (some name)
    named e =
        let (j, at, entry) =
          mode_loop_sound name arm_mode_names 0 k (unfold arm_get_mode_number in e) in
        unfold arm_get_mode_name in
        subst (λ i. get_elem? arm_mode_names i ≡ some (some name)) (omega arith) entry

    numbered : arm_get_mode_name k ≡ some (some name) → arm_get_mode_number name ≡ some k
    numbered e = elim (Bool-cases (leb 32 k)) [
      | inl h ↦ (let clash = sym (past_modes k (leb→le 32 k h)) ∙ e in cc)
      | inr h ↦ agreed k name (arm_get_mode_number name) refl (
          rw e at (
            all_below_sound 32 (λ i. agrees i (arm_get_mode_name i)) k modes_agree
              (ground (arith, h))))
    ]

-- The entry that a number reads: none past the seventh.
name_of :
    (irq : ℕ) → (e : Option Name) × (arm_get_exception_name irq ≡ some e) × (8 ≤ irq → e ≡ none)
unfolding arm_get_exception_name get_elem? arm_exception_names
name_of irq = (
  if ltb irq 8 then get_or (get_elem? arm_exception_names irq) none else none,
  ground arith,
  λ h. ground (arith, h),
)

below : {n : Name} (irq : ℕ) → (8 ≤ irq → some n ≡ none) → irq < 8
below irq past = elim (Bool-cases (leb 8 irq)) [
  | inl h ↦ (let clash = past (leb→le 8 irq h) in cc)
  | inr h ↦ ground (arith, h)
]

-- The names that are given are the entries below 8 of the table.
listed :
    {name : Name} (k : ℕ)
    → arm_get_exception_name k ≡ some (some name)
    → (k < 8) × (get_elem? arm_exception_names k ≡ some (some name))
unfolding arm_get_exception_name
listed k e = elim (Bool-cases (ltb k 8)) [
  | inl h ↦ (ltb→lt k 8 h, rw h at e)
  | inr h ↦ (let clash : some none ≡ some (some _) = rw h at e in cc)
]

unlisted :
    {name : Name} (k : ℕ)
    → k < 8
    → get_elem? arm_exception_names k ≡ some (some name)
    → arm_get_exception_name k ≡ some (some name)
unfolding arm_get_exception_name
unlisted k l e = let below_8 : ltb k 8 ≡ true = ground (arith, l) in rw below_8 e

-- The byte that the loop sends for the name of each exception.
abbrev sends_back : ℕ → Option (Option Name) → Bool
sends_back k none = true
sends_back k (some none) = true
sends_back k (some (some n)) = elim (irq_loop 256 n 1) [ some (sends i) ↦ i == k | _ ↦ false ]

exceptions_sent : all_below 8 (λ k. sends_back k (arm_get_exception_name k)) ≡ true
unfolding all_below arm_get_exception_name arm_exception_names get_elem? irq_loop same_text
exceptions_sent = refl

module _ (name : Name) where
  -- The loop ends with the number of the name, or with the exit code 2.
  abbrev Ended : Option Sender → Type 0
  Ended o =
      (o ≡ some (exits 2))
      ⊎ ((k : ℕ) × (o ≡ some (sends k)) × (arm_get_exception_name k ≡ some (some name)))

  irq_loop-Ended : (fuel irq : ℕ) → irq ≤ 8 → 8 - irq < fuel → Ended (irq_loop fuel name irq)
  unfolding irq_loop
  irq_loop-Ended zero irq h room = absurd (omega arith)
  irq_loop-Ended (suc fuel) irq h room =
      let (entry, at, past) = name_of irq in
      let later : irq < 8 → Ended (irq_loop fuel name (u8 (irq + 1))) =
        λ l. irq_loop-Ended fuel (u8 (irq + 1)) (omega arith) (omega arith) in
      rw at (by entry at past later)
    where
      by :
          (entry : Option Name)
          → arm_get_exception_name irq ≡ some entry
          → (8 ≤ irq → entry ≡ none)
          → (irq < 8 → Ended (irq_loop fuel name (u8 (irq + 1))))
          → Ended (elim entry [
            | none ↦ some (exits 2)
            | some n ↦
                if same_text n name then some (sends irq) else irq_loop fuel name (u8 (irq + 1))
          ])
      by none at past later = inl refl
      by (some n) at past later = elim (Bool-cases (same_text n name)) [
        | inl h ↦ rw h (
            inr (
              irq,
              refl,
              subst (λ m. arm_get_exception_name irq ≡ some (some m)) (same_text_sound n name h) at,
            ))
        | inr h ↦ rw h (later (below irq past))
      ]

  sent :
      (k : ℕ) (o : Option Sender)
      → o ≡ irq_loop 256 name 1
      → (elim o [ some (sends i) ↦ i == k | _ ↦ false ]) ≡ true
      → irq_loop 256 name 1 ≡ some (sends k)
  sent k none h e = cc
  sent k (some (exits c)) h e = cc
  sent k (some (sends i)) h e = sym h ∙ ap (λ (x : ℕ). some (sends x)) ((==_iff i k).0 e)

  irq_loop-sends :
      (k : ℕ) → arm_get_exception_name k ≡ some (some name) → irq_loop 256 name 1 ≡ some (sends k)
  irq_loop-sends k at =
      let (entry, same, past) = name_of k in
      let known = some-injective _ _ (sym same ∙ at) in
      sent k (irq_loop 256 name 1) refl (
        rw at at (
          all_below_sound 8 (λ i. sends_back i (arm_get_exception_name i)) k exceptions_sent
            (below k (λ h. sym known ∙ past h))))

  -- For a name on its command line the sender always ends: it sends `k` exactly if `k` is below 8 and the
  -- entry `k` of the table of exceptions is that name, and exits with 2 exactly if no entry below 8
  -- is; the last entry of the table, that of exception 8, is not among them.
  pub send_irq_iff :
      (program host port : Name) (rest : List Name)
      → let o = send_irq (program ∷ host ∷ port ∷ name ∷ rest) in
        ((k : ℕ)
          → (o ≡ some (sends k)) ↔ ((k < 8) × (get_elem? arm_exception_names k ≡ some (some name))))
        × ((o ≡ some (exits 2))
            ↔ ((k : ℕ) → k < 8 → get_elem? arm_exception_names k ≢ some (some name)))
  unfolding send_irq
  send_irq_iff program host port rest = (
    λ k. (λ e. listed k (sound k e ended), λ (l, at). irq_loop-sends k (unlisted k l at)),
    (
      λ e k l at. (let clash = sym e ∙ irq_loop-sends k (unlisted k l at) in cc),
      λ unknown. refused (λ k at. let (l, entry) = listed k at in unknown k l entry) ended,
    ),
  )
    where
      ended : Ended (irq_loop 256 name 1)
      ended = irq_loop-Ended 256 1 (omega arith) (omega arith)

      sound :
          (k : ℕ)
          → irq_loop 256 name 1 ≡ some (sends k)
          → Ended (irq_loop 256 name 1)
          → arm_get_exception_name k ≡ some (some name)
      sound k e (inl h) = cc
      sound k e (inr (i, h, at)) = cc

      refused :
          ((k : ℕ) → arm_get_exception_name k ≢ some (some name))
          → Ended (irq_loop 256 name 1)
          → irq_loop 256 name 1 ≡ some (exits 2)
      refused unknown (inl h) = h
      refused unknown (inr (i, h, at)) = absurd (unknown i at)
