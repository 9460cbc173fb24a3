-- ===== src/Debug/Refine.antt =====
-- debug.c: the table as the set of the files that the options asked for.
use arm_sim.Base.{
  ℕ, suc, ◌+◌, ◌-◌, ◌≤◌, ◌<◌, ◌≡◌, ◌∙◌, refl, sym, ap, arith, ltb, ltb→lt, Bool-cases, ◌==◌, ==_iff,
  inl, inr, ◌||◌, Bool, true, false, Option, none, some, List, [], ◌∷◌,
}
use arm_sim.Base.Optional.{◌>>=◌}
use arm_sim.Constants.{Name}
use arm_sim.Constants.Names.{same_text_refl, same_text_sound}
use arm_sim.Gdb.Text.{same_text}
use arm_sim.Debug.{max_files_number, DebuggedFiles, no_files, add_debug_to, is_debugged}
use arm_sim.Debug.Order.{le, le_refl, le_trans, precedes-le, le-precedes}
use arm_sim.Debug.Search.{IsFiles, Answers, held, not_held, is_debugged-Answers}
use arm_sim.Debug.Insert.{inserted, Inserts, add_debug_to-Inserts}

-- The table ascends, and holds the files that `wanted` tells.
pub record Represents (t : DebuggedFiles) (wanted : Name → Bool) : Type 0 where
  pub files : IsFiles t
  pub sound : (i : ℕ) → i < t.nb_debugged_files → wanted (t.debugged_files i) ≡ true
  pub complete :
      (x : Name) → wanted x ≡ true → (i : ℕ) × (i < t.nb_debugged_files) × (t.debugged_files i ≡ x)

-- The search gives the answer of the set.
is_debugged-wanted :
    (t : DebuggedFiles) (wanted : Name → Bool) (x : Name)
    → Represents t wanted
    → is_debugged x t ≡ some (wanted x)
is_debugged-wanted t wanted x r = by (is_debugged x t) (is_debugged-Answers t x r.files)
  where
    by :
        (o : Option Bool) → Answers t.debugged_files x 0 t.nb_debugged_files o → o ≡ some (wanted x)
    by none a = elim a [ ]
    by (some true) (held {i} l u e) = ap (λ (c : Bool). some c) (sym (r.sound i u) ∙ ap wanted e)
    by (some false) (not_held h) = elim (Bool-cases (wanted x)) [
      | inl k ↦ (let (i, u, e) = r.complete x k in absurd (h i (omega arith) u e))
      | inr k ↦ ap (λ (c : Bool). some c) (sym k)
    ]

module _ (t t' : DebuggedFiles) (name : Name) (w : IsFiles t) (ins : Inserts t name t')
    (room : t.nb_debugged_files < max_files_number) where
  abbrev b : ℕ → Name
  b = t.debugged_files

  abbrev p : ℕ
  p = ins.place

  -- The files before the place are not after the name, and the others not before it.
  below : (k : ℕ) → k < p → le (b k) name ≡ true
  below k h = precedes-le (b k) name (ins.found.before k (omega arith) h)

  above : (k : ℕ) → p ≤ k → k < t.nb_debugged_files → le name (b k) ≡ true
  above k h u =
      le_trans name (b p) (b k) (le-precedes (b p) name (ins.found.halts (omega arith)))
        (w.ascending p k h u)

  -- Where the file at `k` of the new table comes from.
  data Source (k : ℕ) : Name → Type 0 where
    before : k < p → Source k (b k)
    here : k ≡ p → Source k name
    behind : p < k → Source k (b (k - 1))

  sourced : (k : ℕ) → Source k (inserted b name p k)
  sourced k = elim (Bool-cases (k == p)) [
    | inl h ↦ rw h (here ((==_iff k p).0 h))
    | inr h ↦ rw h (elim (Bool-cases (ltb p k)) [
      | inl l ↦ rw l (behind (ltb→lt p k l))
      | inr l ↦ rw l (before (ground (arith, h, l)))
    ])
  ]

  ordered :
      (i j : ℕ) {x y : Name}
      → i ≤ j
      → j ≤ t.nb_debugged_files
      → Source i x
      → Source j y
      → le x y ≡ true
  ordered i j h u (before l) (before m) = w.ascending i j h (omega arith)
  ordered i j h u (before l) (here e) = below i l
  ordered i j h u (before l) (behind m) = w.ascending i (j - 1) (omega arith) (omega arith)
  ordered i j h u (here e) (before m) = absurd (omega arith)
  ordered i j h u (here e) (here e') = le_refl name
  ordered i j h u (here e) (behind m) = above (j - 1) (omega arith) (omega arith)
  ordered i j h u (behind l) (before m) = absurd (omega arith)
  ordered i j h u (behind l) (here e) = absurd (omega arith)
  ordered i j h u (behind l) (behind m) = w.ascending (i - 1) (j - 1) (omega arith) (omega arith)

  inserted-IsFiles : IsFiles t'
  inserted-IsFiles = record {
    room = let l = ins.longer in omega arith;
    ascending = λ i j h u.
        let u' : j ≤ t.nb_debugged_files = let l = ins.longer in omega arith in
        rw (ins.files i (omega arith), ins.files j u') (ordered i j h u' (sourced i) (sourced j));
  }

  module _ (wanted : Name → Bool) (r : Represents t wanted) where
    is_wanted :
        (k : ℕ) {x : Name}
        → k ≤ t.nb_debugged_files
        → Source k x
        → (same_text name x || wanted x) ≡ true
    is_wanted k h (before l) = let e = r.sound k (omega arith) in ground (arith, e)
    is_wanted k h (here e) = let e' = same_text_refl name in ground (arith, e')
    is_wanted k h (behind l) = let e = r.sound (k - 1) (omega arith) in ground (arith, e)

    stands :
        (x : Name)
        → (same_text name x || wanted x) ≡ true
        → (i : ℕ) × (i ≤ t.nb_debugged_files) × (inserted b name p i ≡ x)
    stands x h = elim (Bool-cases (same_text name x)) [
      | inl s ↦
          let at_place : inserted b name p p ≡ name = ground arith in
          (p, ins.found.most, at_place ∙ same_text_sound name x s)
      | inr s ↦
          let (i, u, e) = r.complete x (rw s at h) in
          elim (Bool-cases (ltb i p)) [
            | inl l ↦ (i, omega arith, ground (arith, l, e))
            | inr l ↦ (i + 1, omega arith, ground (arith, l, e))
          ]
    ]

    inserted-Represents : Represents t' (λ x. same_text name x || wanted x)
    inserted-Represents = record {
      files = inserted-IsFiles;
      sound = λ i h.
          let u : i ≤ t.nb_debugged_files = let l = ins.longer in omega arith in
          rw (ins.files i u) (is_wanted i u (sourced i));
      complete = λ x h.
          let (i, u, e) = stands x h in (i, (let l = ins.longer in omega arith), ins.files i u ∙ e);
    }

-- Files one after the other, as the options name them.
unfoldable pub add_all : List Name → DebuggedFiles → Option DebuggedFiles
add_all [] t = some t
add_all (name ∷ rest) t = do t₁ ← add_debug_to name t; add_all rest t₁

abbrev pub number : List Name → ℕ
number [] = 0
number (name ∷ rest) = suc (number rest)

-- Whether `x` is in the list, or wanted before.
abbrev pub named_in : List Name → (Name → Bool) → Name → Bool
named_in [] wanted x = wanted x
named_in (name ∷ rest) wanted x = named_in rest (λ y. same_text name y || wanted y) x

add_all-Represents :
    (names : List Name) (t : DebuggedFiles) (wanted : Name → Bool)
    → Represents t wanted
    → t.nb_debugged_files + number names ≤ max_files_number
    → (t' : DebuggedFiles) × (add_all names t ≡ some t') × Represents t' (named_in names wanted)
unfolding add_all
add_all-Represents [] t wanted r h = (t, refl, r)
add_all-Represents (name ∷ rest) t wanted r h =
    let (t₁, ran, ins) = add_debug_to-Inserts t name (omega arith) in
    let r₁ = inserted-Represents t t₁ name r.files ins (omega arith) wanted r in
    let longer = ins.longer in
    let (t', rest_ran, r') =
      add_all-Represents rest t₁ (λ y. same_text name y || wanted y) r₁ (omega arith) in
    (t', rw ran rest_ran, r')

no_files-Represents : Represents no_files (λ x. false)
no_files-Represents = record {
  files = record { room = omega arith; ascending = λ i j h u. absurd (omega arith) };
  sound = λ i h. absurd (omega arith);
  complete = λ x h. cc;
}

-- Up to 64 files, in any order and with repetitions, are all accepted; and then the messages of a file
-- are printed exactly if it is one of them. The insertions and the search stay in the array.
pub is_debugged-add_all :
    (names : List Name)
    → number names ≤ max_files_number
    → (t : DebuggedFiles) × (add_all names no_files ≡ some t)
      × IsFiles t
      × ((x : Name) → is_debugged x t ≡ some (named_in names (λ y. false) x))
is_debugged-add_all names h =
    let (t, ran, r) =
      add_all-Represents names no_files (λ x. false) no_files-Represents (omega arith) in
    (t, ran, r.files, λ x. is_debugged-wanted t (named_in names (λ y. false)) x r)
