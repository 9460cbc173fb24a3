-- ===== src/Debug/Search.antt =====
-- debug.c: the binary search of a file.
use Prim.Native.Nat.{Ordering}
use Prim.Native.Nat.Ordering.{lt, eq, gt}
use arm_sim.Base.{
  ℕ, zero, suc, ◌+◌, ◌-◌, ◌/◌, ◌≤◌, ◌<◌, ◌≡◌, ◌≢◌, ◌∙◌, refl, ap, arith, ltb, ltb→lt, Bool-cases,
  ◌==◌, ==_iff, inl, inr, Bool, true, false, Option, some,
}
use arm_sim.Base.Optional.{◌>>=◌}
use arm_sim.Constants.{Name}
use arm_sim.Debug.{
  max_files_number, strcmp, file_at, is_last, is_debugged_loop, DebuggedFiles, is_debugged,
}
use arm_sim.Debug.Order.{le, le_refl, strcmp-eq, strcmp-lt, strcmp-gt}

-- The files ascend, and there are no more than the array has room for.
pub record IsFiles (t : DebuggedFiles) : Type 0 where
  pub room : t.nb_debugged_files ≤ max_files_number
  pub ascending :
      (i j : ℕ)
      → i ≤ j
      → j < t.nb_debugged_files
      → le (t.debugged_files i) (t.debugged_files j) ≡ true

-- The answer says whether a file of that name is between the two bounds.
pub data Answers (b : ℕ → Name) (name : Name) (from past : ℕ) : Option Bool → Type 0 where
  held : {i : ℕ} → from ≤ i → i < past → b i ≡ name → Answers b name from past (some true)
  not_held : ((i : ℕ) → from ≤ i → i < past → b i ≢ name) → Answers b name from past (some false)

module _ (b : ℕ → Name) (name : Name) where
  -- An answer for a part of the range, where the rest holds no such file.
  widen :
      (from past from' past' : ℕ) {o : Option Bool}
      → from ≤ from'
      → past' ≤ past
      → ((i : ℕ) → from ≤ i → i < from' → b i ≢ name)
      → ((i : ℕ) → past' ≤ i → i < past → b i ≢ name)
      → Answers b name from' past' o
      → Answers b name from past o
  widen from past from' past' l u before behind (held {i} p q e) =
      held (omega arith) (omega arith) e
  widen from past from' past' l u before behind (not_held h) = not_held (λ i p q.
      elim (Bool-cases (ltb i from')) [
        | inl k ↦ before i p (ltb→lt i from' k)
        | inr k ↦ elim (Bool-cases (ltb i past')) [
          | inl k' ↦ h i (ground (arith, k)) (ltb→lt i past' k')
          | inr k' ↦ behind i (ground (arith, k')) q
        ]
      ])

  -- The files on the far side of one that differs.
  lower : (s t : Name) → strcmp t name ≡ lt → le s t ≡ true → s ≢ name
  lower s t h below same = let clash = rw same at below in let no = strcmp-lt t name h in cc

  upper : (s t : Name) → strcmp t name ≡ gt → le t s ≡ true → s ≢ name
  upper s t h above same = let clash = rw same at above in let no = strcmp-gt t name h in cc

  is_last-Answers :
      (from past : ℕ)
      → past ≤ from + 1
      → past ≤ max_files_number
      → Answers b name from past (is_last b name from past)
  unfolding is_last
  is_last-Answers from past h room = elim (Bool-cases (from + 1 == past)) [
    | inl k ↦
        let one = (==_iff (from + 1) past).0 k in
        let inside : ltb from 64 ≡ true = ground (arith, one, room) in
        rw (k, inside) (by one (strcmp (b from) name) refl)
    | inr k ↦ rw k (not_held (λ i p q. absurd (ground (arith, k, h, p, q))))
  ]
    where
      by :
          from + 1 ≡ past
          → (c : Ordering) → strcmp (b from) name ≡ c
          → Answers b name from past (some (elim c [ eq ↦ true | lt ↦ false | gt ↦ false ]))
      by one eq e = held {i = from} (omega arith) (omega arith) (strcmp-eq (b from) name e)
      by one lt e = not_held (λ i p q same.
          lower (b from) (b from) e (le_refl (b from)) (ap b {x = from} (omega arith) ∙ same))
      by one gt e = not_held (λ i p q same.
          upper (b from) (b from) e (le_refl (b from)) (ap b {x = from} (omega arith) ∙ same))

  is_debugged_loop-Answers :
      (fuel from past : ℕ)
      → past ≤ max_files_number
      → past - from < fuel
      → ((i j : ℕ) → i ≤ j → j < past → le (b i) (b j) ≡ true)
      → Answers b name from past (is_debugged_loop b name fuel from past)
  unfolding is_debugged_loop
  is_debugged_loop-Answers zero from past room f asc = absurd (omega arith)
  is_debugged_loop-Answers (suc fuel) from past room f asc =
      let m = (from + (past - 1)) / 2 in
      round (ltb (from + 1) past) refl
        (λ (more : ltb (from + 1) past ≡ true).
          let h = ltb→lt (from + 1) past more in
          is_debugged_loop-Answers fuel (m + 1) past room (omega arith) asc)
        (λ (more : ltb (from + 1) past ≡ true).
          let h = ltb→lt (from + 1) past more in
          is_debugged_loop-Answers fuel from m (omega arith) (omega arith)
            (λ i j p q. asc i j p (omega arith)))
    where
      by :
          from + 1 < past
          → (c : Ordering) → strcmp (b ((from + (past - 1)) / 2)) name ≡ c
          → Answers b name
              ((from + (past - 1)) / 2 + 1)
              past
              (is_debugged_loop b name fuel ((from + (past - 1)) / 2 + 1) past)
          → Answers b name from
              ((from + (past - 1)) / 2)
              (is_debugged_loop b name fuel from ((from + (past - 1)) / 2))
          → Answers b name from past (elim c [
            | lt ↦ is_debugged_loop b name fuel ((from + (past - 1)) / 2 + 1) past
            | gt ↦ is_debugged_loop b name fuel from ((from + (past - 1)) / 2)
            | eq ↦ some true
          ])
      by more eq e right left =
          let m = (from + (past - 1)) / 2 in
          held {i = m} (omega arith) (omega arith) (strcmp-eq (b m) name e)
      by more lt e right left =
          let m = (from + (past - 1)) / 2 in
          widen from past (m + 1) past (omega arith) (omega arith)
            (λ i p q. lower (b i) (b m) e (asc i m (omega arith) (omega arith)))
            (λ i p q. absurd (omega arith)) right
      by more gt e right left =
          let m = (from + (past - 1)) / 2 in
          widen from past from m (omega arith) (omega arith) (λ i p q. absurd (omega arith))
            (λ i p q. upper (b i) (b m) e (asc m i p q)) left

      round :
          (c : Bool)
          → ltb (from + 1) past ≡ c
          → (c ≡ true
              → Answers b name
                  ((from + (past - 1)) / 2 + 1)
                  past
                  (is_debugged_loop b name fuel ((from + (past - 1)) / 2 + 1) past))
          → (c ≡ true
              → Answers b name from
                  ((from + (past - 1)) / 2)
                  (is_debugged_loop b name fuel from ((from + (past - 1)) / 2)))
          → Answers b name from past (elim c [
            | false ↦ is_last b name from past
            | true ↦ do
              s ← file_at b ((from + (past - 1)) / 2)
              elim (strcmp s name) [
                | lt ↦ is_debugged_loop b name fuel ((from + (past - 1)) / 2 + 1) past
                | gt ↦ is_debugged_loop b name fuel from ((from + (past - 1)) / 2)
                | eq ↦ some true
              ]
          ])
      round false k right left = is_last-Answers from past (ground (arith, k)) room
      round true k right left =
          let m = (from + (past - 1)) / 2 in
          let more = ltb→lt (from + 1) past k in
          let inside : ltb m 64 ≡ true = ground (arith, more, room) in
          rw inside (by more (strcmp (b m) name) refl (right refl) (left refl))

pub is_debugged-Answers :
    (t : DebuggedFiles) (name : Name)
    → IsFiles t
    → Answers t.debugged_files name 0 t.nb_debugged_files (is_debugged name t)
unfolding is_debugged
is_debugged-Answers t name w =
    is_debugged_loop-Answers t.debugged_files name (suc t.nb_debugged_files) 0 t.nb_debugged_files
      w.room (omega arith) w.ascending
