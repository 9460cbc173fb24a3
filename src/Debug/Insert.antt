-- ===== src/Debug/Insert.antt =====
-- debug.c: the insertion of a file, on a table with room and on a full one.
use arm_sim.Base.{
  ℕ, zero, suc, ◌+◌, ◌-◌, ◌≤◌, ◌<◌, ◌≡◌, ◌↔◌, ◌∙◌, refl, ap, subst, arith, leb, ltb, Bool-cases,
  ◌==◌, ==_iff, inl, inr, ◌&&◌, if◌then◌else◌, Bool, true, false, Option, none, some,
}
use arm_sim.Constants.{Name}
use arm_sim.Debug.{max_files_number, precedes, place_loop, shift_loop, DebuggedFiles, add_debug_to}

-- The place that the first loop finds, among the files from `i` to `past`.
pub record IsPlace (b : ℕ → Name) (name : Name) (i past r : ℕ) : Type 0 where
  pub least : i ≤ r
  pub most : r ≤ past
  pub before : (k : ℕ) → i ≤ k → k < r → precedes (b k) name ≡ true
  pub halts : r < past → precedes (b r) name ≡ false

place_loop-IsPlace :
    (b : ℕ → Name) (name : Name) (n i : ℕ)
    → i + n ≤ max_files_number
    → IsPlace b name i (i + n) (place_loop b name n i)
unfolding place_loop
place_loop-IsPlace b name zero i h = record {
  least = omega arith;
  most = omega arith;
  before = λ k p q. absurd (omega arith);
  halts = λ p. absurd (omega arith);
}
place_loop-IsPlace b name (suc n) i h =
    let inside : ltb i 64 ≡ true = ground (arith, h) in
    rw inside (
      by (precedes (b i) name) refl (place_loop b name n (i + 1))
        (place_loop-IsPlace b name n (i + 1) (omega arith)))
  where
    by :
        (c : Bool)
        → precedes (b i) name ≡ c
        → (r : ℕ) → IsPlace b name (i + 1) (i + 1 + n) r
        → IsPlace b name i (i + suc n) (if c then r else i)
    by false e r w = record {
      least = omega arith;
      most = omega arith;
      before = λ k p q. absurd (omega arith);
      halts = λ p. e;
    }
    by true e r w = record {
      least = let l = w.least in omega arith;
      most = let m = w.most in omega arith;
      before = λ k p q. elim (Bool-cases (k == i)) [
        | inl s ↦ ap (λ j. precedes (b j) name) ((==_iff k i).0 s) ∙ e
        | inr s ↦ w.before k (ground (arith, s, p)) q
      ];
      halts = λ p. w.halts (omega arith);
    }

-- The array after `n` files moved up from `j` on.
abbrev lifted : (ℕ → Name) → ℕ → ℕ → ℕ → Name
lifted b n j k = if ltb (j - n) k && leb k j then b (k - 1) else b k

shift_loop-lifted :
    (b : ℕ → Name) (n j : ℕ)
    → n ≤ j
    → j < max_files_number
    → (b' : ℕ → Name) × (shift_loop b n j ≡ some b') × ((k : ℕ) → b' k ≡ lifted b n j k)
unfolding shift_loop
shift_loop-lifted b zero j h room = (b, refl, λ k. ground arith)
shift_loop-lifted b (suc n) j h room =
    let from : ltb (j - 1) 64 ≡ true = ground (arith, h, room) in
    let to : ltb j 64 ≡ true = ground (arith, room) in
    let b₁ : ℕ → Name = λ i. if j == i then b (j - 1) else b i in
    let (b', ran, is) = shift_loop-lifted b₁ n (j - 1) (omega arith) (omega arith) in
    (b', rw (from, to) ran, λ k. is k ∙ moved k)
  where
    moved :
        (k : ℕ) → lifted (λ i. if j == i then b (j - 1) else b i) n (j - 1) k ≡ lifted b (suc n) j k
    moved k = elim (Bool-cases (j == k)) [
      | inl s ↦
          subst
            (λ i.
              lifted (λ e. if j == e then b (j - 1) else b e) n (j - 1) i ≡ lifted b (suc n) j i)
            ((==_iff j k).0 s) (ground (arith, h))
      | inr s ↦ ground (arith, s, h)
    ]

-- On a full array the write at its end is undefined.
shift_loop-full : (b : ℕ → Name) (n : ℕ) → shift_loop b (suc n) max_files_number ≡ none
unfolding shift_loop
shift_loop-full b n = refl

-- The array with `name` at `r` and the files from there on one place further.
abbrev pub inserted : (ℕ → Name) → Name → ℕ → ℕ → Name
inserted b name r k = if k == r then name else if ltb r k then b (k - 1) else b k

-- What an insertion on a table with room leaves.
pub record Inserts (t : DebuggedFiles) (name : Name) (t' : DebuggedFiles) : Type 0 where
  pub place : ℕ
  pub found : IsPlace t.debugged_files name 0 t.nb_debugged_files place
  pub longer : t'.nb_debugged_files ≡ t.nb_debugged_files + 1
  pub files :
      (k : ℕ)
      → k ≤ t.nb_debugged_files
      → t'.debugged_files k ≡ inserted t.debugged_files name place k

module _ (t : DebuggedFiles) (name : Name) where
  abbrev b : ℕ → Name
  b = t.debugged_files

  abbrev nb : ℕ
  nb = t.nb_debugged_files

  abbrev spot : ℕ
  spot = place_loop b name nb 0

  at_spot : nb ≤ max_files_number → IsPlace b name 0 nb spot
  at_spot h =
      subst (λ n. IsPlace b name 0 n spot) {x = 0 + nb} (omega arith)
        (place_loop-IsPlace b name nb 0 (omega arith))

  -- Where the files of the new array come from.
  landed :
      (b' : ℕ → Name) (k : ℕ)
      → k ≤ nb
      → b' k ≡ lifted b (nb - spot) nb k
      → spot ≤ nb
      → (if spot == k then name else b' k) ≡ inserted b name spot k
  landed b' k h e most = ground (arith, e, h, most)

  pub add_debug_to-Inserts :
      nb < max_files_number
      → (t' : DebuggedFiles) × (add_debug_to name t ≡ some t') × Inserts t name t'
  unfolding add_debug_to
  add_debug_to-Inserts room =
      let w = at_spot (omega arith) in
      let most = w.most in
      let (b', ran, is) = shift_loop-lifted b (nb - spot) nb (omega arith) room in
      let here : leb 64 spot ≡ false = ground (arith, most, room) in
      let inside : ltb spot 64 ≡ true = ground (arith, most, room) in
      (
        record {
          debugged_files = λ j. if spot == j then name else b' j;
          nb_debugged_files = nb + 1;
        },
        rw (here, ran, inside) refl,
        record { place = spot; found = w; longer = refl; files = λ k h. landed b' k h (is k) most },
      )

-- A table of 64 files.
abbrev pub full_table : (ℕ → Name) → DebuggedFiles
full_table b = record { debugged_files = b; nb_debugged_files = max_files_number }

module _ (b : ℕ → Name) (name : Name) where
  -- The two ways that an insertion into a full table may go.
  data Overflow : Option DebuggedFiles → Type 0 where
    past : (k : ℕ) → k < max_files_number → precedes (b k) name ≡ false → Overflow none
    kept :
        ((k : ℕ) → k < max_files_number → precedes (b k) name ≡ true)
        → Overflow (some (full_table b))

  add_debug_to-Overflow : Overflow (add_debug_to name (full_table b))
  unfolding add_debug_to
  add_debug_to-Overflow =
      let r = place_loop b name 64 0 in
      let w = at_spot (full_table b) name (omega arith) in
      let most = w.most in
      elim (Bool-cases (leb 64 r)) [
        | inl h ↦ rw h (kept (λ k l. w.before k (omega arith) (ground (arith, h, l))))
        | inr h ↦
            let none_there =
              subst (λ n. shift_loop b n max_files_number ≡ none) {x = suc (63 - r)} {y = 64 - r}
                (ground (arith, h)) (shift_loop-full b (63 - r)) in
            rw (h, none_there) (past r (ground (arith, h)) (w.halts (ground (arith, h))))
      ]

  -- On a full table the insertion is undefined exactly if one of the 64 files does not precede the
  -- name: the array has no place for the last file. Otherwise the table stays as it is.
  pub add_debug_to-full :
      ((add_debug_to name (full_table b) ≡ none)
        ↔ ((k : ℕ) × (k < max_files_number) × (precedes (b k) name ≡ false)))
      × ((add_debug_to name (full_table b) ≡ some (full_table b))
          ↔ ((k : ℕ) → k < max_files_number → precedes (b k) name ≡ true))
  add_debug_to-full = by (add_debug_to name (full_table b)) add_debug_to-Overflow
    where
      by :
          (o : Option DebuggedFiles)
          → Overflow o
          → ((o ≡ none) ↔ ((k : ℕ) × (k < max_files_number) × (precedes (b k) name ≡ false)))
            × ((o ≡ some (full_table b))
                ↔ ((k : ℕ) → k < max_files_number → precedes (b k) name ≡ true))
      by none (past k l e) =
          ((λ _. (k, l, e), λ _. refl), (λ h. cc, λ all. (let clash = all k l in cc)))
      by (some t) (kept all) =
          ((λ h. cc, λ (k, l, e). (let clash = all k l in cc)), (λ _. all, λ _. refl))
