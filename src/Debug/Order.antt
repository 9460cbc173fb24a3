-- ===== src/Debug/Order.antt =====
-- debug.c: strcmp orders the names.
use Prim.Native.Nat.Ordering.{lt, eq, gt}
use arm_sim.Base.{◌≡◌, refl, arith, ◌==◌, ltb, ◌&&◌, ◌||◌, Bool, true, false, [], ◌∷◌}
use arm_sim.Constants.{Name}
use arm_sim.Debug.{strcmp, precedes}

-- `s` is not after `t`.
unfoldable pub le : Name → Name → Bool
le [] t = true
le (c ∷ cs) [] = false
le (c ∷ cs) (d ∷ ds) = ltb c d || (c == d && le cs ds)

pub le_refl : (s : Name) → le s s ≡ true
unfolding le
le_refl [] = refl
le_refl (c ∷ cs) = ground (arith, le_refl cs)

pub le_trans : (s t u : Name) → le s t ≡ true → le t u ≡ true → le s u ≡ true
unfolding le
le_trans [] t u h k = refl
le_trans (c ∷ cs) [] u h k = cc
le_trans (c ∷ cs) (d ∷ ds) [] h k = cc
le_trans (c ∷ cs) (d ∷ ds) (e ∷ es) h k = ground (arith, h, k, le_trans cs ds es)

-- What each sign of strcmp says.
pub strcmp-eq : (s t : Name) → strcmp s t ≡ eq → s ≡ t
unfolding strcmp
strcmp-eq [] [] h = refl
strcmp-eq [] (d ∷ ds) h = cc
strcmp-eq (c ∷ cs) [] h = cc
strcmp-eq (c ∷ cs) (d ∷ ds) h = ground (arith, h, strcmp-eq cs ds)

pub strcmp-lt : (s t : Name) → strcmp s t ≡ lt → le t s ≡ false
unfolding strcmp le
strcmp-lt [] [] h = cc
strcmp-lt [] (d ∷ ds) h = refl
strcmp-lt (c ∷ cs) [] h = cc
strcmp-lt (c ∷ cs) (d ∷ ds) h = ground (arith, h, strcmp-lt cs ds)

pub strcmp-gt : (s t : Name) → strcmp s t ≡ gt → le s t ≡ false
unfolding strcmp le
strcmp-gt [] [] h = cc
strcmp-gt [] (d ∷ ds) h = cc
strcmp-gt (c ∷ cs) [] h = refl
strcmp-gt (c ∷ cs) (d ∷ ds) h = ground (arith, h, strcmp-gt cs ds)

-- A name that precedes another is not after it; one that does not precede it is not before it.
pub precedes-le : (s t : Name) → precedes s t ≡ true → le s t ≡ true
unfolding strcmp le
precedes-le [] t h = refl
precedes-le (c ∷ cs) [] h = cc
precedes-le (c ∷ cs) (d ∷ ds) h = ground (arith, h, precedes-le cs ds)

pub le-precedes : (s t : Name) → precedes s t ≡ false → le t s ≡ true
unfolding strcmp le
le-precedes [] [] h = refl
le-precedes [] (d ∷ ds) h = cc
le-precedes (c ∷ cs) [] h = refl
le-precedes (c ∷ cs) (d ∷ ds) h = ground (arith, h, le-precedes cs ds)
