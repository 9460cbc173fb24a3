-- ===== src/Gdb/Text/Words.antt =====
-- gdb_protocol.c: texts of words, eight characters each, and what comes after them.
use mathlib.Core.List.{append_assoc}
use arm_sim.Base.{ℕ, zero, suc, ◌+◌, ◌*◌, ◌<◌, ◌≡◌, ◌∙◌, ap, refl, arith, List, [], ◌∷◌, ◌++◌}
use arm_sim.Gdb.Text.{count, drop, hex_digits, write_uint32}

-- The text of `n` registers from `i` on, with the values of `f`.
abbrev pub words_text : (ℕ → ℕ) → ℕ → ℕ → List ℕ
words_text f zero i = []
words_text f (suc n) i = write_uint32 (f i) ++ words_text f n (i + 1)

pub drop_word : (v : ℕ) (rest : List ℕ) → drop 8 (write_uint32 v ++ rest) ≡ rest
unfolding write_uint32 hex_digits
drop_word v rest = refl

abbrev eight_more : ℕ → ℕ
eight_more m = suc (suc (suc (suc (suc (suc (suc (suc m)))))))

skip_word : (v m : ℕ) (xs : List ℕ) → drop (eight_more m) (write_uint32 v ++ xs) ≡ drop m xs
unfolding write_uint32 hex_digits
skip_word v m xs = refl

pub drop_words :
    (f : ℕ → ℕ) (n i k : ℕ) (rest : List ℕ)
    → drop (8 * n + k) (words_text f n i ++ rest) ≡ drop k rest
drop_words f zero i k rest = ap (λ (m : ℕ). drop m rest) (omega arith)
drop_words f (suc n) i k rest =
    let shift : 8 * suc n + k ≡ eight_more (8 * n + k) = omega arith in
    ap (λ (m : ℕ). drop m (words_text f (suc n) i ++ rest)) shift
    ∙ ap (drop (eight_more (8 * n + k)))
        (append_assoc (write_uint32 (f i)) (words_text f n (i + 1)) rest)
    ∙ skip_word (f i) (8 * n + k) (words_text f n (i + 1) ++ rest)
    ∙ drop_words f n (i + 1) k rest

pub drop-filler : (xs ys : List ℕ) → drop (count xs) (xs ++ ys) ≡ ys
drop-filler [] ys = refl
drop-filler (x ∷ xs) ys = drop-filler xs ys

pub words_text-agree :
    (f g : ℕ → ℕ) (n i : ℕ)
    → ((j : ℕ) → j < i + n → f j ≡ g j)
    → words_text f n i ≡ words_text g n i
words_text-agree f g zero i h = refl
words_text-agree f g (suc n) i h =
    rw (h i (omega arith), words_text-agree f g n (i + 1) (λ j p. h j (omega arith))) refl
