-- ===== src/Instruction/Condition.antt =====
-- arm_instruction.c: the condition field against the ARM manual's table (A3-4).
use arm_sim.Base.{
  ℕ, ◌-◌, ◌%◌, ◌<◌, ◌≡◌, ◌≢◌, ◌↔◌, arith, ◌==◌, if◌then◌else◌, ◌&&◌, ◌||◌, not, Bool, true, false,
  all_below, all_below_sound, refl, Bool-cases, ==_iff, inl, inr, subst, sym,
}
use arm_sim.Util.{get_bit}
use arm_sim.Util.Laws.{get_bit-lt}
use arm_sim.Instruction.{flag_cond, flag_test}

abbrev same : Bool → Bool → Bool
same true b = b
same false b = not b

-- The manual's table: an even code states a condition and the odd code after it the opposite.
abbrev pub even_condition : ℕ → Bool → Bool → Bool → Bool → Bool
even_condition code n z c v =
    if code == 0
    then z
    else if code == 2
    then c
    else if code == 4
    then n
    else if code == 6
    then v
    else if code == 8
    then c && not z
    else if code == 10
    then same n v
    else if code == 12
    then not z && same n v
    else true

abbrev pub manual_condition : ℕ → Bool → Bool → Bool → Bool → Bool
manual_condition code n z c v =
    if code % 2 == 0 then even_condition code n z c v else not (even_condition (code - 1) n z c v)

-- The table read on the flags of a CPSR.
abbrev pub manual_passes : ℕ → ℕ → Bool
manual_passes code cpsr =
    manual_condition code (get_bit cpsr 31 == 1) (get_bit cpsr 30 == 1) (get_bit cpsr 29 == 1)
      (get_bit cpsr 28 == 1)

entry : ℕ → ℕ → ℕ → ℕ → ℕ → Bool
entry code z n c v =
    code == 9
    || same (flag_test code z n c v) (manual_condition code (n == 1) (z == 1) (c == 1) (v == 1))

abbrev row : ℕ → Bool
row code =
    all_below 2 (λ z. all_below 2 (λ n. all_below 2 (λ c. all_below 2 (λ v. entry code z n c v))))

table : all_below 15 row ≡ true
unfolding all_below entry flag_test
table = refl

table_entry :
    (code z n c v : ℕ) → code < 15 → z < 2 → n < 2 → c < 2 → v < 2 → entry code z n c v ≡ true
table_entry code z n c v hcode hz hn hc hv =
    all_below_sound 2 (entry code z n c) v
      (all_below_sound 2 (λ c. all_below 2 (entry code z n c)) c
        (all_below_sound 2 (λ n. all_below 2 (λ c. all_below 2 (entry code z n c))) n
          (all_below_sound 2
            (λ z. all_below 2 (λ n. all_below 2 (λ c. all_below 2 (entry code z n c)))) z
            (all_below_sound 15 row code table hcode) hz)
          hn)
        hc)
      hv

==_false : (a b : ℕ) → a ≢ b → (a == b) ≡ false
==_false a b ne = ground arith

same→eq : (a b : Bool) → same a b ≡ true → a ≡ b
same→eq a b e = ground arith

flag_cond-eq-manual :
    (code cpsr : ℕ) → code < 15 → code ≢ 9 → flag_cond code cpsr ≡ manual_passes code cpsr
unfolding flag_cond entry
flag_cond-eq-manual code cpsr h ne = same→eq (flag_cond code cpsr) (manual_passes code cpsr) (
    ground (
      arith,
      ==_false code 9 ne,
      table_entry code (get_bit cpsr 30) (get_bit cpsr 31) (get_bit cpsr 29) (get_bit cpsr 28) h
          (get_bit-lt cpsr 30) (get_bit-lt cpsr 31) (get_bit-lt cpsr 29) (get_bit-lt cpsr 28),
    ))

-- The condition LS, which must pass where C is clear.
flag_cond-ls : (cpsr : ℕ) → (flag_cond 9 cpsr ≡ manual_passes 9 cpsr) ↔ (get_bit cpsr 29 ≡ 1)
unfolding flag_cond
flag_cond-ls cpsr =
    ground (arith, get_bit-lt cpsr 28, get_bit-lt cpsr 29, get_bit-lt cpsr 30, get_bit-lt cpsr 31)

-- A condition, whose code is below 15, passes exactly on the flags for which the manual's table says
-- so, unless it is LS (9) with C clear: then it is decided the other way than in the manual.
pub flag_cond-iff-manual :
    (code cpsr : ℕ)
    → code < 15
    → (flag_cond code cpsr ≡ manual_passes code cpsr)
      ↔ ((code == 9 && not (get_bit cpsr 29 == 1)) ≡ false)
flag_cond-iff-manual code cpsr h = elim (Bool-cases (code == 9)) [
  | inl e ↦
      subst
        (λ c.
          (flag_cond c cpsr ≡ manual_passes c cpsr)
          ↔ ((c == 9 && not (get_bit cpsr 29 == 1)) ≡ false))
        (sym ((==_iff code 9).0 e))
        (
          λ k. ground (arith, (flag_cond-ls cpsr).0 k),
          λ k. (flag_cond-ls cpsr).1 (ground (arith, k)),
        )
  | inr e ↦ (
    λ _. rw e refl,
    λ _. flag_cond-eq-manual code cpsr h (λ same. let clash = (==_iff code 9).1 same in cc),
  )
]
