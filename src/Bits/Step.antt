-- ===== src/Bits/Step.antt =====
-- One equation for the lowest digit of `|`, `&` and `^`: their definition by digits, in which more
-- fuel than the first operand makes no difference.
use Prim.Native.Nat.{digits, bitwise, differ, bit_and-bitwise, bit_or-bitwise, bit_xor-bitwise}
use arm_sim.Base.{
  ℕ, zero, suc, ◌+◌, ◌-◌, ◌*◌, ◌/◌, ◌%◌, ◌≤◌, ◌<◌, min, max, bit_and, bit_or, bit_xor,
}
use arm_sim.Base.{◌≡◌, ◌∙◌, ap, refl, arith}

module _ (rest : ℕ → ℕ) (f : ℕ → ℕ → ℕ) where
  one_more : (n x y : ℕ) → x ≤ n → digits rest f (suc n) x y ≡ digits rest f n x y
  one_more zero zero y h = refl
  one_more zero (suc x) y h = absurd (omega arith)
  one_more (suc n) zero y h = refl
  one_more (suc n) (suc x) y h = rw (one_more n (suc x / 2) (y / 2) (omega arith)) refl

  spare : (k n m x y : ℕ) → m ≡ k + n → x ≤ n → digits rest f m x y ≡ digits rest f n x y
  spare zero n m x y e h = ap (λ (t : ℕ). digits rest f t x y) (omega arith)
  spare (suc k) n m x y e h =
      let next : m ≡ suc (k + n) = omega arith in
      ap (λ (t : ℕ). digits rest f t x y) next
      ∙ one_more (k + n) x y (omega arith)
      ∙ spare k n (k + n) x y refl h

  lowest_digit :
      (x y : ℕ)
      → bitwise rest f (suc x) y ≡ f (suc x % 2) (y % 2) + 2 * bitwise rest f (suc x / 2) (y / 2)
  lowest_digit x y =
      let half = suc x / 2 in
      omega (arith, spare (x - half) half x half (y / 2) (omega arith) (omega arith))

pub bit_or_step : (x y : ℕ) → bit_or x y ≡ max (x % 2) (y % 2) + 2 * bit_or (x / 2) (y / 2)
bit_or_step zero y = simp bit_or-bitwise (omega arith)
bit_or_step (suc x) y = simp bit_or-bitwise (lowest_digit (λ t. t) max x y)

pub bit_and_step : (x y : ℕ) → bit_and x y ≡ min (x % 2) (y % 2) + 2 * bit_and (x / 2) (y / 2)
bit_and_step zero y = simp bit_and-bitwise (omega arith)
bit_and_step (suc x) y = simp bit_and-bitwise (lowest_digit (λ t. zero) min x y)

differ_bits : (x y : ℕ) → x < 2 → y < 2 → differ x y ≡ (x + y) % 2
differ_bits zero y p q = omega arith
differ_bits (suc zero) zero p q = refl
differ_bits (suc zero) (suc zero) p q = refl
differ_bits (suc zero) (suc (suc y)) p q = absurd (omega arith)
differ_bits (suc (suc x)) y p q = absurd (omega arith)

pub bit_xor_step : (x y : ℕ) → bit_xor x y ≡ (x + y) % 2 + 2 * bit_xor (x / 2) (y / 2)
bit_xor_step zero y = simp bit_xor-bitwise (omega arith)
bit_xor_step (suc x) y = simp bit_xor-bitwise (
    omega (
      arith,
      lowest_digit (λ t. t) differ x y,
      differ_bits (suc x % 2) (y % 2) (omega arith) (omega arith),
    ))
