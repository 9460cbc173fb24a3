-- ===== src/Bits.antt =====
-- Laws of the bitwise operators at variables: each bit of `|`, `&`, `^` and of the complement,
-- masks as remainders, and disjoint fields as sums.
mod Step
use Prim.Native.Nat.{bit_and-bitwise, bit_or-bitwise}
use Step.{bit_or_step, bit_and_step, bit_xor_step}
use native.Mathlib.Nat.{pow-suc, one-le-pow, pow-le-pow_right, div-div-eq-div-mul}
use native.Mathlib.Nat.{div-add-mod', mul-div-mul_right}
use arm_sim.Base.{ℕ, zero, suc, ◌+◌, ◌-◌, ◌*◌, ◌/◌, ◌%◌, ◌^◌, ◌≤◌, ◌<◌, min, max, ap}
use arm_sim.Base.{◌==◌, if◌then◌else◌}
use arm_sim.Base.{bit_and, bit_or, bit_xor, ◌≡◌, refl, arith, sym, ◌∙◌}

-- Bit `i` of `x`.
abbrev pub bit_at : ℕ → ℕ → ℕ
bit_at x i = x / 2 ^ i % 2

pub bit_at-suc : (x i : ℕ) → bit_at x (suc i) ≡ bit_at (x / 2) i
bit_at-suc x i = omega (arith, div-div-eq-div-mul x 2 (2 ^ i), ap (λ (t : ℕ). x / t) (pow_flip i))
  where
    pow_flip : (i : ℕ) → 2 ^ suc i ≡ 2 * 2 ^ i
    pow_flip i = omega (arith, pow-suc 2 i)

pub bit_at-lt : (x i : ℕ) → bit_at x i < 2
bit_at-lt x i = omega arith

-- An operation that computes each digit from those of its operands.
module _ (op f : ℕ → ℕ → ℕ) (step : (x y : ℕ) → op x y ≡ f (x % 2) (y % 2) + 2 * op (x / 2) (y / 2))
    (digit : (x y : ℕ) → x < 2 → y < 2 → f x y < 2) where
  lowest : (x y : ℕ) → op x y % 2 ≡ f (x % 2) (y % 2)
  lowest x y = omega (arith, step x y, digit (x % 2) (y % 2) (omega arith) (omega arith))

  upper : (x y : ℕ) → op x y / 2 ≡ op (x / 2) (y / 2)
  upper x y = omega (arith, step x y, digit (x % 2) (y % 2) (omega arith) (omega arith))

  digitwise : (i x y : ℕ) → bit_at (op x y) i ≡ f (bit_at x i) (bit_at y i)
  digitwise zero x y =
      ap (λ (t : ℕ). t % 2) (unit (op x y))
      ∙ lowest x y
      ∙ ap (λ (t : ℕ). f (t % 2) (y % 2)) (sym (unit x))
      ∙ ap (λ (t : ℕ). f (x / 2 ^ 0 % 2) (t % 2)) (sym (unit y))
    where
      unit : (x : ℕ) → x / 2 ^ 0 ≡ x
      unit x = omega arith
  digitwise (suc i) x y =
      bit_at-suc (op x y) i
      ∙ ap (λ (t : ℕ). bit_at t i) (upper x y)
      ∙ digitwise i (x / 2) (y / 2)
      ∙ ap (λ (t : ℕ). f t (bit_at (y / 2) i)) (sym (bit_at-suc x i))
      ∙ ap (λ (t : ℕ). f (bit_at x (suc i)) t) (sym (bit_at-suc y i))

pub bit_at-or : (i x y : ℕ) → bit_at (bit_or x y) i ≡ max (bit_at x i) (bit_at y i)
bit_at-or = digitwise bit_or max bit_or_step (λ x y p q. omega arith)

pub bit_at-and : (i x y : ℕ) → bit_at (bit_and x y) i ≡ min (bit_at x i) (bit_at y i)
bit_at-and = digitwise bit_and min bit_and_step (λ x y p q. omega arith)

pub bit_at-xor : (i x y : ℕ) → bit_at (bit_xor x y) i ≡ (bit_at x i + bit_at y i) % 2
bit_at-xor i x y = digitwise bit_xor (λ x y. (x + y) % 2) digits_step (λ x y p q. omega arith) i x y
  where
    digits_step : (x y : ℕ) → bit_xor x y ≡ (x % 2 + y % 2) % 2 + 2 * bit_xor (x / 2) (y / 2)
    digits_step x y = omega (arith, bit_xor_step x y)

pub bit_at-not : (w i x : ℕ) → i < w → x < 2 ^ w → bit_at (2 ^ w - 1 - x) i ≡ 1 - bit_at x i
bit_at-not zero i x p q = absurd (omega arith)
bit_at-not (suc w) zero x p q = omega (arith, pow-suc 2 w)
bit_at-not (suc w) (suc i) x p q =
    rw
      (
        bit_at-suc (2 ^ suc w - 1 - x) i,
        bit_at-suc x i,
        ← bit_at-not w i (x / 2) (omega arith) (omega (arith, pow-suc 2 w)),
        halved,
      )
      refl
  where
    halved : (2 ^ suc w - 1 - x) / 2 ≡ 2 ^ w - 1 - x / 2
    halved = omega (arith, pow-suc 2 w)

-- Induction by halving.
halving : (P : ℕ → Type 0) → P 0 → ((x : ℕ) → P (suc x / 2) → P (suc x)) → (n x : ℕ) → x ≤ n → P x
halving P base step n zero h = base
halving P base step zero (suc x) h = absurd (omega arith)
halving P base step (suc n) (suc x) h = step x (halving P base step n (suc x / 2) (omega arith))

pub bit_or-zero : (x : ℕ) → bit_or x 0 ≡ x
bit_or-zero x =
    halving (λ t. bit_or t 0 ≡ t) refl (λ t e. omega (arith, bit_or_step (suc t) 0)) x x
      (omega arith)

pub bit_and-zero : (x : ℕ) → bit_and x 0 ≡ 0
bit_and-zero x =
    halving (λ t. bit_and t 0 ≡ 0) refl (λ t e. omega (arith, bit_and_step (suc t) 0)) x x
      (omega arith)

pub mul-two_pow-suc : (q k : ℕ) → q * 2 ^ suc k ≡ 2 * (q * 2 ^ k)
mul-two_pow-suc q k = omega (arith, ap (λ (t : ℕ). q * t) (pow-suc 2 k))

-- A field above bit `k` and one below it do not meet: their `|` is their sum.
pub bit_or_disjoint : (k q r : ℕ) → r < 2 ^ k → bit_or (q * 2 ^ k) r ≡ q * 2 ^ k + r
bit_or_disjoint zero q r h = ground (arith, bit_or-zero q)
bit_or_disjoint (suc k) q r h = ground (
  arith,
  bit_or_step (q * 2 ^ suc k) r,
  mul-two_pow-suc q k,
  pow-suc 2 k,
  bit_or_disjoint k q (r / 2) (omega (arith, pow-suc 2 k)),
)

masked : (k q r : ℕ) → r < 2 ^ k → bit_and (q * 2 ^ k + r) (2 ^ k - 1) ≡ r
masked zero q r h = omega (arith, bit_and-zero (q * 2 ^ 0 + r))
masked (suc k) q r h = ground (
  arith,
  bit_and_step (q * 2 ^ suc k + r) (2 ^ suc k - 1),
  mul-two_pow-suc q k,
  pow-suc 2 k,
  masked k q (r / 2) (omega (arith, pow-suc 2 k)),
)

-- A mask of `k` ones takes the remainder by `2 ^ k`.
pub bit_and_mask : (k a : ℕ) → bit_and a (2 ^ k - 1) ≡ a % 2 ^ k
bit_and_mask k a = ground (arith, one-le-pow k 2, masked k (a / 2 ^ k) (a % 2 ^ k))

-- The operators stay within the width of their operands.
pub bit_or-lt : (w a b : ℕ) → a < 2 ^ w → b < 2 ^ w → bit_or a b < 2 ^ w
bit_or-lt zero zero zero p q = omega arith
bit_or-lt zero zero (suc b) p q = absurd (omega arith)
bit_or-lt zero (suc a) b p q = absurd (omega arith)
bit_or-lt (suc w) a b p q = omega (
  arith,
  pow-suc 2 w,
  bit_or_step a b,
  bit_or-lt w (a / 2) (b / 2) (omega (arith, pow-suc 2 w)) (omega (arith, pow-suc 2 w)),
)

pub bit_xor-lt : (w a b : ℕ) → a < 2 ^ w → b < 2 ^ w → bit_xor a b < 2 ^ w
bit_xor-lt zero zero zero p q = omega arith
bit_xor-lt zero zero (suc b) p q = absurd (omega arith)
bit_xor-lt zero (suc a) b p q = absurd (omega arith)
bit_xor-lt (suc w) a b p q = omega (
  arith,
  pow-suc 2 w,
  bit_xor_step a b,
  bit_xor-lt w (a / 2) (b / 2) (omega (arith, pow-suc 2 w)) (omega (arith, pow-suc 2 w)),
)

pub bit_or-ge : (x y : ℕ) → x ≤ bit_or x y
bit_or-ge x y =
    halving (λ t. (y : ℕ) → t ≤ bit_or t y) (λ y. omega arith)
      (λ t above y. omega (arith, bit_or_step (suc t) y, above (y / 2))) x x (omega arith) y

pub bit_and-le : (x y : ℕ) → bit_and x y ≤ x
bit_and-le x y =
    halving (λ t. (y : ℕ) → bit_and t y ≤ t) (λ y. omega (arith, bit_and-bitwise 0 y))
      (λ t below y. omega (arith, bit_and_step (suc t) y, below (y / 2))) x x (omega arith) y

-- A power of two has one bit.
pub bit_at-pow : (i j : ℕ) → bit_at (2 ^ i) j ≡ (if i == j then 1 else 0)
bit_at-pow zero zero = refl
bit_at-pow zero (suc j) = bit_at-suc 1 j ∙ ground arith
bit_at-pow (suc i) zero = ground (arith, pow-suc 2 i)
bit_at-pow (suc i) (suc j) =
    bit_at-suc (2 ^ suc i) j
    ∙ ap (λ (t : ℕ). bit_at t j) (omega (arith, pow-suc 2 i))
    ∙ bit_at-pow i j
    ∙ ground arith

pub pow-lt-word : (i : ℕ) → i < 32 → 2 ^ i < 2 ^ 32
pow-lt-word i h =
    omega (arith, pow-le-pow_right {n = 2} (omega arith) {i = i} {j = 31} (omega arith))

pub pow_split : (k m : ℕ) → 2 ^ (k + m) ≡ 2 ^ k * 2 ^ m
pow_split k zero = ground arith
pow_split k (suc m) = omega (
  arith,
  pow-suc 2 (k + m),
  pow-suc 2 m,
  pow_split k m,
  ap (λ (t : ℕ). 2 ^ t) (add_suc_right k m),
  ap (λ (t : ℕ). 2 ^ k * t) (pow-suc 2 m),
)
  where
    add_suc_right : (k m : ℕ) → k + suc m ≡ suc (k + m)
    add_suc_right k m = omega arith

pub mod_of_fields : (q r c : ℕ) → r < c → (q * c + r) % c ≡ r
mod_of_fields q r c h = grind arith

-- Shifting left within a word drops the bits that do not fit.
pub mul-mod-mul : (x y c : ℕ) → 0 < c → x * c % (y * c) ≡ x % y * c
mul-mod-mul x y c pos = omega (
  arith,
  div-add-mod' (x * c) (y * c),
  ap (λ (t : ℕ). t * c) (div-add-mod' x y),
  ap (λ (t : ℕ). t * (y * c)) (mul-div-mul_right x y pos),
)

pub shifted_word : (x k m : ℕ) → k + m ≡ 32 → x * 2 ^ m % 2 ^ 32 ≡ x % 2 ^ k * 2 ^ m
shifted_word x k m e =
    ap (λ (t : ℕ). x * 2 ^ m % t) (ap (λ (t : ℕ). 2 ^ t) (sym e) ∙ pow_split k m)
    ∙ mul-mod-mul x (2 ^ k) (2 ^ m) (one-le-pow m 2 (omega arith))

-- The same with the low field on the left.
pub bit_or_disjoint_left : (k q r : ℕ) → r < 2 ^ k → bit_or r (q * 2 ^ k) ≡ q * 2 ^ k + r
bit_or_disjoint_left zero zero zero h = refl
bit_or_disjoint_left zero (suc q) zero h = ground (arith, bit_or-bitwise 0 (suc q * 2 ^ 0))
bit_or_disjoint_left zero q (suc r) h = absurd (omega arith)
bit_or_disjoint_left (suc k) q r h = ground (
  arith,
  bit_or_step r (q * 2 ^ suc k),
  mul-two_pow-suc q k,
  pow-suc 2 k,
  bit_or_disjoint_left k q (r / 2) (omega (arith, pow-suc 2 k)),
)

-- A mask of `w` ones from bit `k` on keeps that field in place.
pub bit_and_field : (k w x : ℕ) → bit_and x ((2 ^ w - 1) * 2 ^ k) ≡ x / 2 ^ k % 2 ^ w * 2 ^ k
bit_and_field zero w x = ground (arith, bit_and_mask w x)
bit_and_field (suc k) w x = ground (
  arith,
  bit_and_step x ((2 ^ w - 1) * 2 ^ suc k),
  mul-two_pow-suc (2 ^ w - 1) k,
  mul-two_pow-suc (x / 2 / 2 ^ k % 2 ^ w) k,
  ap (λ (t : ℕ). x / t) (two_pow k),
  div-div-eq-div-mul x 2 (2 ^ k),
  bit_and_field k w (x / 2),
)
  where
    two_pow : (k : ℕ) → 2 ^ suc k ≡ 2 * 2 ^ k
    two_pow k = omega (arith, pow-suc 2 k)

-- Numbers with the same low bits have the same remainder.
pub low_bits_ext : (w a b : ℕ) → ((i : ℕ) → i < w → bit_at a i ≡ bit_at b i) → a % 2 ^ w ≡ b % 2 ^ w
low_bits_ext zero a b h = omega arith
low_bits_ext (suc w) a b h =
    let first : a % 2 ≡ b % 2 = omega (arith, h 0 (omega arith)) in
    let rest : a / 2 % 2 ^ w ≡ b / 2 % 2 ^ w =
      low_bits_ext w (a / 2) (b / 2)
        (λ i p. sym (bit_at-suc a i) ∙ h (suc i) (omega arith) ∙ bit_at-suc b i) in
    ground (arith, mod_halves a w, mod_halves b w)
  where
    mod_halves : (x w : ℕ) → x % 2 ^ suc w ≡ x / 2 % 2 ^ w * 2 + x % 2
    mod_halves x w =
        let fields : x ≡ x / 2 / 2 ^ w * 2 ^ suc w + (x / 2 % 2 ^ w * 2 + x % 2) =
          omega (arith, div-add-mod' (x / 2) (2 ^ w), mul-two_pow-suc (x / 2 / 2 ^ w) w) in
        ap (λ (t : ℕ). t % 2 ^ suc w) fields
        ∙ mod_of_fields (x / 2 / 2 ^ w) (x / 2 % 2 ^ w * 2 + x % 2) (2 ^ suc w)
            (omega (arith, pow-suc 2 w, one-le-pow w 2))

pub bit_and_two_steps :
    (x y : ℕ)
    → bit_and x y
      ≡ bit_and (x / 4) (y / 4) * 4 + min (x / 2 % 2) (y / 2 % 2) * 2 + min (x % 2) (y % 2)
bit_and_two_steps x y = omega (
  arith,
  bit_and_step x y,
  bit_and_step (x / 2) (y / 2),
  ap (λ (t : ℕ). bit_and t (y / 4)) (halved x),
  ap (λ (t : ℕ). bit_and (x / 2 / 2) t) (halved y),
)
  where
    halved : (t : ℕ) → t / 2 / 2 ≡ t / 4
    halved t = omega arith
