-- ===== src/DataProcessing/Barrel.antt =====
-- The shifter operands against one description of the barrel shifter: the operand and the last bit
-- shifted out, for a shift by `n` places.
use native.Mathlib.Nat.{
  mul-div-mul_right, add-mul-div_right, mul_assoc, div-add-mod', mod-lt, zero-add, add_comm,
  div-lt_iff_lt-mul, one-le-pow, pow-suc, div-eq_of_lt, div-div-eq-div-mul,
}
use arm_sim.Base.{ℕ, suc, ◌+◌, ◌-◌, ◌*◌, ◌/◌, ◌%◌, ◌^◌, ◌≤◌, ◌<◌, ◌≡◌, ◌∙◌, sym, ap, arith}
use arm_sim.Base.{◌⊎◌, inl, inr, ◌==◌, if◌then◌else◌}
use arm_sim.Bits.{pow_split, mul-two_pow-suc}
use arm_sim.Host.{Host}
use arm_sim.Util.{get_bit, asr}
use arm_sim.Util.Laws.{get_bit-eq-bit_at, ror-eq, asr-eq, shifted-lt}
use arm_sim.DataProcessing.Shifter.{Shifted, shifted, get_shifter_operand_immediate_shift}

-- LSL, LSR, ASR and ROR by `n` places, 1 or more: the operand is what is left in the word, and the
-- carry the last bit that left it. ASR shifts the word with `n` copies of its sign in front.
abbrev pub sign_extended : ℕ → ℕ → ℕ
sign_extended x n = x + x / 2 ^ 31 * ((2 ^ n - 1) * 2 ^ 32)

abbrev pub rotated : ℕ → ℕ → ℕ
rotated x k = x % 2 ^ k * 2 ^ (32 - k) + x / 2 ^ k

abbrev pub barrel : ℕ → ℕ → ℕ → Shifted
barrel shift_code x n =
    if shift_code == 0
    then shifted (x * 2 ^ n % 2 ^ 32) (x * 2 ^ n / 2 ^ 32 % 2)
    else if shift_code == 1
    then shifted (x / 2 ^ n) (x / 2 ^ (n - 1) % 2)
    else if shift_code == 2
    then shifted (sign_extended x n / 2 ^ n) (sign_extended x n / 2 ^ (n - 1) % 2)
    else shifted (rotated x (n % 32)) (rotated x (n % 32) / 2 ^ 31)

pub pos_pow : (n : ℕ) → 0 < 2 ^ n
pos_pow n = one-le-pow n 2 (omega arith)

word_split : (a b : ℕ) → a + b ≡ 32 → 2 ^ 32 ≡ 2 ^ a * 2 ^ b
word_split a b e = ap (λ (t : ℕ). 2 ^ t) (sym e) ∙ pow_split a b

pub carry_of_shl : (x n : ℕ) → n ≤ 32 → get_bit x (32 - n) ≡ x * 2 ^ n / 2 ^ 32 % 2
carry_of_shl x n h =
    let whole : x * 2 ^ n / 2 ^ 32 ≡ x / 2 ^ (32 - n) =
      ap (λ (t : ℕ). x * 2 ^ n / t) (word_split (32 - n) n (omega arith))
      ∙ mul-div-mul_right x (2 ^ (32 - n)) (pos_pow n) in
    get_bit-eq-bit_at x (32 - n) ∙ ap (λ (t : ℕ). t % 2) (sym whole)

-- A multiple of 2 ^ 32 shifted right by `b` places.
add_high : (x q a b : ℕ) → a + b ≡ 32 → (x + q * 2 ^ 32) / 2 ^ b ≡ x / 2 ^ b + q * 2 ^ a
add_high x q a b e =
    ap (λ (t : ℕ). (x + t) / 2 ^ b)
      (ap (λ (t : ℕ). q * t) (word_split a b e) ∙ sym (mul_assoc q (2 ^ a) (2 ^ b)))
    ∙ add-mul-div_right x (q * 2 ^ a) (pos_pow b)

pub sign_cases : (x : ℕ) → x < 2 ^ 32 → (x / 2 ^ 31 ≡ 0) ⊎ (x / 2 ^ 31 ≡ 1)
sign_cases x h = ground arith

sign_extended_div :
    (x n a b : ℕ)
    → a + b ≡ 32
    → sign_extended x n / 2 ^ b ≡ x / 2 ^ b + x / 2 ^ 31 * (2 ^ n - 1) * 2 ^ a
sign_extended_div x n a b e =
    ap (λ (t : ℕ). (x + t) / 2 ^ b) (sym (mul_assoc (x / 2 ^ 31) (2 ^ n - 1) (2 ^ 32)))
    ∙ add_high x (x / 2 ^ 31 * (2 ^ n - 1)) a b e

pub asr_operand :
    (host : Host) (x n : ℕ) → x < 2 ^ 32 → 1 ≤ n → n < 32 → asr host x n ≡ sign_extended x n / 2 ^ n
asr_operand host x n hx h1 h2 = elim (sign_cases x hx) [
  | inl zero_sign ↦ ground (
    arith,
    asr-eq host x n hx h1 h2,
    sign_extended_div x n (32 - n) n (omega arith),
    get_bit-eq-bit_at x 31,
  )
  | inr one_sign ↦ ground (
    arith,
    asr-eq host x n hx h1 h2,
    sign_extended_div x n (32 - n) n (omega arith),
    get_bit-eq-bit_at x 31,
  )
]

pub asr_carry :
    (x n : ℕ) → 1 ≤ n → n < 32 → x / 2 ^ (n - 1) % 2 ≡ sign_extended x n / 2 ^ (n - 1) % 2
asr_carry x n h1 h2 = ground (
  arith,
  sign_extended_div x n (suc (32 - n)) (n - 1) (omega arith),
  ap (λ (t : ℕ). x / 2 ^ 31 * (2 ^ n - 1) * t) (pow-suc 2 (32 - n)),
)

mod_div : (x j : ℕ) → x % 2 ^ suc j / 2 ^ j ≡ x / 2 ^ j % 2
mod_div x j =
    let top : x / 2 ^ j ≡ x % 2 ^ suc j / 2 ^ j + x / 2 ^ suc j * 2 =
      ap (λ (t : ℕ). t / 2 ^ j)
        (omega (arith, div-add-mod' x (2 ^ suc j), mul-two_pow-suc (x / 2 ^ suc j) j))
      ∙ add-mul-div_right (x % 2 ^ suc j) (x / 2 ^ suc j * 2) (pos_pow j) in
    let small : x % 2 ^ suc j / 2 ^ j < 2 =
      (div-lt_iff_lt-mul (pos_pow j)).1
        (omega (arith, pow-suc 2 j, mod-lt x {m = 2 ^ suc j} (pos_pow (suc j)))) in
    omega arith

pub ror_carry : (x k : ℕ) → x < 2 ^ 32 → 1 ≤ k → k < 32 → x / 2 ^ (k - 1) % 2 ≡ rotated x k / 2 ^ 31
ror_carry x k hx h1 h2 =
    let one_less : suc (k - 1) ≡ k = omega arith in
    let tops : rotated x k / 2 ^ (32 - k) ≡ x % 2 ^ k =
      ap (λ (t : ℕ). t / 2 ^ (32 - k)) (add_comm (x % 2 ^ k * 2 ^ (32 - k)) (x / 2 ^ k))
      ∙ add-mul-div_right (x / 2 ^ k) (x % 2 ^ k) (pos_pow (32 - k))
      ∙ ap (λ (t : ℕ). t + x % 2 ^ k) (div-eq_of_lt (shifted-lt x k hx (omega arith)))
      ∙ zero-add (x % 2 ^ k) in
    let places : (32 - k) + (k - 1) ≡ 31 = omega arith in
    let bit_31 : 2 ^ 31 ≡ 2 ^ (32 - k) * 2 ^ (k - 1) =
      ap (λ (t : ℕ). 2 ^ t) (sym places) ∙ pow_split (32 - k) (k - 1) in
    sym (mod_div x (k - 1))
    ∙ ap (λ (t : ℕ). x % 2 ^ t / 2 ^ (k - 1)) one_less
    ∙ ap (λ (t : ℕ). t / 2 ^ (k - 1)) (sym tops)
    ∙ div-div-eq-div-mul (rotated x k) (2 ^ (32 - k)) (2 ^ (k - 1))
    ∙ ap (λ (t : ℕ). rotated x k / t) (sym bit_31)

-- A shift by an immediate of 1 to 31 is the barrel shifter's, operand and carry, for each of
-- the four shift codes.
pub immediate_shift-eq-barrel :
    (host : Host) (shift_imm shift_code rm_value cpsr : ℕ)
    → 1 ≤ shift_imm
    → shift_imm < 32
    → rm_value < 2 ^ 32
    → get_shifter_operand_immediate_shift host shift_imm shift_code rm_value cpsr
      ≡ barrel shift_code rm_value shift_imm
unfolding get_shifter_operand_immediate_shift
immediate_shift-eq-barrel host n code x cpsr h1 h2 hx = ground (
  arith,
  carry_of_shl x n (omega arith),
  get_bit-eq-bit_at x (n - 1),
  asr_operand host x n hx h1 h2,
  asr_carry x n h1 h2,
  ror-eq host x n hx h1 h2,
  ror_carry x n hx h1 h2,
)
