-- ===== src/DataProcessing/WideShift.antt =====
-- The shifter operands by a register: counts of 32 and more, and all counts together.
use native.Mathlib.Nat.{mul_assoc, pow-suc, pow-le-pow_right, div-eq_of_lt, div-eq_of_lt-le}
use arm_sim.Base.{
  ℕ, zero, suc, ◌+◌, ◌-◌, ◌*◌, ◌/◌, ◌%◌, ◌^◌, ◌≤◌, ◌<◌, ◌≡◌, ◌∙◌, sym, ap, arith, refl,
}
use arm_sim.Base.{◌⊎◌, inl, inr, Bool-cases, ◌==◌, if◌then◌else◌}
use arm_sim.Bits.{pow_split, mul-two_pow-suc}
use arm_sim.Host.{Host}
use arm_sim.Util.{get_bit, get_bits, all_ones}
use arm_sim.Util.Laws.{get_bit-eq-bit_at, get_bits-eq, ror-eq}
use arm_sim.DataProcessing.Flags.{flag_c}
use arm_sim.DataProcessing.Shifter.{shifted, get_shifter_operand_register_shift, shift_by_count}
use arm_sim.DataProcessing.Barrel.{
  carry_of_shl, sign_extended, rotated, sign_cases, asr_operand, asr_carry, ror_carry, barrel,
}

-- Shifts by the width of the word or more.
pow-le : (a b : ℕ) → a ≤ b → 2 ^ a ≤ 2 ^ b
pow-le a b h = pow-le-pow_right {n = 2} (omega arith) {i = a} {j = b} h

shl_over : (x n : ℕ) → 32 ≤ n → x * 2 ^ n ≡ x * 2 ^ (n - 32) * 2 ^ 32
shl_over x n h =
    let places : (n - 32) + 32 ≡ n = omega arith in
    ap (λ (t : ℕ). x * t) (ap (λ (t : ℕ). 2 ^ t) (sym places) ∙ pow_split (n - 32) 32)
    ∙ sym (mul_assoc x (2 ^ (n - 32)) (2 ^ 32))

shl_beyond : (x n : ℕ) → 33 ≤ n → x * 2 ^ (n - 32) % 2 ≡ 0
shl_beyond x n h =
    let more : n - 32 ≡ suc (n - 33) = omega arith in
    omega (arith, mul-two_pow-suc x (n - 33), ap (λ (t : ℕ). x * 2 ^ t) more)

lsl_over :
    (x n : ℕ)
    → 32 ≤ n
    → (x * 2 ^ n % 2 ^ 32 ≡ 0) × (x * 2 ^ n / 2 ^ 32 % 2 ≡ (if n == 32 then x % 2 else 0))
lsl_over x n h = ground (arith, shl_over x n h, shl_beyond x n)

shr_over : (x n : ℕ) → x < 2 ^ 32 → 32 ≤ n → x / 2 ^ n ≡ 0
shr_over x n hx h = div-eq_of_lt (omega (arith, pow-le 32 n h))

-- A negative word with its sign in front, shifted by 32 or more, is all ones.
ones_over : (x t : ℕ) → x < 2 ^ 32 → 2 ^ 32 ≤ t → (x + (t - 1) * 2 ^ 32) / t ≡ 2 ^ 32 - 1
ones_over x t hx ht = div-eq_of_lt-le t (omega arith) (omega arith)

-- The last bit to leave it is 1.
ones_over_carry :
    (x u : ℕ) → x < 2 ^ 32 → 2 ^ 31 ≤ x → 2 ^ 31 ≤ u → (x + (2 * u - 1) * 2 ^ 32) / u ≡ 2 ^ 33 - 1
ones_over_carry x u hx top hu = div-eq_of_lt-le u (omega arith) (omega arith)

asr_over :
    (x n : ℕ)
    → x < 2 ^ 32
    → 32 ≤ n
    → (sign_extended x n / 2 ^ n ≡ (if get_bit x 31 == 0 then 0 else all_ones))
      × (sign_extended x n / 2 ^ (n - 1) % 2 ≡ get_bit x 31)
asr_over x n hx h = elim (sign_cases x hx) [
  | inl positive ↦
      ground (arith, get_bit-eq-bit_at x 31, shr_over x n hx h, positive_carry positive)
  | inr negative ↦ ground (
    arith,
    get_bit-eq-bit_at x 31,
    ones_over x (2 ^ n) hx (pow-le 32 n h),
    double,
    ones_over_carry x (2 ^ (n - 1)) hx (omega arith) (pow-le 31 (n - 1) (omega arith)),
  )
]
  where
    double : 2 ^ n ≡ 2 * 2 ^ (n - 1)
    double =
        let one_more : n ≡ suc (n - 1) = omega arith in
        ap (λ (t : ℕ). 2 ^ t) one_more ∙ omega (arith, pow-suc 2 (n - 1))

    positive_carry : x / 2 ^ 31 ≡ 0 → x / 2 ^ (n - 1) ≡ 0
    positive_carry e = div-eq_of_lt (omega (arith, pow-le 31 (n - 1) (omega arith)))

ror_zero : (x : ℕ) → x < 2 ^ 32 → (rotated x 0 ≡ x) × (rotated x 0 / 2 ^ 31 ≡ get_bit x 31)
ror_zero x hx = ground (arith, get_bit-eq-bit_at x 31)

-- A count of 32 or more, for each shift code.
module _ (host : Host) (x n k cpsr : ℕ) (hx : x < 2 ^ 32) (wide : 32 ≤ n) where
  wide_lsl : shift_by_count host 0 x n k cpsr ≡ barrel 0 x n
  unfolding shift_by_count
  wide_lsl = ground (arith, lsl_over x n wide, get_bit-eq-bit_at x 0)

  wide_lsr : shift_by_count host 1 x n k cpsr ≡ barrel 1 x n
  unfolding shift_by_count
  wide_lsr = ground (arith, shr_over x n hx wide, shr_over x (n - 1) hx, get_bit-eq-bit_at x 31)

  wide_asr : shift_by_count host 2 x n k cpsr ≡ barrel 2 x n
  unfolding shift_by_count
  wide_asr = ground (arith, asr_over x n hx wide)

  wide_ror :
      (code : ℕ) → 3 ≤ code → k ≡ n % 32 → shift_by_count host code x n k cpsr ≡ barrel code x n
  unfolding shift_by_count
  wide_ror code h hk =
      ground
        (arith, get_bit-eq-bit_at x (k - 1), ror-eq host x k hx, ror_carry x k hx, ror_zero x hx)

narrow_shift :
    (host : Host) (code x n k cpsr : ℕ)
    → x < 2 ^ 32
    → k ≡ n % 32
    → 0 < n
    → n < 32
    → shift_by_count host code x n k cpsr ≡ barrel code x n
unfolding shift_by_count
narrow_shift host code x n k cpsr hx hk hn narrow = ground (
  arith,
  carry_of_shl x n (omega arith),
  get_bit-eq-bit_at x (n - 1),
  asr_operand host x n hx hn narrow,
  asr_carry x n hn narrow,
  ror-eq host x n hx hn narrow,
  ror_carry x n hx hn narrow,
)

wide_shift :
    (host : Host) (code x n k cpsr : ℕ)
    → x < 2 ^ 32
    → k ≡ n % 32
    → 32 ≤ n
    → shift_by_count host code x n k cpsr ≡ barrel code x n
wide_shift host zero x n k cpsr hx hk wide = wide_lsl host x n k cpsr hx wide
wide_shift host (suc zero) x n k cpsr hx hk wide = wide_lsr host x n k cpsr hx wide
wide_shift host (suc (suc zero)) x n k cpsr hx hk wide = wide_asr host x n k cpsr hx wide
wide_shift host (suc (suc (suc code))) x n k cpsr hx hk wide =
    wide_ror host x n k cpsr hx wide (suc (suc (suc code))) (omega arith) hk

zero_shift :
    (host : Host) (code x k cpsr : ℕ)
    → shift_by_count host code x 0 k cpsr ≡ shifted x (get_bit cpsr flag_c)
unfolding shift_by_count
zero_shift host code x k cpsr = ground arith

shift_by_count-eq-barrel :
    (host : Host) (code x n k cpsr : ℕ)
    → x < 2 ^ 32
    → k ≡ n % 32
    → 0 < n
    → shift_by_count host code x n k cpsr ≡ barrel code x n
shift_by_count-eq-barrel host code x n k cpsr hx hk hn = elim (le_or_lt 32 n) [
  | inl wide ↦ wide_shift host code x n k cpsr hx hk wide
  | inr narrow ↦ narrow_shift host code x n k cpsr hx hk hn narrow
]
  where
    le_or_lt : (a b : ℕ) → (a ≤ b) ⊎ (b < a)
    le_or_lt a b = grind arith

-- A shift by a register takes the low byte of Rs as its count. With a count of 0 it leaves the word
-- and the C flag; with any other, 32 and beyond included, it is the barrel shifter's.
pub register_shift-eq-barrel :
    (host : Host) (shift_code rm_value rs_value cpsr : ℕ)
    → rm_value < 2 ^ 32
    → get_shifter_operand_register_shift host shift_code rm_value rs_value cpsr ≡ (
        if rs_value % 2 ^ 8 == 0
        then shifted rm_value (get_bit cpsr flag_c)
        else barrel shift_code rm_value (rs_value % 2 ^ 8))
unfolding get_shifter_operand_register_shift
register_shift-eq-barrel host code x rs cpsr hx = elim (Bool-cases (rs % 2 ^ 8 == 0)) [
  | inl zero_count ↦
      rw (zero_count, get_bits-eq rs 7 0 refl)
        (ap (λ (t : ℕ). shift_by_count host code x t (get_bits rs 4 0) cpsr) (ground arith)
          ∙ zero_shift host code x (get_bits rs 4 0) cpsr)
  | inr some_count ↦
      rw (some_count, get_bits-eq rs 7 0 refl, get_bits-eq rs 4 0 refl)
        (shift_by_count-eq-barrel host code x (rs / 1 % 2 ^ 8) (rs / 1 % 2 ^ 5) cpsr hx
            (omega arith) (ground arith)
          ∙ ap (barrel code x) (omega arith))
]
