-- ===== src/LoadStore/Scaled.antt =====
-- arm_load_store.c: the shifted offset register against the barrel shifter of data processing, and
-- the mask of a signed load against two's complement.
use native.Mathlib.Nat.{mul-div_cancel, mul-sub, one-le-pow, mul_comm}
use arm_sim.Base.{ℕ, ◌+◌, ◌-◌, ◌*◌, ◌/◌, ◌^◌, ◌≤◌, ◌<◌, ◌≡◌, ◌∙◌, sym, ap, arith, refl}
use arm_sim.Base.{if◌then◌else◌, ltb}
use arm_sim.Bits.{bit_or-ge, pow_split}
use arm_sim.Host.{Host}
use arm_sim.Util.{asr, all_ones, ◌>>>◌}
use arm_sim.Util.Laws.{get_bit-eq-bit_at, ror-eq, asr-eq, set_bits_low}
use arm_sim.DataProcessing.Barrel.{barrel, asr_operand}
use arm_sim.LoadStore.{int_shr, shifted_offset}
use arm_sim.LoadStore.Miscellaneous.{signed_load}

int_shr-eq-asr : (host : Host) (x k : ℕ) → x < 2 ^ 32 → 1 ≤ k → k < 32 → int_shr x k ≡ asr host x k
unfolding int_shr
int_shr-eq-asr host x k hx h1 h2 = ground (arith, asr-eq host x k hx h1 h2, high_ones)
  where
    word : 2 ^ 32 ≡ 2 ^ (32 - k) * 2 ^ k
    word =
        let places : (32 - k) + k ≡ 32 = omega arith in
        ap (λ (t : ℕ). 2 ^ t) (sym places) ∙ pow_split (32 - k) k

    high : (all_ones + 1) >>> k ≡ 2 ^ (32 - k)
    high =
        ap (λ (t : ℕ). t / 2 ^ k) word
        ∙ mul-div_cancel (2 ^ (32 - k)) (one-le-pow k 2 (omega arith))

    ones_times : (a b : ℕ) → b * a - b ≡ (a - 1) * b
    ones_times a b = omega (arith, mul_comm b (a - 1), mul-sub b a 1)

    high_ones : all_ones + 1 - (all_ones + 1) >>> k ≡ (2 ^ k - 1) * 2 ^ (32 - k)
    high_ones = omega (arith, high, word, ones_times (2 ^ k) (2 ^ (32 - k)))

-- A scaled register offset with a shift of 1 to 31 places is the operand that the barrel shifter of
-- the data-processing instructions gives, for each of the four shift codes.
pub shifted_offset-eq-barrel :
    (host : Host) (shift shift_imm register_m offset cpsr : ℕ)
    → 1 ≤ shift_imm
    → shift_imm < 32
    → offset < 2 ^ 32
    → shifted_offset host shift shift_imm register_m offset cpsr
      ≡ (barrel shift offset shift_imm).operand
unfolding shifted_offset
shifted_offset-eq-barrel host shift n rm x cpsr h1 h2 hx = ground (
  arith,
  bit_or-ge n shift,
  int_shr-eq-asr host x n hx h1 h2,
  asr_operand host x n hx h1 h2,
  ror-eq host x n hx h1 h2,
)

-- The sign of a `w`-bit value, extended to a word.
abbrev pub extended : ℕ → ℕ → ℕ
extended w v = if ltb v (2 ^ (w - 1)) then v else v + 2 ^ 32 - 2 ^ w

-- LDRSB and LDRSH extend the sign: a loaded byte or half word of value `v` gives `v` in the lower
-- half of its range, and `v` minus the size of the range, modulo 2 ^ 32, in the upper half.
pub signed_load-eq-extended :
    (byte half : ℕ)
    → byte < 2 ^ 8
    → half < 2 ^ 16
    → (signed_load 7 byte ≡ extended 8 byte) × (signed_load 15 half ≡ extended 16 half)
unfolding signed_load
signed_load-eq-extended byte half small wide = (
  ground (
    arith,
    get_bit-eq-bit_at byte 7,
    set_bits_low 7 all_ones byte refl,
    set_bits_low 7 0 byte refl,
  ),
  ground (
    arith,
    get_bit-eq-bit_at half 15,
    set_bits_low 15 all_ones half refl,
    set_bits_low 15 0 half refl,
  ),
)
