-- ===== src/Util/Laws.antt =====
-- The macros and shifts of util.h and util.c, as arithmetic.
use native.Mathlib.Nat.{
  one-le-pow, div-lt_iff_lt-mul, sub-add_cancel, mod-eq_of_lt, add-zero, mul-one, mul-suc, mul_comm,
}
use arm_sim.Base.{
  ℕ, zero, suc, ◌+◌, ◌-◌, ◌*◌, ◌/◌, ◌%◌, ◌^◌, ◌≤◌, ◌<◌, ◌≡◌, arith, sym, ◌∙◌, ap, min, max,
}
use arm_sim.Base.{min, max, bit_and, bit_or, bit_xor, ◌==◌, if◌then◌else◌}
use arm_sim.Bits.{bit_at, bit_at-or, bit_at-and, bit_at-xor, bit_at-not, bit_at-pow, pow-lt-word}
use arm_sim.Bits.{
  bit_and_mask, bit_or_disjoint, bit_or_disjoint_left, bit_or-zero, bit_and-zero, bit_and_field,
  mod_of_fields, shifted_word, pow_split, bit_or-lt, bit_and-le,
}
use arm_sim.Host.{Host}
use arm_sim.Util.{
  u32, get_bit, set_bit, clr_bit, get_bits, set_bits, asr, ror, switch_endian, bit_not, all_ones,
  ◌<<<◌, ◌>>>◌,
}

pub get_bit-eq-bit_at : (x i : ℕ) → get_bit x i ≡ bit_at x i
unfolding get_bit
get_bit-eq-bit_at x i = bit_and_mask 1 (x / 2 ^ i)

pub get_bit-lt : (x i : ℕ) → get_bit x i < 2
get_bit-lt x i = omega (arith, get_bit-eq-bit_at x i)

pub get_bit-and : (i a b : ℕ) → get_bit (bit_and a b) i ≡ min (get_bit a i) (get_bit b i)
get_bit-and i a b =
    rw (get_bit-eq-bit_at a i, get_bit-eq-bit_at b i)
      (get_bit-eq-bit_at (bit_and a b) i ∙ bit_at-and i a b)

pub get_bit-or : (i a b : ℕ) → get_bit (bit_or a b) i ≡ max (get_bit a i) (get_bit b i)
get_bit-or i a b =
    rw (get_bit-eq-bit_at a i, get_bit-eq-bit_at b i)
      (get_bit-eq-bit_at (bit_or a b) i ∙ bit_at-or i a b)

pub get_bit-xor : (i a b : ℕ) → get_bit (bit_xor a b) i ≡ (get_bit a i + get_bit b i) % 2
get_bit-xor i a b =
    rw (get_bit-eq-bit_at a i, get_bit-eq-bit_at b i)
      (get_bit-eq-bit_at (bit_xor a b) i ∙ bit_at-xor i a b)

pub get_bit-not : (i x : ℕ) → i < 32 → x < 2 ^ 32 → get_bit (bit_not x) i ≡ 1 - get_bit x i
get_bit-not i x hi hx =
    rw (get_bit-eq-bit_at x i) (get_bit-eq-bit_at (bit_not x) i ∙ bit_at-not 32 i x hi hx)

pub get_bits-eq :
    (x h l : ℕ)
    → bit_not (u32 ((all_ones >>> (h - l + 1)) <<< (h - l + 1))) ≡ 2 ^ (h - l + 1) - 1
    → get_bits x h l ≡ x / 2 ^ l % 2 ^ (h - l + 1)
unfolding get_bits
get_bits-eq x h l e = rw e (bit_and_mask (h - l + 1) (x / 2 ^ l))

-- `set_bit x i` has bit `i` set, and every other bit of `x`.
pub get_bit-set_bit : (x i j : ℕ) → get_bit (set_bit x i) j ≡ (if i == j then 1 else get_bit x j)
unfolding set_bit
get_bit-set_bit x i j = ground (
  arith,
  get_bit-eq-bit_at (set_bit x i) j,
  get_bit-eq-bit_at x j,
  bit_at-or j x (1 * 2 ^ i),
  bit_at-pow i j,
)

-- `clr_bit x i` has bit `i` clear, and every other bit of `x`.
pub get_bit-clr_bit :
    (x i j : ℕ) → i < 32 → j < 32 → get_bit (clr_bit x i) j ≡ (if i == j then 0 else get_bit x j)
unfolding clr_bit
get_bit-clr_bit x i j p q = ground (
  arith,
  get_bit-eq-bit_at (clr_bit x i) j,
  get_bit-eq-bit_at x j,
  bit_at-and j x (bit_not (1 * 2 ^ i)),
  bit_at-not 32 j (1 * 2 ^ i) q (omega (arith, pow-lt-word i p)),
  bit_at-pow i j,
)

pub set_bit-lt : (x i : ℕ) → x < 2 ^ 32 → i < 32 → set_bit x i < 2 ^ 32
unfolding set_bit
set_bit-lt x i p q = bit_or-lt 32 x (1 * 2 ^ i) p (omega (arith, pow-lt-word i q))

pub clr_bit-lt : (x i : ℕ) → x < 2 ^ 32 → clr_bit x i < 2 ^ 32
unfolding clr_bit
clr_bit-lt x i p = omega (arith, bit_and-le x (bit_not (1 <<< i)))

-- Exchanging the bytes twice gives the word back.
pub switch_endian-switch_endian : (x : ℕ) → x < 2 ^ 32 → switch_endian (switch_endian x) ≡ x
unfolding switch_endian
switch_endian-switch_endian x h = omega arith

pub switch_endian-lt : (x : ℕ) → switch_endian x < 2 ^ 32
unfolding switch_endian
switch_endian-lt x = omega arith

pub shifted-lt : (x k : ℕ) → x < 2 ^ 32 → k ≤ 32 → x / 2 ^ k < 2 ^ (32 - k)
shifted-lt x k hx hk =
    (div-lt_iff_lt-mul (one-le-pow k 2 (omega arith))).1
      (rw (← pow_split (32 - k) k) (rw (sub-add_cancel hk) hx))

-- For a count of 1 to 31, `ror` is the rotation: the low `k` bits come back at the top.
pub ror-eq :
    (host : Host) (x k : ℕ)
    → x < 2 ^ 32
    → 1 ≤ k
    → k < 32
    → ror host x k ≡ x % 2 ^ k * 2 ^ (32 - k) + x / 2 ^ k
unfolding ror
ror-eq host x k hx h1 h2 = ground (
  arith,
  shifted_word x k (32 - k) (omega arith),
  bit_or_disjoint_left (32 - k) (x % 2 ^ k) (x / 2 ^ k) (shifted-lt x k hx (omega arith)),
)

ones_as_fields : (a b : ℕ) → 0 < a → 0 < b → a * b - 1 ≡ (b - 1) * a + (a - 1)
ones_as_fields a zero p q = absurd (omega arith)
ones_as_fields a (suc b) p q = rw (mul-suc a b, add-one-sub b, mul_comm b a) (omega arith)
  where
    add-one-sub : (b : ℕ) → suc b - 1 ≡ b
    add-one-sub b = omega arith

ones_mod : (k m : ℕ) → k + m ≡ 32 → all_ones % 2 ^ k ≡ 2 ^ k - 1
ones_mod k m e =
    let pos : 0 < 2 ^ k = one-le-pow k 2 (omega arith) in
    let halves : 2 ^ k * 2 ^ m ≡ 2 ^ 32 = sym (pow_split k m) ∙ ap (λ (t : ℕ). 2 ^ t) e in
    let parts : all_ones ≡ (2 ^ m - 1) * 2 ^ k + (2 ^ k - 1) =
      omega (arith, ones_as_fields (2 ^ k) (2 ^ m) pos (one-le-pow m 2 (omega arith))) in
    ap (λ (t : ℕ). t % 2 ^ k) parts ∙ mod_of_fields (2 ^ m - 1) (2 ^ k - 1) (2 ^ k) (omega arith)

-- For a count of 1 to 31, `asr` shifts in copies of the sign bit.
pub asr-eq :
    (host : Host) (x k : ℕ)
    → x < 2 ^ 32
    → 1 ≤ k
    → k < 32
    → asr host x k ≡ (if get_bit x 31 == 1 then (2 ^ k - 1) * 2 ^ (32 - k) else 0) + x / 2 ^ k
unfolding asr
asr-eq host x k hx h1 h2 = ground (
  arith,
  ones_mod k (32 - k) (omega arith),
  shifted_word all_ones k (32 - k) (omega arith),
  bit_or-zero (x / 2 ^ k),
  bit_or_disjoint_left (32 - k) (2 ^ k - 1) (x / 2 ^ k) (shifted-lt x k hx (omega arith)),
)

-- `set_bits x h 0 bits` replaces the bits up to `h` and keeps those above.
pub set_bits_low :
    (h x bits : ℕ)
    → u32 ((all_ones >>> (h + 1)) <<< (h + 1)) ≡ (2 ^ (31 - h) - 1) * 2 ^ (h + 1)
    → x / 2 ^ (h + 1) < 2 ^ (31 - h)
    → bits < 2 ^ (h + 1)
    → set_bits x h 0 bits ≡ x / 2 ^ (h + 1) * 2 ^ (h + 1) + bits
unfolding set_bits
set_bits_low h x bits mask hx hb =
    let high : bit_and x (u32 ((all_ones >>> (h + 1)) <<< (h + 1)))
        ≡ x / 2 ^ (h + 1) * 2 ^ (h + 1) =
      ap (λ (t : ℕ). bit_and x t) mask
      ∙ bit_and_field (h + 1) (31 - h) x
      ∙ ap (λ (t : ℕ). t * 2 ^ (h + 1)) (mod-eq_of_lt hx) in
    rw
      (
        high,
        bit_and-zero x,
        bit_or_disjoint_left (h + 1) (x / 2 ^ (h + 1)) 0 (one-le-pow (h + 1) 2 (omega arith)),
        add-zero,
        mul-one,
      )
      (bit_or_disjoint (h + 1) (x / 2 ^ (h + 1)) bits hb)
