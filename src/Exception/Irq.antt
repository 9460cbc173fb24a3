-- ===== src/Exception/Irq.antt =====
-- arm_exception.c: the entry into IRQ mode.
use native.Mathlib.Nat.{div-div-eq-div-mul}
use arm_sim.Base.{
  ℕ, zero, suc, ◌+◌, ◌-◌, ◌*◌, ◌/◌, ◌<◌, ◌≤◌, ◌%◌, ◌^◌, ◌≡◌, ◌∙◌, sym, ap, arith, refl,
}
use arm_sim.Base.{ltb, ◌==◌, if◌then◌else◌, ◌⊎◌, inl, inr}
use arm_sim.Bits.{bit_at, pow_split, low_bits_ext}
use arm_sim.Util.{get_bit, clr_bit, set_bits}
use arm_sim.Util.Laws.{
  get_bit-set_bit, get_bit-clr_bit, get_bit-eq-bit_at, set_bits_low, set_bit-lt, clr_bit-lt,
}
use arm_sim.Registers.{irq}
use arm_sim.Exception.{irq_cpsr}

-- The five low bits of a number are those of its remainder.
low_bits : (x i : ℕ) → i < 5 → bit_at x i ≡ bit_at (x % 2 ^ 5) i
low_bits x zero h = omega arith
low_bits x (suc zero) h = omega arith
low_bits x (suc (suc zero)) h = omega arith
low_bits x (suc (suc (suc zero))) h = omega arith
low_bits x (suc (suc (suc (suc zero)))) h = omega arith
low_bits x (suc (suc (suc (suc (suc i))))) h = absurd (omega arith)

-- The others are those of its quotient.
high_bits : (x i : ℕ) → 5 ≤ i → bit_at x i ≡ bit_at (x / 2 ^ 5) (i - 5)
high_bits x i h =
    let places : 5 + (i - 5) ≡ i = omega arith in
    ap (λ (t : ℕ). t % 2)
      (ap (λ (t : ℕ). x / 2 ^ t) (sym places)
        ∙ ap (λ (t : ℕ). x / t) (pow_split 5 (i - 5))
        ∙ sym (div-div-eq-div-mul x (2 ^ 5) (2 ^ (i - 5))))

low_or_high : (i : ℕ) → (i < 5) ⊎ (5 ≤ i)
low_or_high i = grind arith

mode_written :
    (c i : ℕ)
    → c < 2 ^ 32
    → get_bit (set_bits c 4 0 irq) i ≡ (if ltb i 5 then get_bit irq i else get_bit c i)
mode_written c i hc =
    let whole : set_bits c 4 0 irq ≡ c / 2 ^ 5 * 2 ^ 5 + irq =
      set_bits_low 4 c irq refl (omega arith) (omega arith) in
    let below : (c / 2 ^ 5 * 2 ^ 5 + irq) % 2 ^ 5 ≡ irq = omega arith in
    let above : (c / 2 ^ 5 * 2 ^ 5 + irq) / 2 ^ 5 ≡ c / 2 ^ 5 = omega arith in
    get_bit-eq-bit_at (set_bits c 4 0 irq) i
    ∙ ap (λ (t : ℕ). bit_at t i) whole
    ∙ elim (low_or_high i) [
      | inl low ↦
          low_bits (c / 2 ^ 5 * 2 ^ 5 + irq) i low
          ∙ ap (λ (t : ℕ). bit_at t i) below
          ∙ ground (arith, get_bit-eq-bit_at irq i)
      | inr high ↦
          high_bits (c / 2 ^ 5 * 2 ^ 5 + irq) i high
          ∙ ap (λ (t : ℕ). bit_at t (i - 5)) above
          ∙ ground (arith, high_bits c i high, get_bit-eq-bit_at c i)
    ]

-- The CPSR of an IRQ entry, bit by bit: IRQ mode in the five low bits, T clear, I set, and the other
-- bits, the flags and F among them, as they were.
pub irq_cpsr_bits :
    (c i : ℕ)
    → c < 2 ^ 32
    → i < 32
    → get_bit (irq_cpsr c) i
      ≡ (if i == 7 then 1 else if i == 5 then 0 else if ltb i 5 then get_bit irq i else get_bit c i)
unfolding irq_cpsr
irq_cpsr_bits c i hc hi = ground (
  arith,
  get_bit-set_bit (clr_bit (set_bits c 4 0 irq) 5) 7 i,
  get_bit-clr_bit (set_bits c 4 0 irq) 5 i (omega arith) hi,
  mode_written c i hc,
)

pub irq_cpsr_mode : (c : ℕ) → c < 2 ^ 32 → irq_cpsr c % 2 ^ 6 ≡ irq
irq_cpsr_mode c hc = low_bits_ext 6 (irq_cpsr c) irq (λ i p. ground (
  arith,
  get_bit-eq-bit_at (irq_cpsr c) i,
  get_bit-eq-bit_at irq i,
  irq_cpsr_bits c i hc (omega arith),
  last i,
))
  where
    last : (i : ℕ) → i ≡ 5 → bit_at irq i ≡ 0
    last i e = rw e refl

pub irq_cpsr-lt : (c : ℕ) → c < 2 ^ 32 → irq_cpsr c < 2 ^ 32
unfolding irq_cpsr
irq_cpsr-lt c hc =
    set_bit-lt (clr_bit (set_bits c 4 0 irq) 5) 7
      (clr_bit-lt (set_bits c 4 0 irq) 5
        (omega (arith, set_bits_low 4 c irq refl (omega arith) (omega arith))))
      (omega arith)
