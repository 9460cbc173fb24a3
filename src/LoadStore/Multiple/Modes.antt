-- ===== src/LoadStore/Multiple/Modes.antt =====
-- arm_load_store.c: the four address modes of LDM and STM, as the manual gives them.
use arm_sim.Base.{
  ℕ, zero, suc, ◌+◌, ◌-◌, ◌*◌, ◌%◌, ◌^◌, ◌≤◌, ◌<◌, ◌≡◌, ◌∙◌, refl, ap, arith, ◌==◌, Bool, true,
  false,
}
use arm_sim.Util.{mul32, get_bit, get_bits}
use arm_sim.Util.Laws.{get_bit-lt, get_bits-eq}
use arm_sim.LoadStore.Multiple.{count_bits, Span, span}

-- The lowest address of a transfer of `n` words, by the P and U bits: decrement after, increment
-- after, decrement before and increment before.
abbrev pub lowest : Bool → Bool → ℕ → ℕ → ℕ
lowest false false base n = (base + 2 ^ 32 - 4 * n + 4) % 2 ^ 32
lowest false true base n = base
lowest true false base n = (base + 2 ^ 32 - 4 * n) % 2 ^ 32
lowest true true base n = (base + 4) % 2 ^ 32

-- The base after the transfer, by the U bit.
abbrev pub final_base : Bool → ℕ → ℕ → ℕ
final_base false base n = (base + 2 ^ 32 - 4 * n) % 2 ^ 32
final_base true base n = (base + 4 * n) % 2 ^ 32

-- Where an instruction begins to transfer, and its new base.
abbrev pub places : ℕ → ℕ → Span
places ins base = record {
  address =
      lowest (get_bit ins 24 == 1) (get_bit ins 23 == 1) base (count_bits (get_bits ins 15 0) 16 0);
  w_adress = final_base (get_bit ins 23 == 1) base (count_bits (get_bits ins 15 0) 16 0);
}

pub count_bits-le : (list n i : ℕ) → count_bits list n i ≤ n
unfolding count_bits
count_bits-le list zero i = omega arith
count_bits-le list (suc n) i = omega (arith, get_bit-lt list i, count_bits-le list n (i + 1))

abbrev at : ℕ → ℕ → Span
at a w = record { address = a; w_adress = w }

same_span :
    {a b v w : ℕ}
    → a ≡ b
    → v ≡ w
    → ◌≡◌ {A = Span} (record { address = a; w_adress = v }) (record { address = b; w_adress = w })
same_span {a} {b} {v} {w} e f = ap (λ (x : ℕ). at x v) e ∙ ap (λ (x : ℕ). at b x) f

span-eq-modes :
    (p u : Bool) (base n : ℕ)
    → base < 2 ^ 32
    → n ≤ 16
    → span p u base (mul32 n 4)
      ≡ record { address = lowest p u base n; w_adress = final_base u base n }
unfolding span
span-eq-modes false false base n h k = same_span (omega arith) (omega arith)
span-eq-modes false true base n h k = same_span (omega arith) (omega arith)
span-eq-modes true false base n h k = same_span (omega arith) (omega arith)
span-eq-modes true true base n h k = same_span (omega arith) (omega arith)

pub span-eq-places :
    (ins base : ℕ)
    → base < 2 ^ 32
    → span
        (get_bit ins 24 == 1)
        (get_bit ins 23 == 1)
        base
        (mul32 (count_bits (get_bits ins 15 0) 16 0) 4)
      ≡ places ins base
span-eq-places ins base h =
    span-eq-modes (get_bit ins 24 == 1) (get_bit ins 23 == 1) base
      (count_bits (get_bits ins 15 0) 16 0) h (count_bits-le (get_bits ins 15 0) 16 0)

pub places-lt : (ins base : ℕ) → base < 2 ^ 32 → (places ins base).w_adress < 2 ^ 32
places-lt ins base h = ground arith

pub base_register-lt : (ins : ℕ) → get_bits ins 19 16 < 16
base_register-lt ins = (let e = get_bits-eq ins 19 16 refl in omega arith)
