-- ===== src/DataProcessing/FlagBits.antt =====
-- arm_data_processing.c: each flag computation, bit by bit.
use arm_sim.Base.{ℕ, ◌+◌, ◌%◌, ◌^◌, ◌<◌, ◌≡◌, arith, Bool, true, false}
use arm_sim.Base.{ltb, leb, ◌==◌, ◌||◌, if◌then◌else◌}
use arm_sim.Util.{add32, sub32, get_bit, set_bit, clr_bit}
use arm_sim.Util.Laws.{get_bit-set_bit, get_bit-clr_bit, set_bit-lt, clr_bit-lt, get_bit-eq-bit_at}
use arm_sim.DataProcessing.Flags.{
  flag_n, flag_z, flag_c, flag_v, set_zn, carry_from, overflow_from, borrow_from,
}

-- The macro pair set_bit and clr_bit under a test writes one bit.
abbrev pub write_bit : Bool → ℕ → ℕ → ℕ
write_bit b x i = if b then set_bit x i else clr_bit x i

pub get_bit-write_bit :
    (b : Bool) (x i j : ℕ)
    → i < 32
    → j < 32
    → get_bit (write_bit b x i) j ≡ (if i == j then (if b then 1 else 0) else get_bit x j)
get_bit-write_bit true x i j hi hj = get_bit-set_bit x i j
get_bit-write_bit false x i j hi hj = get_bit-clr_bit x i j hi hj

pub write_bit-lt : (b : Bool) (x i : ℕ) → x < 2 ^ 32 → i < 32 → write_bit b x i < 2 ^ 32
write_bit-lt true x i h hi = set_bit-lt x i h hi
write_bit-lt false x i h hi = clr_bit-lt x i h

pub set_zn_lem :
    (v c : ℕ) → set_zn v c ≡ write_bit (v == 0) (write_bit (get_bit v 31 == 1) c flag_n) flag_z
unfolding set_zn
set_zn_lem v c = ground arith

pub carry_from_lem : (v c : ℕ) → carry_from v c ≡ write_bit (leb 0x100000000 v) c flag_c
unfolding carry_from
carry_from_lem v c = ground arith

pub borrow_from_lem : (v c : ℕ) → borrow_from v c ≡ write_bit (get_bit v 31 == 1) c flag_c
unfolding borrow_from
borrow_from_lem v c = ground arith

-- A word as a signed number, moved up by 2 ^ 31 to be at least 0.
abbrev pub biased : ℕ → ℕ
biased x = (x + 2 ^ 31) % 2 ^ 32

-- The signed sum, and the signed difference, leave the range of an int32_t.
abbrev pub add_overflows : ℕ → ℕ → Bool
add_overflows x y =
    ltb (biased x + biased y) (2 ^ 31) || leb (2 ^ 31 + 2 ^ 32) (biased x + biased y)

abbrev pub sub_overflows : ℕ → ℕ → Bool
sub_overflows x y = ltb (biased x + 2 ^ 31) (biased y) || leb (biased y + 2 ^ 31) (biased x)

-- For ADD and CMN, V tells exactly whether the signed sum overflows.
pub overflow_from_add :
    (x y opcode c : ℕ)
    → x < 2 ^ 32
    → y < 2 ^ 32
    → (opcode == 4 || opcode == 11) ≡ true
    → overflow_from x y opcode c ≡ write_bit (add_overflows x y) c flag_v
unfolding overflow_from
overflow_from_add x y opcode c hx hy op =
    ground (arith, get_bit-eq-bit_at x 31, get_bit-eq-bit_at y 31, get_bit-eq-bit_at (add32 x y) 31)

-- For SUB and CMP, V tells exactly whether the signed difference overflows.
pub overflow_from_sub :
    (x y opcode c : ℕ)
    → x < 2 ^ 32
    → y < 2 ^ 32
    → (opcode == 2 || opcode == 10) ≡ true
    → overflow_from x y opcode c ≡ write_bit (sub_overflows x y) c flag_v
unfolding overflow_from
overflow_from_sub x y opcode c hx hy op =
    ground
      (arith, get_bit-eq-bit_at x 31, get_bit-eq-bit_at y 31, get_bit-eq-bit_at (0 + sub32 x y) 31)
