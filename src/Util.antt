-- ===== src/Util.antt =====
-- util.h and util.c: the bit macros, the shifts and the byte swap, on 32-bit values.
pub mod Laws
pub mod Bounds
use arm_sim.Base.{ℕ, ◌+◌, ◌-◌, ◌*◌, ◌/◌, ◌%◌, ◌^◌, bit_and, bit_or, ltb, ◌==◌, if◌then◌else◌}
use arm_sim.Host.{Host}

abbrev pub u8 : ℕ → ℕ
u8 x = x % 2 ^ 8

abbrev pub u16 : ℕ → ℕ
u16 x = x % 2 ^ 16

abbrev pub u32 : ℕ → ℕ
u32 x = x % 2 ^ 32

infixl 75 ◌<<<◌ ◌>>>◌
abbrev pub ◌<<<◌ : ℕ → ℕ → ℕ
x <<< k = x * 2 ^ k

abbrev pub ◌>>>◌ : ℕ → ℕ → ℕ
x >>> k = x / 2 ^ k

-- uint32_t addition, subtraction and multiplication.
abbrev pub add32 : ℕ → ℕ → ℕ
add32 x y = u32 (x + y)

abbrev pub sub32 : ℕ → ℕ → ℕ
sub32 x y = u32 (x + 2 ^ 32 - y)

abbrev pub mul32 : ℕ → ℕ → ℕ
mul32 x y = u32 (x * y)

-- `~x` on a uint32_t.
abbrev pub bit_not : ℕ → ℕ
bit_not x = 2 ^ 32 - 1 - x

abbrev pub all_ones : ℕ
all_ones = 0xffffffff

-- `x << k` on a uint32_t, undefined from k = 32 on.
unfoldable pub shl32 : Host → ℕ → ℕ → ℕ
shl32 host x k = if ltb k 32 then u32 (x <<< k) else host.wide_shl x k

unfoldable pub get_bit : ℕ → ℕ → ℕ
get_bit x i = bit_and (x >>> i) 1

unfoldable pub set_bit : ℕ → ℕ → ℕ
set_bit x i = bit_or x (1 <<< i)

unfoldable pub clr_bit : ℕ → ℕ → ℕ
clr_bit x i = bit_and x (bit_not (1 <<< i))

unfoldable pub get_bits : ℕ → ℕ → ℕ → ℕ
get_bits x h l = bit_and (x >>> l) (bit_not (u32 ((all_ones >>> (h - l + 1)) <<< (h - l + 1))))

unfoldable pub set_bits : ℕ → ℕ → ℕ → ℕ → ℕ
set_bits x h l bits =
    bit_or
      (bit_or (bit_and x (bit_not (u32 (all_ones <<< l))))
        (bit_and x (u32 ((all_ones >>> (h + 1)) <<< (h + 1)))))
      (bits <<< l)

unfoldable pub asr : Host → ℕ → ℕ → ℕ
unfolding shl32 get_bit
asr host value shift =
    bit_or (value >>> shift) (if get_bit value 31 == 1 then shl32 host all_ones (32 - shift) else 0)

unfoldable pub ror : Host → ℕ → ℕ → ℕ
unfolding shl32
ror host value rotation = bit_or (value >>> rotation) (shl32 host value (32 - rotation))

-- The four bytes of `*x`, exchanged first with last and second with third.
unfoldable pub switch_endian : ℕ → ℕ
switch_endian x =
    (x % 2 ^ 8) * 2 ^ 24
    + (x / 2 ^ 8 % 2 ^ 8) * 2 ^ 16
    + (x / 2 ^ 16 % 2 ^ 8) * 2 ^ 8
    + x / 2 ^ 24 % 2 ^ 8
