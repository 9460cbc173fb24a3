-- ===== src/Memory.antt =====
-- memory.c: a block of bytes behind a pointer, read and written by bytes, half words and words
-- in either byte order. A `memory` is `none` where the pointer is NULL. An access past the block
-- is undefined in C, and gives `none` for the whole call.
pub mod Laws
pub mod Access
pub mod Bytes
use arm_sim.Base.{ℕ, ◌+◌, ◌-◌, ◌*◌, ◌/◌, ◌%◌, ◌^◌, bit_or, ltb, leb, ◌==◌, if◌then◌else◌}
use arm_sim.Base.{Bool, true, false, Option, none, some}
use arm_sim.Base.Optional.{◌>>=◌}
use arm_sim.Util.{u8, u16, u32, add32, ◌<<<◌, ◌>>>◌}

pub record MemoryData : Type 0 where
  pub size : ℕ
  pub bytes : ℕ → ℕ

abbrev pub Memory : Type 0
Memory = Option MemoryData

-- The `int` -1, as its bit pattern.
abbrev pub minus_one : ℕ
minus_one = 0xffffffff

-- `mem->data[i]`.
unfoldable pub peek : MemoryData → ℕ → Option ℕ
peek mem i = if ltb i mem.size then some (mem.bytes i) else none

-- `mem->data[i] = v`.
unfoldable pub poke : MemoryData → ℕ → ℕ → Option MemoryData
poke mem i v =
    if ltb i mem.size
    then some (record mem { bytes = λ j. if i == j then v else mem.bytes j })
    else none

-- The two arguments in front are the results of the two calls of malloc: whether the header was
-- allocated, and the contents of the block of `size` bytes, or NULL.
unfoldable pub memory_create : Bool → Option (ℕ → ℕ) → ℕ → Memory
memory_create false block size = none
memory_create true none size = none
memory_create true (some contents) size = some (record { size = size; bytes = contents })

unfoldable pub memory_get_size : Memory → ℕ
memory_get_size none = 0
memory_get_size (some mem) = mem.size

-- `*value` is passed in with its old contents and comes back beside the return code.
unfoldable pub memory_read_byte : Memory → ℕ → ℕ → Option (ℕ × ℕ)
memory_read_byte none address value = some (minus_one, value)
memory_read_byte (some mem) address value =
    if leb mem.size address then some (minus_one, value) else (do b ← peek mem address; some (0, b))

unfoldable pub memory_read_half : Memory → ℕ → ℕ → Bool → Option (ℕ × ℕ)
memory_read_half none address value be = some (minus_one, value)
memory_read_half (some mem) address value be =
    if leb mem.size address then some (minus_one, value) else (do
      b₀ ← peek mem address
      b₁ ← peek mem (add32 address 1)
      some (0, u16 (if be then bit_or (b₀ <<< 8) b₁ else bit_or (b₁ <<< 8) b₀)))

unfoldable pub memory_read_word : Memory → ℕ → ℕ → Bool → Option (ℕ × ℕ)
memory_read_word none address value be = some (minus_one, value)
memory_read_word (some mem) address value be =
    if leb mem.size address then some (minus_one, value) else (do
      b₀ ← peek mem address
      b₁ ← peek mem (add32 address 1)
      b₂ ← peek mem (add32 address 2)
      b₃ ← peek mem (add32 address 3)
      some (
        0,
        u32 (
            if be
            then bit_or (bit_or (bit_or (b₀ <<< 24) (b₁ <<< 16)) (b₂ <<< 8)) b₃
            else bit_or (bit_or (bit_or (b₃ <<< 24) (b₂ <<< 16)) (b₁ <<< 8)) b₀),
      ))

unfoldable pub memory_write_byte : Memory → ℕ → ℕ → Option (ℕ × Memory)
memory_write_byte none address value = some (minus_one, none)
memory_write_byte (some mem) address value =
    if leb mem.size address
    then some (minus_one, some mem)
    else (do m ← poke mem address value; some (0, some m))

unfoldable pub memory_write_half : Memory → ℕ → ℕ → Bool → Option (ℕ × Memory)
memory_write_half none address value be = some (minus_one, none)
memory_write_half (some mem) address value true =
    if leb mem.size address then some (minus_one, some mem) else (do
      m₁ ← poke mem address (u8 (value >>> 8))
      m₂ ← poke m₁ (add32 address 1) (u8 value)
      some (0, some m₂))
memory_write_half (some mem) address value false =
    if leb mem.size address then some (minus_one, some mem) else (do
      m₁ ← poke mem (add32 address 1) (u8 (value >>> 8))
      m₂ ← poke m₁ address (u8 value)
      some (0, some m₂))

unfoldable pub memory_write_word : Memory → ℕ → ℕ → Bool → Option (ℕ × Memory)
memory_write_word none address value be = some (minus_one, none)
memory_write_word (some mem) address value true =
    if leb mem.size address then some (minus_one, some mem) else (do
      m₁ ← poke mem address (u8 (value >>> 24))
      m₂ ← poke m₁ (add32 address 1) (u8 (value >>> 16))
      m₃ ← poke m₂ (add32 address 2) (u8 (value >>> 8))
      m₄ ← poke m₃ (add32 address 3) (u8 value)
      some (0, some m₄))
memory_write_word (some mem) address value false =
    if leb mem.size address then some (minus_one, some mem) else (do
      m₁ ← poke mem (add32 address 3) (u8 (value >>> 24))
      m₂ ← poke m₁ (add32 address 2) (u8 (value >>> 16))
      m₃ ← poke m₂ (add32 address 1) (u8 (value >>> 8))
      m₄ ← poke m₃ address (u8 value)
      some (0, some m₄))
