-- ===== src/Memory/Bytes.antt =====
-- memory.c: every access keeps the bytes of the block bytes, and reads values of the width asked for.
use arm_sim.Base.{ℕ, ◌^◌, ◌<◌, arith, Bool, true, false, none, some}
use arm_sim.Base.Gives.{Gives}
use arm_sim.Memory.{
  Memory, peek, poke, memory_read_byte, memory_read_half, memory_read_word, memory_write_byte,
  memory_write_half, memory_write_word,
}

-- Byte `i` of the block.
abbrev pub byte_of : Memory → ℕ → ℕ
byte_of none i = 0
byte_of (some m) i = m.bytes i

abbrev pub HoldsBytes : Memory → Type 0
HoldsBytes m = (i : ℕ) → byte_of m i < 2 ^ 8

-- The code of a read is a word and its value is below a bound; the code of a write is a word and
-- byte `i` is a byte after it.
abbrev pub IsRead : ℕ → ℕ × ℕ → Type 0
IsRead bound (code, v) = (code < 2 ^ 32) × (v < bound)

abbrev pub IsWritten : ℕ → ℕ × Memory → Type 0
IsWritten i (code, m) = (code < 2 ^ 32) × (byte_of m i < 2 ^ 8)

module _ (a old : ℕ) where
  pub memory_read_byte_bound :
      (m : Memory) → HoldsBytes m → old < 2 ^ 8 → Gives (IsRead (2 ^ 8)) (memory_read_byte m a old)
  unfolding memory_read_byte peek
  memory_read_byte_bound none h ho = ground arith
  memory_read_byte_bound (some m) h ho = ground (arith, h a)

  pub memory_read_half_bound :
      (m : Memory) (be : Bool)
      → old < 2 ^ 16
      → Gives (IsRead (2 ^ 16)) (memory_read_half m a old be)
  unfolding memory_read_half peek
  memory_read_half_bound none be ho = ground arith
  memory_read_half_bound (some m) be ho = ground arith

  pub memory_read_word_bound :
      (m : Memory) (be : Bool)
      → old < 2 ^ 32
      → Gives (IsRead (2 ^ 32)) (memory_read_word m a old be)
  unfolding memory_read_word peek
  memory_read_word_bound none be ho = ground arith
  memory_read_word_bound (some m) be ho = ground arith

module _ (a v i : ℕ) where
  pub memory_write_byte_bytes :
      (m : Memory) → byte_of m i < 2 ^ 8 → v < 2 ^ 8 → Gives (IsWritten i) (memory_write_byte m a v)
  unfolding memory_write_byte poke
  memory_write_byte_bytes none h hv = ground arith
  memory_write_byte_bytes (some m) h hv = ground arith

  pub memory_write_half_bytes :
      (m : Memory) (be : Bool)
      → byte_of m i < 2 ^ 8
      → Gives (IsWritten i) (memory_write_half m a v be)
  unfolding memory_write_half poke
  memory_write_half_bytes none be h = ground arith
  memory_write_half_bytes (some m) true h = ground arith
  memory_write_half_bytes (some m) false h = ground arith

  pub memory_write_word_bytes :
      (m : Memory) (be : Bool)
      → byte_of m i < 2 ^ 8
      → Gives (IsWritten i) (memory_write_word m a v be)
  unfolding memory_write_word poke
  memory_write_word_bytes none be h = ground arith
  memory_write_word_bytes (some m) true h = ground arith
  memory_write_word_bytes (some m) false h = ground arith
