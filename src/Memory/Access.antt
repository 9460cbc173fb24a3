-- ===== src/Memory/Access.antt =====
-- memory.c: a written value is read back in either byte order, nothing else is touched, and
-- where an access fails or leaves the block.
use arm_sim.Base.{ℕ, ◌+◌, ◌^◌, ◌≤◌, ◌<◌, ◌≡◌, ◌↔◌, ◌∙◌, ap, arith}
use arm_sim.Base.{Bool, true, false, not, none, some, ltb, leb, ◌&&◌, if◌then◌else◌}
use arm_sim.Util.{u8, switch_endian, ◌>>>◌}
use arm_sim.Memory.{
  MemoryData, Memory, minus_one, peek, poke, memory_read_byte, memory_read_half, memory_read_word,
  memory_write_byte, memory_write_half, memory_write_word,
}
use arm_sim.Memory.Laws.{
  IsBlock, half_at, word_at, stored, stored_half, stored_word, memory_read_half-eq,
  memory_read_word-eq, memory_write_half-eq, memory_write_word-eq,
}

-- Block `m'` is `m` but for the `n` bytes from `a` on.
pub record SameBut (a n : ℕ) (m m' : MemoryData) : Type 0 where
  pub same_size : m'.size ≡ m.size
  pub elsewhere :
      (i : ℕ) → m'.bytes i ≡ (if leb a i && ltb i (a + n) then m'.bytes i else m.bytes i)

stored-IsBlock : (m : MemoryData) (i v : ℕ) → IsBlock m → IsBlock (stored m i (u8 v))
stored-IsBlock m i v w = record {
  addressable = w.addressable;
  holds_bytes = λ j. ground (arith, w.holds_bytes j);
}

pub stored_word-IsBlock :
    (m : MemoryData) (a v : ℕ) (be : Bool) → IsBlock m → IsBlock (stored_word m a v be)
stored_word-IsBlock m a v true w = stored-IsBlock _ (a + 3) v (
    stored-IsBlock _ (a + 2) (v >>> 8)
      (stored-IsBlock _ (a + 1) (v >>> 16) (stored-IsBlock m a (v >>> 24) w)))
stored_word-IsBlock m a v false w = stored-IsBlock _ a v (
    stored-IsBlock _ (a + 1) (v >>> 8)
      (stored-IsBlock _ (a + 2) (v >>> 16) (stored-IsBlock m (a + 3) (v >>> 24) w)))

stored_half-IsBlock :
    (m : MemoryData) (a v : ℕ) (be : Bool) → IsBlock m → IsBlock (stored_half m a v be)
stored_half-IsBlock m a v true w = stored-IsBlock _ (a + 1) v (stored-IsBlock m a (v >>> 8) w)
stored_half-IsBlock m a v false w = stored-IsBlock _ a v (stored-IsBlock m (a + 1) (v >>> 8) w)

pub stored_word-SameBut :
    (m : MemoryData) (a v : ℕ) (be : Bool) → SameBut a 4 m (stored_word m a v be)
stored_word-SameBut m a v true = record { same_size = omega arith; elsewhere = λ i. ground arith }
stored_word-SameBut m a v false = record { same_size = omega arith; elsewhere = λ i. ground arith }

stored_half-SameBut : (m : MemoryData) (a v : ℕ) (be : Bool) → SameBut a 2 m (stored_half m a v be)
stored_half-SameBut m a v true = record { same_size = omega arith; elsewhere = λ i. ground arith }
stored_half-SameBut m a v false = record { same_size = omega arith; elsewhere = λ i. ground arith }

pub word_at-stored_word :
    (m : MemoryData) (a v : ℕ) (be : Bool) → v < 2 ^ 32 → word_at (stored_word m a v be) a be ≡ v
word_at-stored_word m a v true h = ground arith
word_at-stored_word m a v false h = ground arith

word_at-stored_word-not :
    (m : MemoryData) (a v : ℕ) (be : Bool)
    → v < 2 ^ 32
    → word_at (stored_word m a v be) a (not be) ≡ switch_endian v
unfolding switch_endian
word_at-stored_word-not m a v true h = ground arith
word_at-stored_word-not m a v false h = ground arith

half_at-stored_half :
    (m : MemoryData) (a v : ℕ) (be : Bool) → v < 2 ^ 16 → half_at (stored_half m a v be) a be ≡ v
half_at-stored_half m a v true h = ground arith
half_at-stored_half m a v false h = ground arith

-- Where all four bytes of a word lie in the block, `memory_write_word` succeeds and keeps the
-- block well formed; `memory_read_word` then gives the value back in the same byte order, and
-- its bytes reversed in the other order; no other byte of the block changes.
pub read_word-write_word :
    (m : MemoryData) (a v old : ℕ) (be : Bool)
    → IsBlock m
    → a + 3 < m.size
    → v < 2 ^ 32
    → (m' : MemoryData) × (memory_write_word (some m) a v be ≡ some (0, some m'))
      × IsBlock m'
      × (memory_read_word (some m') a old be ≡ some (0, v))
      × (memory_read_word (some m') a old (not be) ≡ some (0, switch_endian v))
      × SameBut a 4 m m'
read_word-write_word m a v old be w h hv =
    let m' = stored_word m a v be in
    let w' = stored_word-IsBlock m a v be w in
    let same = stored_word-SameBut m a v be in
    let h' : a + 3 < m'.size = omega arith in
    (
      m',
      memory_write_word-eq m a v be w.addressable h,
      w',
      memory_read_word-eq m' a old be w' h'
          ∙ ap (λ (t : ℕ). some (0, t)) (word_at-stored_word m a v be hv),
      memory_read_word-eq m' a old (not be) w' h'
          ∙ ap (λ (t : ℕ). some (0, t)) (word_at-stored_word-not m a v be hv),
      same,
    )

-- Where both bytes of a half word lie in the block, `memory_write_half` succeeds and keeps the block
-- well formed; `memory_read_half` gives the value back in the same byte order; no other byte
-- of the block changes.
pub read_half-write_half :
    (m : MemoryData) (a v old : ℕ) (be : Bool)
    → IsBlock m
    → a + 1 < m.size
    → v < 2 ^ 16
    → (m' : MemoryData) × (memory_write_half (some m) a v be ≡ some (0, some m'))
      × IsBlock m'
      × (memory_read_half (some m') a old be ≡ some (0, v))
      × SameBut a 2 m m'
read_half-write_half m a v old be w h hv =
    let m' = stored_half m a v be in
    let w' = stored_half-IsBlock m a v be w in
    let same = stored_half-SameBut m a v be in
    let h' : a + 1 < m'.size = omega arith in
    (
      m',
      memory_write_half-eq m a v be w.addressable h,
      w',
      memory_read_half-eq m' a old be w' h'
          ∙ ap (λ (t : ℕ). some (0, t)) (half_at-stored_half m a v be hv),
      same,
    )

abbrev pub Refuses : Memory → ℕ → Type 0
Refuses mem a =
    (v : ℕ) (be : Bool)
    → (memory_read_byte mem a v ≡ some (minus_one, v))
      × (memory_read_half mem a v be ≡ some (minus_one, v))
      × (memory_read_word mem a v be ≡ some (minus_one, v))
      × (memory_write_byte mem a v ≡ some (minus_one, mem))
      × (memory_write_half mem a v be ≡ some (minus_one, mem))
      × (memory_write_word mem a v be ≡ some (minus_one, mem))

abbrev pub IsOutside : Memory → ℕ → Type 0
IsOutside none a = Unit {0}
IsOutside (some m) a = m.size ≤ a

-- An address at or past the end is refused by every access with -1: a read leaves the value
-- passed in, a write leaves the memory. So it is for a NULL memory, at any address.
pub outside-Refuses : (mem : Memory) (a : ℕ) → IsOutside mem a → Refuses mem a
unfolding memory_read_byte memory_read_half memory_read_word memory_write_byte memory_write_half
    memory_write_word
outside-Refuses none a h v be = ground arith
outside-Refuses (some m) a h v true = ground arith
outside-Refuses (some m) a h v false = ground arith

-- The guard tests the first address alone. Of the accesses that begin in the last three bytes of a
-- block of less than 2 ^ 32 bytes, each of a word passes the guard and leaves the block, and each of
-- a half word does so exactly if it begins at the last byte, in either order.
pub straddling_faults :
    (m : MemoryData) (a v : ℕ) (be : Bool)
    → m.size < 2 ^ 32
    → a < m.size
    → m.size ≤ a + 3
    → (memory_read_word (some m) a v be ≡ none)
      × (memory_write_word (some m) a v be ≡ none)
      × ((memory_read_half (some m) a v be ≡ none) ↔ (m.size ≡ a + 1))
      × ((memory_write_half (some m) a v be ≡ none) ↔ (m.size ≡ a + 1))
unfolding memory_read_word memory_write_word memory_read_half memory_write_half peek poke
straddling_faults m a v true small inside past = ground arith
straddling_faults m a v false small inside past = ground arith
