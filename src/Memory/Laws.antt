-- ===== src/Memory/Laws.antt =====
-- memory.c: each access in terms of the bytes of the block.
use arm_sim.Base.{ℕ, ◌+◌, ◌*◌, ◌^◌, ◌≤◌, ◌<◌, ◌≡◌, ◌∙◌, ap, arith, bit_or}
use arm_sim.Base.{◌==◌, if◌then◌else◌, Bool, true, false, some}
use arm_sim.Bits.{bit_or_disjoint}
use arm_sim.Util.{u8, add32, ◌<<<◌, ◌>>>◌}
use arm_sim.Memory.{
  MemoryData, peek, poke, memory_read_byte, memory_read_half, memory_read_word, memory_write_byte,
  memory_write_half, memory_write_word,
}

-- Bytes joined by shifts and `|` make the word with those digits.
pub word_of_bytes :
    (b₀ b₁ b₂ b₃ : ℕ)
    → b₀ < 256
    → b₁ < 256
    → b₂ < 256
    → b₃ < 256
    → bit_or (bit_or (bit_or (b₀ <<< 24) (b₁ <<< 16)) (b₂ <<< 8)) b₃
      ≡ b₀ * 2 ^ 24 + b₁ * 2 ^ 16 + b₂ * 2 ^ 8 + b₃
word_of_bytes b₀ b₁ b₂ b₃ h₀ h₁ h₂ h₃ = ground (
  arith,
  bit_or_disjoint 24 b₀ (b₁ * 2 ^ 16) (omega arith),
  bit_or_disjoint 16 (b₀ * 2 ^ 8 + b₁) (b₂ * 2 ^ 8) (omega arith),
  bit_or_disjoint 8 ((b₀ * 2 ^ 8 + b₁) * 2 ^ 8 + b₂) b₃ (omega arith),
)

-- The block holds bytes, and its addresses are 32-bit.
pub record IsBlock (m : MemoryData) : Type 0 where
  pub addressable : m.size ≤ 2 ^ 32
  pub holds_bytes : (i : ℕ) → m.bytes i < 256

-- The half word and the word at `a` by digits, most significant byte first or last.
abbrev pub half_at : MemoryData → ℕ → Bool → ℕ
half_at m a true = m.bytes a * 2 ^ 8 + m.bytes (a + 1)
half_at m a false = m.bytes (a + 1) * 2 ^ 8 + m.bytes a

abbrev pub word_at : MemoryData → ℕ → Bool → ℕ
word_at m a true =
    m.bytes a * 2 ^ 24 + m.bytes (a + 1) * 2 ^ 16 + m.bytes (a + 2) * 2 ^ 8 + m.bytes (a + 3)
word_at m a false =
    m.bytes (a + 3) * 2 ^ 24 + m.bytes (a + 2) * 2 ^ 16 + m.bytes (a + 1) * 2 ^ 8 + m.bytes a

-- One byte replaced.
abbrev pub stored : MemoryData → ℕ → ℕ → MemoryData
stored m i v = record m { bytes = λ j. if i == j then v else m.bytes j }

pub peek-eq : (m : MemoryData) (i : ℕ) → i < m.size → peek m i ≡ some (m.bytes i)
unfolding peek
peek-eq m i h = ground arith

pub poke-eq : (m : MemoryData) (i v : ℕ) → i < m.size → poke m i v ≡ some (stored m i v)
unfolding poke
poke-eq m i v h = ground arith

-- Within the block the address of the next bytes does not wrap.
next_address : (a k n : ℕ) → a + k < n → n ≤ 2 ^ 32 → add32 a k ≡ a + k
next_address a k n h p = omega arith

module _ (m : MemoryData) (a k : ℕ) (w : m.size ≤ 2 ^ 32) (h : a + k < m.size) where
  peek_next : peek m (add32 a k) ≡ some (m.bytes (a + k))
  peek_next = ap (peek m) (next_address a k m.size h w) ∙ peek-eq m (a + k) h

  poke_next : (v : ℕ) → poke m (add32 a k) v ≡ some (stored m (a + k) v)
  poke_next v = ap (λ (t : ℕ). poke m t v) (next_address a k m.size h w) ∙ poke-eq m (a + k) v h

pub memory_read_byte-eq :
    (m : MemoryData) (a old : ℕ)
    → a < m.size
    → memory_read_byte (some m) a old ≡ some (0, m.bytes a)
unfolding memory_read_byte
memory_read_byte-eq m a old h = ground (arith, peek-eq m a h)

pub memory_read_half-eq :
    (m : MemoryData) (a old : ℕ) (be : Bool)
    → IsBlock m
    → a + 1 < m.size
    → memory_read_half (some m) a old be ≡ some (0, half_at m a be)
unfolding memory_read_half
memory_read_half-eq m a old true w h = ground (
  arith,
  peek-eq m a (omega arith),
  peek_next m a 1 w.addressable h,
  w.holds_bytes a,
  w.holds_bytes (a + 1),
  bit_or_disjoint 8 (m.bytes a) (m.bytes (a + 1)),
)
memory_read_half-eq m a old false w h = ground (
  arith,
  peek-eq m a (omega arith),
  peek_next m a 1 w.addressable h,
  w.holds_bytes a,
  w.holds_bytes (a + 1),
  bit_or_disjoint 8 (m.bytes (a + 1)) (m.bytes a),
)

pub memory_read_word-eq :
    (m : MemoryData) (a old : ℕ) (be : Bool)
    → IsBlock m
    → a + 3 < m.size
    → memory_read_word (some m) a old be ≡ some (0, word_at m a be)
unfolding memory_read_word
memory_read_word-eq m a old true w h = ground (
  arith,
  peek-eq m a (omega arith),
  peek_next m a 1 w.addressable (omega arith),
  peek_next m a 2 w.addressable (omega arith),
  peek_next m a 3 w.addressable h,
  w.holds_bytes a,
  w.holds_bytes (a + 1),
  w.holds_bytes (a + 2),
  w.holds_bytes (a + 3),
  word_of_bytes (m.bytes a) (m.bytes (a + 1)) (m.bytes (a + 2)) (m.bytes (a + 3)),
)
memory_read_word-eq m a old false w h = ground (
  arith,
  peek-eq m a (omega arith),
  peek_next m a 1 w.addressable (omega arith),
  peek_next m a 2 w.addressable (omega arith),
  peek_next m a 3 w.addressable h,
  w.holds_bytes a,
  w.holds_bytes (a + 1),
  w.holds_bytes (a + 2),
  w.holds_bytes (a + 3),
  word_of_bytes (m.bytes (a + 3)) (m.bytes (a + 2)) (m.bytes (a + 1)) (m.bytes a),
)

pub memory_write_byte-eq :
    (m : MemoryData) (a v : ℕ)
    → a < m.size
    → memory_write_byte (some m) a v ≡ some (0, some (stored m a v))
unfolding memory_write_byte
memory_write_byte-eq m a v h = ground (arith, poke-eq m a v h)

-- The block after a half word or a word is written.
abbrev pub stored_half : MemoryData → ℕ → ℕ → Bool → MemoryData
stored_half m a v true = stored (stored m a (u8 (v >>> 8))) (a + 1) (u8 v)
stored_half m a v false = stored (stored m (a + 1) (u8 (v >>> 8))) a (u8 v)

abbrev pub stored_word : MemoryData → ℕ → ℕ → Bool → MemoryData
stored_word m a v true =
    stored
      (stored (stored (stored m a (u8 (v >>> 24))) (a + 1) (u8 (v >>> 16))) (a + 2) (u8 (v >>> 8)))
      (a + 3) (u8 v)
stored_word m a v false =
    stored
      (stored (stored (stored m (a + 3) (u8 (v >>> 24))) (a + 2) (u8 (v >>> 16))) (a + 1)
        (u8 (v >>> 8)))
      a (u8 v)

pub memory_write_half-eq :
    (m : MemoryData) (a v : ℕ) (be : Bool)
    → m.size ≤ 2 ^ 32
    → a + 1 < m.size
    → memory_write_half (some m) a v be ≡ some (0, some (stored_half m a v be))
unfolding memory_write_half
memory_write_half-eq m a v true w h = ground (
  arith,
  poke-eq m a (u8 (v >>> 8)) (omega arith),
  poke_next (stored m a (u8 (v >>> 8))) a 1 w h (u8 v),
)
memory_write_half-eq m a v false w h = ground (
  arith,
  poke_next m a 1 w h (u8 (v >>> 8)),
  poke-eq (stored m (a + 1) (u8 (v >>> 8))) a (u8 v) (omega arith),
)

pub memory_write_word-eq :
    (m : MemoryData) (a v : ℕ) (be : Bool)
    → m.size ≤ 2 ^ 32
    → a + 3 < m.size
    → memory_write_word (some m) a v be ≡ some (0, some (stored_word m a v be))
unfolding memory_write_word
memory_write_word-eq m a v true w h =
    let m₁ = stored m a (u8 (v >>> 24)) in
    let m₂ = stored m₁ (a + 1) (u8 (v >>> 16)) in
    let m₃ = stored m₂ (a + 2) (u8 (v >>> 8)) in
    ground (
      arith,
      poke-eq m a (u8 (v >>> 24)) (omega arith),
      poke_next m₁ a 1 w (omega arith) (u8 (v >>> 16)),
      poke_next m₂ a 2 w (omega arith) (u8 (v >>> 8)),
      poke_next m₃ a 3 w h (u8 v),
    )
memory_write_word-eq m a v false w h =
    let m₁ = stored m (a + 3) (u8 (v >>> 24)) in
    let m₂ = stored m₁ (a + 2) (u8 (v >>> 16)) in
    let m₃ = stored m₂ (a + 1) (u8 (v >>> 8)) in
    ground (
      arith,
      poke_next m a 3 w h (u8 (v >>> 24)),
      poke_next m₁ a 2 w (omega arith) (u8 (v >>> 16)),
      poke_next m₂ a 1 w (omega arith) (u8 (v >>> 8)),
      poke-eq m₃ a (u8 v) (omega arith),
    )
