-- ===== src/Gdb/Handlers/Binary.antt =====
-- gdb_protocol.c: write_memory_binary on a text that gdb escapes.
use arm_sim.Base.{
  ℕ, ◌+◌, ◌-◌, ◌^◌, ◌≤◌, ◌<◌, ◌≡◌, ◌⊎◌, inl, inr, ◌∙◌, refl, sym, subst, arith, min, ltb, ◌==◌,
  if◌then◌else◌, ◌||◌, Bool, true, some, List, [], ◌∷◌, ◌++◌, bit_xor,
}
use arm_sim.Host.{Host}
use arm_sim.Util.{u8, add32}
use arm_sim.Memory.{MemoryData, memory_get_size}
use arm_sim.Memory.Laws.{stored, memory_write_byte-eq}
use arm_sim.Gdb.Text.{codes, count, hex_digits, after}
use arm_sim.Gdb.Session.{Session, gdb_send_data}
use arm_sim.Gdb.Handlers.{
  scan_range, unescape, write_bytes, write_memory_binary, with_memory, read_bytes,
}
use arm_sim.Gdb.Handlers.Blocks.{text_of, read_bytes-eq}

-- The bytes that gdb escapes: `#`, `$`, `}` and `*`.
abbrev pub is_special : ℕ → Bool
is_special c = c == 0x23 || (c == 0x24 || (c == 0x7d || c == 0x2a))

abbrev pub escape : List ℕ → List ℕ
escape [] = []
escape (c ∷ cs) = if is_special c then 0x7d ∷ bit_xor c 0x20 ∷ escape cs else c ∷ escape cs

abbrev pub AllBytes : List ℕ → Type 0
AllBytes [] = Unit
AllBytes (v ∷ vs) = (v < 2 ^ 8) × AllBytes vs

abbrev pub hex_text : List ℕ → List ℕ
hex_text [] = []
hex_text (v ∷ vs) = hex_digits 2 v ++ hex_text vs

flipped_twice : (c : ℕ) → is_special c ≡ true → bit_xor (bit_xor c 0x20) 0x20 ≡ c
flipped_twice c h = elim (one_of c h) [
  | inl e ↦ subst (λ d. bit_xor (bit_xor d 0x20) 0x20 ≡ d) {x = 0x23} (sym e) refl
  | inr (inl e) ↦ subst (λ d. bit_xor (bit_xor d 0x20) 0x20 ≡ d) {x = 0x24} (sym e) refl
  | inr (inr (inl e)) ↦ subst (λ d. bit_xor (bit_xor d 0x20) 0x20 ≡ d) {x = 0x7d} (sym e) refl
  | inr (inr (inr e)) ↦ subst (λ d. bit_xor (bit_xor d 0x20) 0x20 ≡ d) {x = 0x2a} (sym e) refl
]
  where
    one_of : (c : ℕ) → is_special c ≡ true → (c ≡ 0x23) ⊎ ((c ≡ 0x24) ⊎ ((c ≡ 0x7d) ⊎ (c ≡ 0x2a)))
    one_of c h = grind arith

-- The first byte of an escaped text is read back.
unescape-escape :
    (c : ℕ) (cs rest : List ℕ) → unescape (escape (c ∷ cs) ++ rest) ≡ some (c, escape cs ++ rest)
unfolding unescape
unescape-escape c cs rest = ground (arith, flipped_twice c)

-- What a run that writes `vs` from `a` on leaves: the texts of the bytes are those of `vs`, and the
-- bytes elsewhere and the size are as before.
pub record Wrote (m : MemoryData) (a : ℕ) (vs : List ℕ) (m' : MemoryData) : Type 0 where
  pub size_kept : m'.size ≡ m.size
  pub written : text_of m'.bytes (count vs) a ≡ hex_text vs
  pub below : (j : ℕ) → j < a → m'.bytes j ≡ m.bytes j
  pub above : (j : ℕ) → a + count vs ≤ j → m'.bytes j ≡ m.bytes j

-- The loop writes every byte, and leaves such a block.
pub record WritesAll (m : MemoryData) (a : ℕ) (vs content : List ℕ) : Type 0 where
  pub block : MemoryData
  pub runs : write_bytes (some m) (count vs) content a ≡ some (true, some block)
  pub wrote : Wrote m a vs block

write_bytes-WritesAll :
    (m : MemoryData) (a : ℕ) (vs rest : List ℕ)
    → AllBytes vs
    → a + count vs ≤ m.size
    → m.size < 2 ^ 32
    → WritesAll m a vs (escape vs ++ rest)
unfolding write_bytes
write_bytes-WritesAll m a [] rest h fits w = record {
  block = m;
  runs = refl;
  wrote = record { size_kept = refl; written = refl; below = λ j p. refl; above = λ j p. refl };
}
write_bytes-WritesAll m a (v ∷ vs) rest (hv, hs) fits w =
    let next = write_bytes-WritesAll (stored m a v) (a + 1) vs rest hs (omega arith) w in
    let store = memory_write_byte-eq m a v (omega arith) in
    let address : add32 a 1 ≡ a + 1 = omega arith in
    let byte : u8 v ≡ v = omega arith in
    let q = next.wrote in
    let first : next.block.bytes a ≡ v = q.below a (omega arith) ∙ ground arith in
    record {
      block = next.block;
      runs = rw (unescape-escape v vs rest, byte, store, address) next.runs;
      wrote = record {
        size_kept = q.size_kept;
        written = rw (first, q.written) refl;
        below = λ j p. q.below j (omega arith) ∙ ground arith;
        above = λ j p. q.above j (omega arith) ∙ ground arith;
      };
    }

-- What a request to write `vs` from `a` on leads to: the reply OK, with a block that holds them,
-- from which a request to read them back gets their text.
pub record Downloads (host : Host) (s : Session) (m : MemoryData) (a : ℕ) (vs request : List ℕ)
    : Type 0 where
  pub block : MemoryData
  pub replies :
      write_memory_binary s request ≡ gdb_send_data (with_memory s (some block)) (codes "OK")
  pub wrote : Wrote m a vs block
  pub reads_back : read_bytes host (some block) (count vs) a ≡ some (hex_text vs)

module _ (host : Host) (s : Session) (m : MemoryData) (is_m : s.core.mem ≡ some m)
    (w : m.size < 2 ^ 32) where
  -- A request to write bytes that lie in the block, escaped as gdb escapes them, stores these bytes
  -- and no others, and is answered by OK; the loop of read_memory then gives their text.
  pub write_memory_binary-Downloads :
      (a : ℕ) (vs request rest more : List ℕ)
      → scan_range request ≡ some ((a, count vs), rest)
      → after b':' request ≡ some (escape vs ++ more)
      → AllBytes vs
      → a < m.size
      → a + count vs ≤ m.size
      → Downloads host s m a vs request
  unfolding write_memory_binary memory_get_size
  write_memory_binary-Downloads a vs request rest more range content h start fits =
      let done = write_bytes-WritesAll m a vs more h fits w in
      let q = done.wrote in
      let inside : ltb a m.size ≡ true = ground arith in
      let same = q.size_kept in
      let all : min (count vs) (done.block.size - a) ≡ count vs = omega arith in
      record {
        block = done.block;
        replies = rw (range, content, is_m, inside, done.runs) refl;
        wrote = q;
        reads_back =
            read_bytes-eq host done.block (omega arith) (count vs) (done.block.size - a) a
              (omega arith)
            ∙ rw (all, q.written) refl;
      }
