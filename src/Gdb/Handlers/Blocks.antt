-- ===== src/Gdb/Handlers/Blocks.antt =====
-- gdb_protocol.c: the loops of read_memory and write_memory_binary on the bytes of the block.
use arm_sim.Base.{
  ℕ, zero, suc, ◌+◌, ◌-◌, ◌^◌, ◌≤◌, ◌<◌, ◌≡◌, refl, arith, min, ltb, if◌then◌else◌, some, List, [],
  ◌++◌,
}
use arm_sim.Host.{Host}
use arm_sim.Util.{add32}
use arm_sim.Memory.{MemoryData, memory_read_byte, memory_get_size, minus_one}
use arm_sim.Memory.Laws.{memory_read_byte-eq}
use arm_sim.Gdb.Text.{codes, hex_digits}
use arm_sim.Gdb.Session.{Session, gdb_send_buffer}
use arm_sim.Gdb.Handlers.{scan_range, read_bytes, read_memory}

-- The text of `n` bytes from `a` on.
abbrev pub text_of : (ℕ → ℕ) → ℕ → ℕ → List ℕ
text_of b zero a = []
text_of b (suc n) a = hex_digits 2 (b a) ++ text_of b n (a + 1)

past_end :
    (m : MemoryData) (a old : ℕ)
    → m.size ≤ a
    → memory_read_byte (some m) a old ≡ some (minus_one, old)
unfolding memory_read_byte
past_end m a old h = ground arith

module _ (host : Host) (m : MemoryData) (w : m.size < 2 ^ 32) where
  -- With `k` bytes of the block from `a` on, the loop gives the text of as many as are asked for.
  pub read_bytes-eq :
      (n k a : ℕ)
      → a + k ≡ m.size
      → read_bytes host (some m) n a ≡ some (text_of m.bytes (min n k) a)
  unfolding read_bytes
  read_bytes-eq zero k a e = ground arith
  read_bytes-eq (suc n) zero a e = ground (arith, past_end m a host.uninit (omega arith))
  read_bytes-eq (suc n) (suc k) a e =
      let here = memory_read_byte-eq m a host.uninit (omega arith) in
      let address : add32 a 1 ≡ a + 1 = omega arith in
      let both : min (suc n) (suc k) ≡ suc (min n k) = omega arith in
      rw (here, address, both, read_bytes-eq n k (a + 1) (omega arith)) refl

  -- On a block of less than 2 ^ 32 bytes, to a request that reads as `n` bytes from `a` on, the reply is the text of those that are in the block:
  -- all of them, or those up to its end; and E0E where `a` is past the block.
  pub read_memory-eq :
      (s : Session) (request rest : List ℕ) (a n : ℕ)
      → s.core.mem ≡ some m
      → scan_range request ≡ some ((a, n), rest)
      → read_memory host s request
        ≡ gdb_send_buffer s
            (if ltb a m.size then text_of m.bytes (min n (m.size - a)) a else codes "E0E")
  unfolding read_memory memory_get_size
  read_memory-eq s request rest a n is_m scanned =
      rw (scanned, is_m) (ground (arith, read_bytes-eq n (m.size - a) a))
