-- ===== src/LoadStore/Single.antt =====
-- arm_load_store.c: what a single word or byte transfer does in each addressing mode.
use arm_sim.Base.{ℕ, ◌+◌, ◌^◌, ◌<◌, ◌≡◌, ◌∙◌, ap, arith, refl, some, Bool, true, false}
use arm_sim.Base.{◌==◌, ◌&&◌, ◌||◌, not, if◌then◌else◌}
use arm_sim.Host.{Host}
use arm_sim.Util.{u8, add32, sub32}
use arm_sim.Memory.{
  Memory, MemoryData, memory_read_byte, memory_read_word, memory_write_byte, memory_write_word,
}
use arm_sim.Memory.Laws.{
  IsBlock, word_at, stored, stored_word, memory_read_byte-eq, memory_read_word-eq,
  memory_write_byte-eq, memory_write_word-eq,
}
use arm_sim.Core.{ArmCore, as_read, arm_read_byte, arm_read_word, arm_write_byte, arm_write_word}
use arm_sim.Core.File.{
  IsRegular, reg_at, put_reg, cpsr_of, arm_read_register-eq, arm_write_register-eq, reg_at-put_reg,
  put_reg-IsRegular, cpsr_of-put_reg, if-IsRegular,
}
use arm_sim.LoadStore.{
  Transfer, u_bit_handle, b_bit_handle, immediate_offset, immediate_preindexing,
  immediate_postindexing, index_mode,
}

-- The base moved by the offset, the address of the access, and whether the base is written.
abbrev pub moved_base : Transfer → ℕ
moved_base t = if t.u_bit then add32 t.addr t.offset else sub32 t.addr t.offset

abbrev pub effective : Bool → Transfer → ℕ
effective p_bit t = if p_bit then moved_base t else t.addr

abbrev pub writes_back : Bool → Bool → Bool
writes_back p_bit w_bit = not p_bit || w_bit

-- The bytes past the first that an access touches.
abbrev pub last_byte : Transfer → ℕ
last_byte t = if t.b_bit then 0 else 3

moved_base-lt : (t : Transfer) → moved_base t < 2 ^ 32
moved_base-lt t = ground arith

pub word_at-lt : (m : MemoryData) (a : ℕ) (be : Bool) → IsBlock m → word_at m a be < 2 ^ 32
word_at-lt m a true w =
    omega
      (arith, w.holds_bytes a, w.holds_bytes (a + 1), w.holds_bytes (a + 2), w.holds_bytes (a + 3))
word_at-lt m a false w =
    omega
      (arith, w.holds_bytes a, w.holds_bytes (a + 1), w.holds_bytes (a + 2), w.holds_bytes (a + 3))

-- The value of the byte or word at an address.
abbrev pub loaded : Host → MemoryData → Bool → ℕ → ℕ
loaded host m b a = if b then m.bytes a else word_at m a host.endianess

-- The block with the low byte of a word or the whole word stored.
abbrev pub stored_at : Host → MemoryData → Bool → ℕ → ℕ → MemoryData
stored_at host m b a v = if b then stored m a (u8 v) else stored_word m a v host.endianess

abbrev pub based : Host → Bool → Transfer → ArmCore → ArmCore
based host wb t p = if wb then put_reg host t.register_n (moved_base t) p else p

abbrev pub with_memory : MemoryData → ArmCore → ArmCore
with_memory m p = record p { mem = some m }

module _ (host : Host) (p : ArmCore) (w : IsRegular p) (m : MemoryData) (block : IsBlock m)
    (memory : p.mem ≡ some m) (t : Transfer) (rd : t.register_d < 16) (rn : t.register_n < 16)
    (p_bit w_bit : Bool) (legal : (not p_bit && w_bit) ≡ false)
    (inside : effective p_bit t + last_byte t < m.size) where
  abbrev at : ℕ
  at = effective p_bit t

  reads :
      t.b_bit ≡ false
      → memory_read_word p.mem at 0 host.endianess ≡ some (0, word_at m at host.endianess)
  reads word =
      ap (λ (x : Memory). memory_read_word x at 0 host.endianess) memory
      ∙ memory_read_word-eq m at 0 host.endianess block (ground (arith, word))

  reads_byte : memory_read_byte p.mem at 0 ≡ some (0, m.bytes at)
  reads_byte =
      ap (λ (x : Memory). memory_read_byte x at 0) memory ∙ memory_read_byte-eq m at 0 (omega arith)

  loaded-lt : loaded host m t.b_bit at < 2 ^ 32
  loaded-lt = ground (arith, block.holds_bytes at, word_at-lt m at host.endianess block)

  abbrev after_load : ArmCore
  after_load = put_reg host t.register_d (loaded host m t.b_bit at) p

  after_load-IsRegular : IsRegular after_load
  after_load-IsRegular =
      put_reg-IsRegular host p w t.register_d rd (loaded host m t.b_bit at) loaded-lt

  b_bit_handle-load : b_bit_handle host true t.b_bit at t.register_d p ≡ some (0, after_load)
  unfolding b_bit_handle arm_read_byte arm_read_word
  b_bit_handle-load = ground (
    arith,
    reads,
    reads_byte,
    arm_write_register-eq host p w t.register_d rd (loaded host m t.b_bit at),
  )

  index_mode-load :
      t.l_bit ≡ true
      → index_mode host p_bit w_bit t p
        ≡ some (0, based host (writes_back p_bit w_bit) t after_load)
  unfolding index_mode immediate_offset immediate_preindexing immediate_postindexing u_bit_handle
  index_mode-load load = ground (
    arith,
    b_bit_handle-load,
    arm_write_register-eq host after_load after_load-IsRegular t.register_n rn (moved_base t),
  )

  -- The core after a load: the value in Rd, then the base, if it is written, in Rn.
  pub index_mode_loads :
      (j : ℕ)
      → j < 16
      → t.l_bit ≡ true
      → (p' : ArmCore) × (index_mode host p_bit w_bit t p ≡ some (0, p'))
        × (reg_at host p' j ≡ (
            if writes_back p_bit w_bit && t.register_n == j
            then moved_base t
            else if t.register_d == j
            then loaded host m t.b_bit at
            else reg_at host p j))
        × (cpsr_of p' ≡ cpsr_of p)
        × (p'.mem ≡ p.mem)
        × IsRegular p'
  index_mode_loads j hj load = (
    based host (writes_back p_bit w_bit) t after_load,
    index_mode-load load,
    ground (
      arith,
      reg_at-put_reg host p w t.register_d rd (loaded host m t.b_bit at) j loaded-lt hj,
      reg_at-put_reg host after_load after_load-IsRegular t.register_n rn (moved_base t) j
          (moved_base-lt t) hj,
    ),
    ground (
      arith,
      cpsr_of-put_reg host p t.register_d (loaded host m t.b_bit at) rd,
      cpsr_of-put_reg host after_load t.register_n (moved_base t) rn,
    ),
    unfold put_reg in ground arith,
    if-IsRegular (writes_back p_bit w_bit) (put_reg host t.register_n (moved_base t) after_load)
        after_load
        (put_reg-IsRegular host after_load after_load-IsRegular t.register_n rn (moved_base t)
          (moved_base-lt t))
        after_load-IsRegular,
  )

  abbrev source : ℕ
  source = as_read t.register_d (reg_at host p t.register_d)

  abbrev after_store : ArmCore
  after_store = with_memory (stored_at host m t.b_bit at source) p

  after_store-IsRegular : IsRegular after_store
  after_store-IsRegular = record { known_mode = w.known_mode; not_fiq = w.not_fiq; words = w.words }

  writes :
      t.b_bit ≡ false
      → memory_write_word p.mem at source host.endianess
        ≡ some (0, some (stored_word m at source host.endianess))
  writes word =
      ap (λ (x : Memory). memory_write_word x at source host.endianess) memory
      ∙ memory_write_word-eq m at source host.endianess block.addressable (ground (arith, word))

  writes_byte :
      memory_write_byte p.mem at (u8 (u8 source)) ≡ some (0, some (stored m at (u8 (u8 source))))
  writes_byte =
      ap (λ (x : Memory). memory_write_byte x at (u8 (u8 source))) memory
      ∙ memory_write_byte-eq m at (u8 (u8 source)) (omega arith)

  once : u8 (u8 source) ≡ u8 source
  once = omega arith

  b_bit_handle-store : b_bit_handle host false t.b_bit at t.register_d p ≡ some (0, after_store)
  unfolding b_bit_handle arm_write_byte arm_write_word
  b_bit_handle-store = ground (
    arith,
    arm_read_register-eq host p w t.register_d rd,
    writes,
    writes_byte,
    once,
    ap (stored m at) once,
  )

  index_mode-store :
      t.l_bit ≡ false
      → index_mode host p_bit w_bit t p
        ≡ some (0, based host (writes_back p_bit w_bit) t after_store)
  unfolding index_mode immediate_offset immediate_preindexing immediate_postindexing u_bit_handle
  index_mode-store store = ground (
    arith,
    b_bit_handle-store,
    arm_write_register-eq host after_store after_store-IsRegular t.register_n rn (moved_base t),
  )

  same_registers : (j : ℕ) → reg_at host after_store j ≡ reg_at host p j
  unfolding reg_at
  same_registers j = refl

  same_cpsr : cpsr_of after_store ≡ cpsr_of p
  unfolding cpsr_of
  same_cpsr = refl

  -- The core after a store: the block with the value stored, and the base, if it is written, in Rn.
  pub index_mode_stores :
      (j : ℕ)
      → j < 16
      → t.l_bit ≡ false
      → (p' : ArmCore) × (index_mode host p_bit w_bit t p ≡ some (0, p'))
        × (reg_at host p' j ≡ (
            if writes_back p_bit w_bit && t.register_n == j then moved_base t else reg_at host p j))
        × (cpsr_of p' ≡ cpsr_of p)
        × (p'.mem ≡ some (stored_at host m t.b_bit at source))
        × IsRegular p'
  index_mode_stores j hj store = (
    based host (writes_back p_bit w_bit) t after_store,
    index_mode-store store,
    ground (
      arith,
      same_registers j,
      reg_at-put_reg host after_store after_store-IsRegular t.register_n rn (moved_base t) j
          (moved_base-lt t) hj,
    ),
    ground (arith, same_cpsr, cpsr_of-put_reg host after_store t.register_n (moved_base t) rn),
    unfold put_reg in ground arith,
    if-IsRegular (writes_back p_bit w_bit) (put_reg host t.register_n (moved_base t) after_store)
        after_store
        (put_reg-IsRegular host after_store after_store-IsRegular t.register_n rn (moved_base t)
          (moved_base-lt t))
        after_store-IsRegular,
  )
