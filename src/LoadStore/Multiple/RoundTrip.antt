-- ===== src/LoadStore/Multiple/RoundTrip.antt =====
-- arm_load_store.c: registers pushed by STMDB with write-back and popped by LDMIA with write-back.
use arm_sim.Base.{
  ℕ, ◌+◌, ◌-◌, ◌*◌, ◌%◌, ◌^◌, ◌≤◌, ◌<◌, ◌≡◌, ◌∙◌, sym, ap, arith, ◌==◌, ==_iff, Bool-cases, inl,
  inr, bit_and, ◌||◌, if◌then◌else◌, true, false, some,
}
use mathlib.Core.Option.{some-injective}
use arm_sim.Host.{Host}
use arm_sim.Util.{get_bit, get_bits}
use arm_sim.Memory.{MemoryData}
use arm_sim.Memory.Laws.{IsBlock, word_at}
use arm_sim.Memory.Access.{SameBut}
use arm_sim.Core.{ArmCore, as_read}
use arm_sim.Core.File.{IsRegular, reg_at, put_reg, cpsr_of, reg_at-put_reg, reg_at-lt}
use arm_sim.LoadStore.Single.{with_memory}
use arm_sim.LoadStore.Multiple.{count_bits, arm_load_store_multiple}
use arm_sim.LoadStore.Multiple.StoreLoop.{with_memory-IsRegular}
use arm_sim.LoadStore.Multiple.LoadLoop.{mem-put_reg}
use arm_sim.LoadStore.Multiple.Loads.{arm_load_store_multiple_loads}
use arm_sim.LoadStore.Multiple.Stores.{arm_load_store_multiple_stores}

-- The base `rn` and the list of an instruction, with write-back and without S, that decrements before
-- it stores, or increments after it has loaded.
pub record IsPush (ins rn list : ℕ) : Type 0 where
  pub base : get_bits ins 19 16 ≡ rn
  pub registers : get_bits ins 15 0 ≡ list
  pub before : (get_bit ins 24 == 1) ≡ true
  pub down : (get_bit ins 23 == 1) ≡ false
  pub writes_back : (get_bit ins 21 == 1) ≡ true
  pub stores : (get_bit ins 20 == 1) ≡ false

pub record IsPop (ins rn list : ℕ) : Type 0 where
  pub base : get_bits ins 19 16 ≡ rn
  pub registers : get_bits ins 15 0 ≡ list
  pub after : (get_bit ins 24 == 1) ≡ false
  pub up : (get_bit ins 23 == 1) ≡ true
  pub plain : (get_bit ins 22 == 1) ≡ false
  pub writes_back : (get_bit ins 21 == 1) ≡ true
  pub loads : (get_bit ins 20 == 1) ≡ true

module _ (host : Host) (p : ArmCore) (w : IsRegular p) (m : MemoryData) (block : IsBlock m)
    (memory : p.mem ≡ some m) (small : m.size < 2 ^ 32) (rn list : ℕ) (rn-lt : rn < 15) where
  abbrev pub base : ℕ
  base = reg_at host p rn

  abbrev pub listed : ℕ
  listed = count_bits list 16 0

  -- What a push leaves.
  record Pushed (p₁ : ArmCore) : Type 0 where
    block_after : MemoryData
    is_block : IsBlock block_after
    core_after : p₁ ≡ put_reg host rn (base - 4 * listed) (with_memory block_after p)
    words :
        (j : ℕ)
        → j < 16
        → get_bit list j ≡ 1
        → word_at block_after (base - 4 * listed + 4 * count_bits list j 0) host.endianess
          ≡ as_read j (reg_at host p j)
    others : SameBut (base - 4 * listed) (4 * listed) m block_after

  push-Pushed :
      (push : ℕ) (p₁ : ArmCore)
      → IsPush push rn list
      → 4 * listed ≤ base
      → base ≤ m.size
      → arm_load_store_multiple host push p ≡ some (0, p₁)
      → Pushed p₁
  push-Pushed push p₁ q room inside ran =
      let stored = arm_load_store_multiple_stores host p w m block memory small push q.stores in
      let not_pc : (rn == 15) ≡ false = ground (arith, rn-lt) in
      let fits = reg_at-lt host p w rn (omega arith) in
      let wrapped : (base + 4294967296 - 4 * listed) % 4294967296 ≡ base - 4 * listed =
        omega arith in
      let (m', runs, words, others, after) =
        (rw (q.base, q.registers, q.before, q.down, q.writes_back, not_pc, wrapped) at stored)
          (omega arith) in
      record {
        block_after = m';
        is_block = after;
        core_after = ap (λ (r : ℕ × ArmCore). r.1) (some-injective _ _ (sym ran ∙ runs));
        words = words;
        others = others;
      }

  -- What the pop gives register `j`, whose place in the block holds `v`.
  restored :
      (r : ArmCore) (j : ℕ)
      → get_bit list 15 ≡ 0
      → (v : ℕ) → (get_bit list j ≡ 1 → v ≡ as_read j (reg_at host p j))
      → (if rn == j
          then base
          else if get_bit list j == 1
          then if j == 15 then bit_and v 0xfffffffc else v
          else reg_at host r j)
        ≡ (if rn == j || get_bit list j == 1 then reg_at host p j else reg_at host r j)
  restored r j no_pc v word = elim (Bool-cases (rn == j)) [
    | inl e ↦ let same = ap (reg_at host p) ((==_iff rn j).0 e) in ground (arith, e, same)
    | inr e ↦ elim (Bool-cases (get_bit list j == 1)) [
      | inl on ↦
          let set = (==_iff (get_bit list j) 1).0 on in
          let held = word set in
          elim (Bool-cases (j == 15)) [
            | inl f ↦
                let clash : get_bit list 15 ≡ 1 =
                  ap (get_bit list) (sym ((==_iff j 15).0 f)) ∙ set in
                absurd (omega (arith, clash, no_pc))
            | inr f ↦ ground (arith, e, on, f, held)
          ]
      | inr off ↦ ground (arith, e, off)
    ]
  ]

  -- A block of registers without the pc is pushed by STMDB with write-back, and popped by
  -- LDMIA with write-back on a regular core with the same memory and the same base: the
  -- registers of the block and the base get the words that they had, whatever the others and the
  -- block hold in between, and the other registers, the CPSR and the memory stay.
  pub arm_load_store_multiple_restores :
      (push pop : ℕ) (p₁ r : ArmCore)
      → IsPush push rn list
      → IsPop pop rn list
      → get_bit list 15 ≡ 0
      → 4 * listed ≤ base
      → base ≤ m.size
      → arm_load_store_multiple host push p ≡ some (0, p₁)
      → IsRegular r
      → r.mem ≡ p₁.mem
      → reg_at host r rn ≡ reg_at host p₁ rn
      → (r' : ArmCore) × (arm_load_store_multiple host pop r ≡ some (0, r'))
        × ((j : ℕ)
            → j < 16
            → reg_at host r' j
              ≡ (if rn == j || get_bit list j == 1 then reg_at host p j else reg_at host r j))
        × (cpsr_of r' ≡ cpsr_of r)
        × (r'.mem ≡ r.mem)
  arm_load_store_multiple_restores push pop p₁ r is_push is_pop no_pc room inside ran wr same_mem
        same_base =
      let q = push-Pushed push p₁ is_push room inside ran in
      let m' = q.block_after in
      let not_pc : (rn == 15) ≡ false = ground (arith, rn-lt) in
      let fits = reg_at-lt host p w rn (omega arith) in
      let holds : r.mem ≡ some m' =
        same_mem
        ∙ ap (λ (c : ArmCore). c.mem) q.core_after
        ∙ mem-put_reg host rn (base - 4 * listed) (with_memory m' p) in
      let at_low : reg_at host r rn ≡ base - 4 * listed =
        same_base
        ∙ ap (λ (c : ArmCore). reg_at host c rn) q.core_after
        ∙ reg_at-put_reg host (with_memory m' p) (with_memory-IsRegular m' p w) rn (omega arith)
            (base - 4 * listed) rn (omega arith) (omega arith)
        ∙ ground arith in
      let same_size = q.others.same_size in
      let loaded =
        arm_load_store_multiple_loads host r wr m' q.is_block holds (omega arith) pop is_pop.loads
          (ground (arith, is_pop.plain)) in
      let back : (base - 4 * listed + 4 * listed) % 4294967296 ≡ base = omega arith in
      let (r', runs, regs, status, mem_same, _, _) =
        (rw
            (
              is_pop.base, is_pop.registers, is_pop.after, is_pop.up, is_pop.writes_back, not_pc,
              at_low, back,
            )
            at loaded)
          (omega (arith, same_size)) in
      (
        r',
        runs,
        λ j h.
            regs j h
            ∙ restored r j no_pc
                (word_at m' (base - 4 * listed + 4 * count_bits list j 0) host.endianess)
                (q.words j h),
        status,
        mem_same,
      )
