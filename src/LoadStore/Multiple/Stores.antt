-- ===== src/LoadStore/Multiple/Stores.antt =====
-- arm_load_store.c: what STM stores, and where.
use arm_sim.Base.{
  ℕ, ◌+◌, ◌-◌, ◌*◌, ◌≤◌, ◌<◌, ◌^◌, ◌≡◌, refl, subst, arith, ◌==◌, Bool-cases, inl, inr,
  if◌then◌else◌, false, some,
}
use arm_sim.Host.{Host}
use arm_sim.Util.{get_bit, get_bits}
use arm_sim.Memory.{MemoryData}
use arm_sim.Memory.Laws.{IsBlock, word_at}
use arm_sim.Memory.Access.{SameBut}
use arm_sim.Core.{ArmCore, as_read}
use arm_sim.Core.File.{
  IsRegular, reg_at, put_reg, reg_at-lt, as_read-lt, arm_read_register-eq, arm_write_register-eq,
}
use arm_sim.LoadStore.Single.{with_memory}
use arm_sim.LoadStore.Multiple.Modes.{places, span-eq-places, base_register-lt}
use arm_sim.LoadStore.Multiple.{count_bits, Span, transfer_loop, arm_load_store_multiple}
use arm_sim.LoadStore.Multiple.StoreLoop.{transfer_loop-Stores, with_memory-IsRegular}

-- The handler for STM.
module _ (host : Host) (p : ArmCore) (w : IsRegular p) (m : MemoryData) (block : IsBlock m)
    (memory : p.mem ≡ some m) (small : m.size < 2 ^ 32) (ins : ℕ) where
  abbrev rn : ℕ
  rn = get_bits ins 19 16

  abbrev list : ℕ
  list = get_bits ins 15 0

  -- The number of registers in the list, and where the transfer begins and the base ends.
  abbrev pub listed : ℕ
  listed = count_bits list 16 0

  abbrev base : ℕ
  base = as_read rn (reg_at host p rn)

  abbrev pub ends : Span
  ends = places ins base

  rn-lt : rn < 16
  rn-lt = base_register-lt ins

  base-lt : base < 2 ^ 32
  base-lt = as_read-lt rn (reg_at host p rn) (reg_at-lt host p w rn rn-lt)

  stored_run :
      (m' : MemoryData)
      → (get_bit ins 20 == 1) ≡ false
      → transfer_loop host false list 16 0 ends.address host.uninit p ≡ some (tt, with_memory m' p)
      → arm_load_store_multiple host ins p
        ≡ some (
          0,
          if get_bit ins 21 == 1
              then put_reg host rn ends.w_adress (with_memory m' p)
              else with_memory m' p,
        )
  unfolding arm_load_store_multiple
  stored_run m' store ran = elim (Bool-cases (get_bit ins 21 == 1)) [
    | inl on ↦
        rw
          (
            arm_read_register-eq host p w rn rn-lt,
            span-eq-places ins base base-lt,
            store,
            ran,
            on,
            arm_write_register-eq host (with_memory m' p) (with_memory-IsRegular m' p w) rn rn-lt
                ends.w_adress,
          )
          refl
    | inr off ↦
        rw
          (arm_read_register-eq host p w rn rn-lt, span-eq-places ins base base-lt, store, ran, off)
          refl
  ]

  -- STM, in each of the four address modes of the manual, to places that are all in the block: the code
  -- is 0; each register of the list, as the code reads it, is the word at its place, which is four
  -- bytes for each listed register below it after the lowest address of the mode, also the base,
  -- whose old value is stored; no other byte of the block changes; the base, if it is written, is
  -- moved up or down by four for each register, and nothing else of the core changes.
  pub arm_load_store_multiple_stores :
      (get_bit ins 20 == 1) ≡ false
      → ends.address + 4 * listed ≤ m.size
      → (m' : MemoryData) × (arm_load_store_multiple host ins p
          ≡ some (
            0,
            if get_bit ins 21 == 1
                then put_reg host rn ends.w_adress (with_memory m' p)
                else with_memory m' p,
          ))
        × ((j : ℕ)
            → j < 16
            → get_bit list j ≡ 1
            → word_at m' (ends.address + 4 * count_bits list j 0) host.endianess
              ≡ as_read j (reg_at host p j))
        × SameBut ends.address (4 * listed) m m'
        × IsBlock m'
  arm_load_store_multiple_stores store inside =
      let (m', ran, q) =
        transfer_loop-Stores host list 16 0 ends.address host.uninit p m w block small memory
          (omega arith) inside in
      let word_of : (j : ℕ)
          → j < 16
          → get_bit list j ≡ 1
          → word_at m' (ends.address + 4 * count_bits list j 0) host.endianess
            ≡ as_read j (reg_at host p j) =
        λ j h set.
          subst
            (λ k.
              word_at m' (ends.address + 4 * count_bits list k 0) host.endianess
              ≡ as_read j (reg_at host p j))
            {x = j - 0} {y = j} (omega arith) (q.words j (omega arith) h set) in
      (m', stored_run m' store ran, word_of, q.others, q.block)
