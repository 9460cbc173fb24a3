-- ===== src/LoadStore/Multiple/Loads.antt =====
-- arm_load_store.c: what LDM loads, and where from.
use arm_sim.Base.{
  ℕ, ◌+◌, ◌*◌, ◌≤◌, ◌<◌, ◌^◌, ◌≡◌, ◌∙◌, refl, arith, ◌==◌, Bool-cases, inl, inr, if◌then◌else◌,
  ◌&&◌, true, false, some,
}
use arm_sim.Host.{Host}
use arm_sim.Util.{get_bit, get_bits}
use arm_sim.Memory.{MemoryData}
use arm_sim.Memory.Laws.{IsBlock}
use arm_sim.Core.{ArmCore, as_read}
use arm_sim.Core.File.{
  IsRegular, reg_at, put_reg, cpsr_of, arm_read_register-eq, arm_write_register-eq, reg_at-put_reg,
  put_reg-IsRegular, cpsr_of-put_reg, reg_at-lt, as_read-lt,
}
use arm_sim.LoadStore.Multiple.Modes.{places, span-eq-places, places-lt, base_register-lt}
use arm_sim.LoadStore.Multiple.{count_bits, Span, transfer_loop, arm_load_store_multiple}
use arm_sim.LoadStore.Multiple.LoadLoop.{
  word_for, Loads, transfer_loop-Loads, mem-put_reg, out-put_reg,
}

-- The handler for LDM: neither the S bit with the pc in the list, nor FIQ mode.
module _ (host : Host) (p : ArmCore) (w : IsRegular p) (m : MemoryData) (block : IsBlock m)
    (memory : p.mem ≡ some m) (small : m.size < 2 ^ 32) (ins : ℕ) where
  abbrev rn : ℕ
  rn = get_bits ins 19 16

  abbrev list : ℕ
  list = get_bits ins 15 0

  -- The number of registers in the list, and where the transfer begins and the base ends.
  abbrev pub listed : ℕ
  listed = count_bits list 16 0

  abbrev base : ℕ
  base = as_read rn (reg_at host p rn)

  abbrev pub ends : Span
  ends = places ins base

  rn-lt : rn < 16
  rn-lt = base_register-lt ins

  base-lt : base < 2 ^ 32
  base-lt = as_read-lt rn (reg_at host p rn) (reg_at-lt host p w rn rn-lt)

  ends-lt : ends.w_adress < 2 ^ 32
  ends-lt = places-lt ins base base-lt

  -- The loop, and then the base.
  module _ (load : (get_bit ins 20 == 1) ≡ true)
      (plain : (get_bit ins 22 == 1 && get_bit ins 15 == 1) ≡ false) (q : ArmCore)
      (ran : transfer_loop host true list 16 0 ends.address host.uninit p ≡ some (tt, q))
      (l : Loads host m p list 16 0 ends.address q) where
    based :
        (get_bit ins 21 == 1) ≡ true
        → arm_load_store_multiple host ins p ≡ some (0, put_reg host rn ends.w_adress q)
    unfolding arm_load_store_multiple
    based on =
        rw
          (
            arm_read_register-eq host p w rn rn-lt,
            span-eq-places ins base base-lt,
            load,
            ran,
            plain,
            on,
            arm_write_register-eq host q l.regular rn rn-lt ends.w_adress,
          )
          refl

    unbased : (get_bit ins 21 == 1) ≡ false → arm_load_store_multiple host ins p ≡ some (0, q)
    unfolding arm_load_store_multiple
    unbased off =
        rw
          (
            arm_read_register-eq host p w rn rn-lt,
            span-eq-places ins base base-lt,
            load,
            ran,
            plain,
            off,
          )
          refl

    loaded :
        (j : ℕ)
        → j < 16
        → reg_at host q j ≡ (
            if get_bit list j == 1
            then word_for host m j (ends.address + 4 * count_bits list j 0)
            else reg_at host p j)
    loaded j h = l.words j h ∙ ground (arith, h)

  -- LDM of registers whose words are all in the block, in each of the four address modes of the
  -- manual, but for S with the pc in the list: the code is 0; each register of the list holds the
  -- word at its place, which is four bytes for each listed register below it after the lowest address
  -- of the mode, the pc with its two low bits clear; the base, if it is written, is moved up or
  -- down by four for each register, also where the list has it; the other registers, the CPSR, the
  -- memory and the output stay.
  pub arm_load_store_multiple_loads :
      (get_bit ins 20 == 1) ≡ true
      → (get_bit ins 22 == 1 && get_bit ins 15 == 1) ≡ false
      → ends.address + 4 * listed ≤ m.size
      → (p' : ArmCore) × (arm_load_store_multiple host ins p ≡ some (0, p'))
        × ((j : ℕ)
            → j < 16
            → reg_at host p' j ≡ (
                if get_bit ins 21 == 1 && rn == j
                then ends.w_adress
                else if get_bit list j == 1
                then word_for host m j (ends.address + 4 * count_bits list j 0)
                else reg_at host p j))
        × (cpsr_of p' ≡ cpsr_of p)
        × (p'.mem ≡ p.mem)
        × (p'.out ≡ p.out)
        × IsRegular p'
  arm_load_store_multiple_loads load plain inside =
      let (q, ran, l) =
        transfer_loop-Loads host m block small list 16 0 ends.address host.uninit p w memory
          (omega arith) inside in
      elim (Bool-cases (get_bit ins 21 == 1)) [
        | inl on ↦ (
          put_reg host rn ends.w_adress q,
          based load plain q ran l on,
          λ j h.
              reg_at-put_reg host q l.regular rn rn-lt ends.w_adress j ends-lt h
              ∙ rw (on, loaded load plain q ran l j h) refl,
          cpsr_of-put_reg host q rn ends.w_adress rn-lt ∙ l.status,
          mem-put_reg host rn ends.w_adress q ∙ l.memory,
          out-put_reg host rn ends.w_adress q ∙ l.output,
          put_reg-IsRegular host q l.regular rn rn-lt ends.w_adress ends-lt,
        )
        | inr off ↦ (
          q,
          unbased load plain q ran l off,
          λ j h. rw off (loaded load plain q ran l j h),
          l.status,
          l.memory,
          l.output,
          l.regular,
        )
      ]
