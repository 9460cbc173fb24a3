-- ===== src/LoadStore/RegisterOffset.antt =====
-- arm_load_store.c: LDR and LDRB with a register offset, against the offset of the manual.
use arm_sim.Base.{
  ℕ, zero, suc, ◌+◌, ◌^◌, ◌<◌, ◌≡◌, ◌∙◌, ap, subst, arith, refl, some, inl, inr, Bool-cases, Bool,
  true, false, ◌==◌, ◌&&◌, not, if◌then◌else◌,
}
use arm_sim.Host.{Host}
use arm_sim.Util.{get_bit, get_bits}
use arm_sim.Util.Laws.{get_bits-eq, get_bit-eq-bit_at}
use arm_sim.Memory.{MemoryData}
use arm_sim.Memory.Laws.{IsBlock}
use arm_sim.Core.{ArmCore}
use arm_sim.Core.File.{IsRegular, reg_at, cpsr_of, reg_at-lt, as_read-lt}
use arm_sim.DataProcessing.Barrel.{barrel, sign_cases}
use arm_sim.LoadStore.{Transfer, index_mode, arm_load_store_register_offset, shifted_offset}
use arm_sim.LoadStore.Single.{
  moved_base, effective, writes_back, last_byte, loaded, index_mode_loads,
}
use arm_sim.LoadStore.Scaled.{shifted_offset-eq-barrel}
use arm_sim.LoadStore.Handlers.{
  transfer_of, rm_value, scaled, rn-lt, rd-lt, rm-lt, register_offset-run,
}

-- The offset of the manual: the word shifted by the barrel shifter, where a count of 0 stands for 32
-- with LSR and ASR. ROR with a count of 0 is RRX, which this does not describe.
abbrev pub manual_offset : ℕ → ℕ → ℕ → ℕ
manual_offset shift n x = (barrel shift x (if n == 0 && not (shift == 0) then 32 else n)).operand

abbrev pub described : Host → ArmCore → ℕ → Transfer
described host p ins =
    transfer_of host p ins
      (manual_offset (get_bits ins 6 5) (get_bits ins 11 7) (rm_value host p ins))

module _ (host : Host) (register_m x cpsr : ℕ) (hx : x < 2 ^ 32) where
  shifted_offset-zero :
      (shift : ℕ)
      → shift < 3
      → shifted_offset host shift 0 register_m x cpsr ≡ manual_offset shift 0 x
  unfolding shifted_offset
  shifted_offset-zero zero h = ground (arith, hx)
  shifted_offset-zero (suc zero) h = ground (arith, hx)
  shifted_offset-zero (suc (suc zero)) h =
      ground (arith, hx, sign_cases x hx, get_bit-eq-bit_at x 31)
  shifted_offset-zero (suc (suc (suc k))) h = absurd (omega arith)

  shifted_offset-eq-manual :
      (shift n : ℕ)
      → shift < 4
      → n < 32
      → (shift == 3 && n == 0) ≡ false
      → shifted_offset host shift n register_m x cpsr ≡ manual_offset shift n x
  shifted_offset-eq-manual shift n hs hn rrx = elim (Bool-cases (n == 0)) [
    | inl e ↦
        subst (λ k. shifted_offset host shift k register_m x cpsr ≡ manual_offset shift k x) {x = 0}
          {y = n} (ground (arith, e)) (shifted_offset-zero shift (ground (arith, hs, rrx, e)))
    | inr e ↦
        let count : n ≡ (if n == 0 && not (shift == 0) then 32 else n) = ground (arith, e) in
        shifted_offset-eq-barrel host shift n register_m x cpsr (ground (arith, e)) hn hx
        ∙ ap (λ k. (barrel shift x k).operand) count
  ]

module _ (host : Host) (p : ArmCore) (w : IsRegular p) (ins : ℕ) (m : MemoryData)
    (block : IsBlock m) (memory : p.mem ≡ some m) where
  abbrev p_bit : Bool
  p_bit = get_bit ins 24 == 1

  abbrev w_bit : Bool
  w_bit = get_bit ins 21 == 1

  -- LDR and LDRB with an offset register shifted by an immediate, but for ROR with a count of 0, in the
  -- offset, pre-indexed and post-indexed forms, where the bytes lie in the block: the offset is
  -- that of the manual, the code is 0, Rd gets the word or the byte, then Rn the moved base if the
  -- form writes it, and nothing else changes; the core is regular again.
  pub arm_load_store_register_offset_loads :
      (j : ℕ)
      → j < 16
      → (not p_bit && w_bit) ≡ false
      → (get_bit ins 20 == 1) ≡ true
      → (get_bits ins 6 5 == 3 && get_bits ins 11 7 == 0) ≡ false
      → effective p_bit (described host p ins) + last_byte (described host p ins) < m.size
      → (p' : ArmCore) × (arm_load_store_register_offset host ins p ≡ some (0, p'))
        × (reg_at host p' j ≡ (
            if writes_back p_bit w_bit && get_bits ins 19 16 == j
            then moved_base (described host p ins)
            else if get_bits ins 15 12 == j
            then loaded host m (get_bit ins 22 == 1) (effective p_bit (described host p ins))
            else reg_at host p j))
        × (cpsr_of p' ≡ cpsr_of p)
        × (p'.mem ≡ p.mem)
        × IsRegular p'
  arm_load_store_register_offset_loads j hj legal load rrx inside =
      let shift = get_bits-eq ins 6 5 refl in
      let count = get_bits-eq ins 11 7 refl in
      let rm = get_bits ins 3 0 in
      let word = as_read-lt rm (reg_at host p rm) (reg_at-lt host p w rm (rm-lt host p w ins)) in
      let same : scaled host p ins ≡ described host p ins = ap (transfer_of host p ins) (
        shifted_offset-eq-manual host rm (rm_value host p ins) (cpsr_of p) word (get_bits ins 6 5)
          (get_bits ins 11 7) (omega arith) (omega arith) rrx) in
      let (p', runs, regs, cpsr_same, mem_same, regular) =
        index_mode_loads host p w m block memory (described host p ins) (rd-lt host p w ins)
          (rn-lt host p w ins) p_bit w_bit legal inside j hj load in
      (
        p',
        register_offset-run host p w ins
            ∙ ap (λ (t : Transfer). index_mode host p_bit w_bit t p) same
            ∙ runs,
        regs,
        cpsr_same,
        mem_same,
        regular,
      )
