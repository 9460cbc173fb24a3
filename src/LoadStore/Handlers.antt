-- ===== src/LoadStore/Handlers.antt =====
-- arm_load_store.c: LDR, LDRB, STR and STRB as instructions, and the scaled register offset.
use arm_sim.Base.{ℕ, ◌+◌, ◌/◌, ◌%◌, ◌^◌, ◌<◌, ◌≡◌, ◌∙◌, arith, refl, some, Bool, true, false}
use arm_sim.Base.{◌==◌, ◌&&◌, not, if◌then◌else◌}
use arm_sim.Host.{Host}
use arm_sim.Util.{get_bit, get_bits}
use arm_sim.Util.Laws.{get_bits-eq}
use arm_sim.Memory.{MemoryData}
use arm_sim.Memory.Laws.{IsBlock}
use arm_sim.Core.{ArmCore, as_read}
use arm_sim.Core.File.{IsRegular, reg_at, cpsr_of, arm_read_register-eq, arm_read_cpsr-eq}
use arm_sim.LoadStore.{
  Transfer, index_mode, arm_load_store_immediate_offset, arm_load_store_register_offset,
  shifted_offset,
}
use arm_sim.LoadStore.Single.{
  moved_base, effective, writes_back, last_byte, loaded, stored_at, index_mode_loads,
  index_mode_stores,
}

field-lt : (ins h l : ℕ) → get_bits ins h l ≡ ins / 2 ^ l % 2 ^ 4 → get_bits ins h l < 16
field-lt ins h l e = omega (arith, e)

-- The transfer that an instruction describes, for an offset.
abbrev pub transfer_of : Host → ArmCore → ℕ → ℕ → Transfer
transfer_of host p ins offset = record {
  l_bit = get_bit ins 20 == 1;
  u_bit = get_bit ins 23 == 1;
  b_bit = get_bit ins 22 == 1;
  register_n = get_bits ins 19 16;
  register_d = get_bits ins 15 12;
  addr = as_read (get_bits ins 19 16) (reg_at host p (get_bits ins 19 16));
  offset = offset;
}

-- The two forms of offset.
abbrev pub immediate : Host → ArmCore → ℕ → Transfer
immediate host p ins = transfer_of host p ins (get_bits ins 11 0)

abbrev pub rm_value : Host → ArmCore → ℕ → ℕ
rm_value host p ins = as_read (get_bits ins 3 0) (reg_at host p (get_bits ins 3 0))

abbrev pub scaled : Host → ArmCore → ℕ → Transfer
scaled host p ins = transfer_of host p ins (
    shifted_offset host (get_bits ins 6 5) (get_bits ins 11 7) (get_bits ins 3 0)
      (rm_value host p ins) (cpsr_of p))

module _ (host : Host) (p : ArmCore) (w : IsRegular p) (ins : ℕ) where
  pub rn-lt : get_bits ins 19 16 < 16
  rn-lt = field-lt ins 19 16 (get_bits-eq ins 19 16 refl)

  pub rd-lt : get_bits ins 15 12 < 16
  rd-lt = field-lt ins 15 12 (get_bits-eq ins 15 12 refl)

  pub rm-lt : get_bits ins 3 0 < 16
  rm-lt = field-lt ins 3 0 (get_bits-eq ins 3 0 refl)

  abbrev p_bit : Bool
  p_bit = get_bit ins 24 == 1

  abbrev w_bit : Bool
  w_bit = get_bit ins 21 == 1

  immediate_offset-run :
      arm_load_store_immediate_offset host ins p
      ≡ index_mode host p_bit w_bit (immediate host p ins) p
  unfolding arm_load_store_immediate_offset
  immediate_offset-run = ground (arith, arm_read_register-eq host p w (get_bits ins 19 16) rn-lt)

  pub register_offset-run :
      arm_load_store_register_offset host ins p ≡ index_mode host p_bit w_bit (scaled host p ins) p
  unfolding arm_load_store_register_offset
  register_offset-run = ground (
    arith,
    arm_read_register-eq host p w (get_bits ins 19 16) rn-lt,
    arm_read_register-eq host p w (get_bits ins 3 0) rm-lt,
    arm_read_cpsr-eq p,
  )

  module _ (m : MemoryData) (block : IsBlock m) (memory : p.mem ≡ some m)
      (legal : (not p_bit && w_bit) ≡ false) where
    -- LDR and LDRB with an immediate offset, in the offset, pre-indexed and post-indexed forms, where
    -- the bytes lie in the block: the code is 0, Rd gets the word or the byte, then Rn the moved base if
    -- the form writes it, and nothing else changes; the core is regular again.
    pub arm_load_store_immediate_offset_loads :
        (j : ℕ)
        → j < 16
        → (get_bit ins 20 == 1) ≡ true
        → effective p_bit (immediate host p ins) + last_byte (immediate host p ins) < m.size
        → (p' : ArmCore) × (arm_load_store_immediate_offset host ins p ≡ some (0, p'))
          × (reg_at host p' j ≡ (
              if writes_back p_bit w_bit && get_bits ins 19 16 == j
              then moved_base (immediate host p ins)
              else if get_bits ins 15 12 == j
              then loaded host m (get_bit ins 22 == 1) (effective p_bit (immediate host p ins))
              else reg_at host p j))
          × (cpsr_of p' ≡ cpsr_of p)
          × (p'.mem ≡ p.mem)
          × IsRegular p'
    arm_load_store_immediate_offset_loads j hj load inside =
        let (p', runs, regs, cpsr_same, mem_same, regular) =
          index_mode_loads host p w m block memory (immediate host p ins) rd-lt rn-lt p_bit w_bit
            legal inside j hj load in
        (p', immediate_offset-run ∙ runs, regs, cpsr_same, mem_same, regular)

    -- STR and STRB with an immediate offset, in the same forms: the code is 0, the block gets the
    -- low byte of Rd or the whole word at the address, Rn the moved base if the form writes it, and
    -- nothing else changes; the core is regular again.
    pub arm_load_store_immediate_offset_stores :
        (j : ℕ)
        → j < 16
        → (get_bit ins 20 == 1) ≡ false
        → effective p_bit (immediate host p ins) + last_byte (immediate host p ins) < m.size
        → (p' : ArmCore) × (arm_load_store_immediate_offset host ins p ≡ some (0, p'))
          × (reg_at host p' j ≡ (
              if writes_back p_bit w_bit && get_bits ins 19 16 == j
              then moved_base (immediate host p ins)
              else reg_at host p j))
          × (cpsr_of p' ≡ cpsr_of p)
          × (p'.mem
              ≡ some (
                  stored_at host m
                    (get_bit ins 22 == 1)
                    (effective p_bit (immediate host p ins))
                    (as_read (get_bits ins 15 12) (reg_at host p (get_bits ins 15 12)))))
          × IsRegular p'
    arm_load_store_immediate_offset_stores j hj store inside =
        let (p', runs, regs, cpsr_same, mem_new, regular) =
          index_mode_stores host p w m block memory (immediate host p ins) rd-lt rn-lt p_bit w_bit
            legal inside j hj store in
        (p', immediate_offset-run ∙ runs, regs, cpsr_same, mem_new, regular)
