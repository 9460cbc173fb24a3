-- ===== src/LoadStore/Keeps.antt =====
-- arm_load_store.c: the handlers of single transfers, LDM and STM keep the machine.
use arm_sim.Base.{ℕ, ◌^◌, arith, Bool, ◌==◌}
use arm_sim.Host.{Host}
use arm_sim.Util.{u8, get_bits}
use arm_sim.Memory.Bytes.{IsRead}
use arm_sim.Registers.Words.{IsWord}
use arm_sim.Core.{
  arm_read_register, arm_write_register, arm_read_cpsr, arm_read_byte, arm_read_word,
}
use arm_sim.Core.Keeps.{Keeps, Keeps-pure, Keeps-if, Keeps-bind, Keeps-then}
use arm_sim.Core.Accesses.{
  Keeps-arm_read_register, Keeps-arm_write_register, Keeps-arm_read_cpsr, Keeps-arm_read_byte,
  Keeps-arm_read_word, Keeps-arm_write_byte, Keeps-arm_write_word,
}
use arm_sim.BranchOther.{when, undefined_instruction}
use arm_sim.BranchOther.Keeps.{Keeps-when, Keeps-last_write}
use arm_sim.LoadStore.{
  u_bit_handle, store_in, b_bit_handle, Transfer, immediate_offset, immediate_preindexing,
  immediate_postindexing, index_mode, arm_load_store_immediate_offset,
  arm_load_store_register_offset,
}

u_bit_handle-lt : (u : Bool) (a o : ℕ) → IsWord (u_bit_handle u a o)
unfolding u_bit_handle
u_bit_handle-lt u a o = ground arith

module _ (host : Host) where
  Keeps-store_in : (rd : ℕ) (r : ℕ × ℕ) → IsRead (2 ^ 32) r → Keeps IsWord (store_in host rd r)
  Keeps-store_in rd (err, v) h =
      Keeps-if (err == 0) _ _ (λ _. Keeps-last_write host rd v h.1) (λ _. Keeps-pure err h.0)

  Keeps-b_bit_handle : (l b : Bool) (a rd : ℕ) → Keeps IsWord (b_bit_handle host l b a rd)
  unfolding b_bit_handle
  Keeps-b_bit_handle l b a rd =
      Keeps-if l _ _
        (λ _.
          Keeps-if b _ _
            (λ _.
              Keeps-bind (arm_read_byte host a 0) _ (Keeps-arm_read_byte host a 0 (omega arith))
                (λ r h. Keeps-store_in rd r (h.0, let k = h.1 in omega arith)))
            (λ _.
              Keeps-bind (arm_read_word host a 0) _ (Keeps-arm_read_word host a 0 (omega arith))
                (λ r h. Keeps-store_in rd r h)))
        (λ _.
          Keeps-if b _ _
            (λ _.
              Keeps-bind (arm_read_register host rd) _ (Keeps-arm_read_register host rd)
                (λ v h. Keeps-arm_write_byte host a (u8 v)))
            (λ _.
              Keeps-bind (arm_read_register host rd) _ (Keeps-arm_read_register host rd)
                (λ v h. Keeps-arm_write_word host a v)))

  -- The code of a transfer, with the address that it goes to.
  abbrev IsPair : ℕ × ℕ → Type 0
  IsPair (err, a) = IsWord err × IsWord a

  module _ (t : Transfer) where
    Keeps-immediate_offset : Keeps IsPair (immediate_offset host t)
    unfolding immediate_offset
    Keeps-immediate_offset =
        let a = u_bit_handle t.u_bit t.addr t.offset in
        Keeps-bind (b_bit_handle host t.l_bit t.b_bit a t.register_d) _
          (Keeps-b_bit_handle t.l_bit t.b_bit a t.register_d)
          (λ err h. Keeps-pure (err, a) (h, u_bit_handle-lt t.u_bit t.addr t.offset))

    Keeps-immediate_preindexing : Keeps IsWord (immediate_preindexing host t)
    unfolding immediate_preindexing
    Keeps-immediate_preindexing =
        Keeps-bind (immediate_offset host t) _ Keeps-immediate_offset (λ r h.
          Keeps-then (when (r.0 == 0) (arm_write_register host t.register_n r.1)) _
            (Keeps-when (r.0 == 0) _ (λ _. Keeps-arm_write_register host t.register_n r.1 h.1))
            (Keeps-pure r.0 h.0))

    Keeps-immediate_postindexing : Keeps IsWord (immediate_postindexing host t)
    unfolding immediate_postindexing
    Keeps-immediate_postindexing =
        let a = u_bit_handle t.u_bit t.addr t.offset in
        Keeps-bind (b_bit_handle host t.l_bit t.b_bit t.addr t.register_d) _
          (Keeps-b_bit_handle t.l_bit t.b_bit t.addr t.register_d)
          (λ err h.
            Keeps-then (when (err == 0) (arm_write_register host t.register_n a)) _
              (Keeps-when (err == 0) _ (λ _.
                Keeps-arm_write_register host t.register_n a
                  (u_bit_handle-lt t.u_bit t.addr t.offset)))
              (Keeps-pure err h))

    Keeps-index_mode : (p_bit w_bit : Bool) → Keeps IsWord (index_mode host p_bit w_bit t)
    unfolding index_mode
    Keeps-index_mode p_bit w_bit =
        Keeps-if p_bit _ _
          (λ _.
            Keeps-if w_bit _ _ (λ _. Keeps-immediate_preindexing)
              (λ _.
                Keeps-bind (immediate_offset host t) _ Keeps-immediate_offset
                  (λ r h. Keeps-pure r.0 h.0)))
          (λ _.
            Keeps-if w_bit _ _ (λ _. Keeps-pure undefined_instruction (omega arith))
              (λ _. Keeps-immediate_postindexing))

  pub Keeps-arm_load_store_immediate_offset :
      (ins : ℕ) → Keeps IsWord (arm_load_store_immediate_offset host ins)
  unfolding arm_load_store_immediate_offset
  Keeps-arm_load_store_immediate_offset ins =
      let rn = get_bits ins 19 16 in
      Keeps-bind (arm_read_register host rn) _ (Keeps-arm_read_register host rn)
        (λ a h. Keeps-index_mode _ _ _)

  pub Keeps-arm_load_store_register_offset :
      (ins : ℕ) → Keeps IsWord (arm_load_store_register_offset host ins)
  unfolding arm_load_store_register_offset
  Keeps-arm_load_store_register_offset ins =
      let rm = get_bits ins 3 0 in
      let rn = get_bits ins 19 16 in
      Keeps-bind (arm_read_register host rm) _ (Keeps-arm_read_register host rm) (λ o _.
        Keeps-bind (arm_read_register host rn) _ (Keeps-arm_read_register host rn)
          (λ a h. Keeps-bind arm_read_cpsr _ Keeps-arm_read_cpsr (λ c k. Keeps-index_mode _ _ _)))
