-- ===== src/LoadStore/Miscellaneous/Keeps.antt =====
-- arm_load_store.c: the half word, signed and double word transfers keep the machine.
use arm_sim.Base.{
  ℕ, ◌+◌, ◌^◌, ◌<◌, arith, Bool, ◌==◌, ◌&&◌, if◌then◌else◌, not, Option, none, some, bit_or,
}
use arm_sim.Host.{Host}
use arm_sim.Util.{u8, u16, add32, all_ones, ◌<<<◌, get_bit, get_bits}
use arm_sim.Util.Bounds.{set_bits-lt}
use arm_sim.Memory.Bytes.{IsRead}
use arm_sim.Registers.Words.{IsWord}
use arm_sim.Core.{
  M, pure, ◌>>=◌, ◌>>◌, arm_read_register, arm_write_register, arm_read_byte, arm_read_half,
  arm_read_word, arm_write_word,
}
use arm_sim.Core.Keeps.{Keeps, Any, Keeps-pure, Keeps-if, Keeps-bind, Keeps-then}
use arm_sim.Core.Accesses.{
  Keeps-arm_read_register, Keeps-arm_write_register, Keeps-arm_read_byte, Keeps-arm_read_half,
  Keeps-arm_read_word, Keeps-arm_write_half, Keeps-arm_write_word,
}
use arm_sim.BranchOther.{undefined_instruction}
use arm_sim.LoadStore.Miscellaneous.{
  moved, offset_of, addressing, double_allowed, load_double, store_double, signed_load, transfer,
  transfer_at, arm_load_store_miscellaneous,
}

signed_load-lt : (h v : ℕ) → IsWord v → IsWord (signed_load h v)
unfolding signed_load
signed_load-lt h v hv =
    let x = if get_bit v h == 1 then all_ones else 0 in set_bits-lt x h v (ground arith) hv

moved-lt : (u : Bool) (a o : ℕ) → IsWord (moved u a o)
moved-lt u a o = ground arith

module _ (host : Host) where
  Keeps-offset_of : (b : Bool) (ins : ℕ) → Keeps IsWord (offset_of host b ins)
  unfolding offset_of
  Keeps-offset_of b ins =
      Keeps-if b _ _
        (λ _. Keeps-pure (u8 (bit_or (get_bits ins 11 8 <<< 4) (get_bits ins 3 0))) (omega arith))
        (λ _. Keeps-arm_read_register host (get_bits ins 3 0))

  Keeps-addressing : (ins : ℕ) → Keeps Any (addressing host ins)
  unfolding addressing
  Keeps-addressing ins =
      let p = get_bit ins 24 == 1 in
      let u = get_bit ins 23 == 1 in
      let wb = get_bit ins 21 == 1 in
      let b = get_bit ins 22 == 1 in
      let rn = get_bits ins 19 16 in
      Keeps-if (p && not wb) _ _
        (λ _. Keeps-bind (arm_read_register host rn) _ (Keeps-arm_read_register host rn) (λ a _.
          Keeps-bind (offset_of host b ins) _ (Keeps-offset_of b ins) (λ o _. Keeps-pure _ tt)))
        (λ _.
          Keeps-if (p && wb) _ _
            (λ _. Keeps-bind (arm_read_register host rn) _ (Keeps-arm_read_register host rn) (λ a _.
              Keeps-bind (offset_of host b ins) _ (Keeps-offset_of b ins) (λ o _.
                Keeps-then (arm_write_register host rn (moved u a o)) _
                  (Keeps-arm_write_register host rn (moved u a o) (moved-lt u a o))
                  (Keeps-pure _ tt))))
            (λ _.
              Keeps-if (not p && not wb) _ _
                (λ _.
                  Keeps-bind (arm_read_register host rn) _ (Keeps-arm_read_register host rn)
                    (λ address _.
                      Keeps-bind (arm_read_register host rn) _ (Keeps-arm_read_register host rn)
                        (λ a _. Keeps-bind (offset_of host b ins) _ (Keeps-offset_of b ins) (λ o _.
                          Keeps-then (arm_write_register host rn (moved u a o)) _
                            (Keeps-arm_write_register host rn (moved u a o) (moved-lt u a o))
                            (Keeps-pure _ tt)))))
                (λ _. Keeps-pure none tt)))

  module _ (rd a : ℕ) where
    Keeps-load_double : Keeps IsWord (load_double host rd a)
    unfolding load_double
    Keeps-load_double =
        Keeps-bind (arm_read_word host a 0) _ (Keeps-arm_read_word host a 0 (omega arith)) (λ r h.
          Keeps-then (arm_write_register host rd r.1) _ (Keeps-arm_write_register host rd r.1 h.1) (
            Keeps-if (r.0 == 0) _ _
              (λ _.
                Keeps-bind (arm_read_word host (add32 a 4) r.1) _
                  (Keeps-arm_read_word host (add32 a 4) r.1 h.1)
                  (λ q k.
                    Keeps-then (arm_write_register host (rd + 1) q.1) _
                      (Keeps-arm_write_register host (rd + 1) q.1 k.1) (Keeps-pure q.0 k.0)))
              (λ _. Keeps-pure r.0 h.0)))

    Keeps-store_double : Keeps IsWord (store_double host rd a)
    unfolding store_double
    Keeps-store_double =
        Keeps-bind (arm_read_register host rd) _ (Keeps-arm_read_register host rd) (λ v _.
          Keeps-bind (arm_write_word host a v) _ (Keeps-arm_write_word host a v) (λ err h.
            Keeps-if (err == 0) _ _
              (λ _.
                Keeps-bind (arm_read_register host (rd + 1)) _
                  (Keeps-arm_read_register host (rd + 1))
                  (λ v₂ _. Keeps-arm_write_word host (add32 a 4) v₂))
              (λ _. Keeps-pure err h)))

    -- A read that ends in a write of the register, with the code of the read.
    Keeps-loads :
        (bound : ℕ) (m : M (ℕ × ℕ)) (f : ℕ → ℕ)
        → Keeps (IsRead bound) m
        → ((v : ℕ) → v < bound → IsWord (f v))
        → Keeps IsWord (do (err, v) ← m; arm_write_register host rd (f v); pure err)
    Keeps-loads bound m f km k = Keeps-bind m _ km (λ r h.
        Keeps-then (arm_write_register host rd (f r.1)) _
          (Keeps-arm_write_register host rd (f r.1) (k r.1 h.1)) (Keeps-pure r.0 h.0))

    Keeps-transfer : (bits : ℕ) → Keeps IsWord (transfer host bits rd a)
    unfolding transfer
    Keeps-transfer bits =
        Keeps-if (bits == 1) _ _
          (λ _.
            Keeps-bind (arm_read_register host rd) _ (Keeps-arm_read_register host rd)
              (λ v _. Keeps-arm_write_half host a (u16 v)))
          (λ _.
            Keeps-if (bits == 2) _ _
              (λ _.
                Keeps-if (double_allowed rd a) _ _ (λ _. Keeps-load_double)
                  (λ _. Keeps-pure undefined_instruction (omega arith)))
              (λ _.
                Keeps-if (bits == 3) _ _
                  (λ _.
                    Keeps-if (double_allowed rd a) _ _ (λ _. Keeps-store_double)
                      (λ _. Keeps-pure undefined_instruction (omega arith)))
                  (λ _.
                    Keeps-if (bits == 5) _ _
                      (λ _.
                        Keeps-loads (2 ^ 16) (arm_read_half host a 0) (λ v. v)
                          (Keeps-arm_read_half host a 0 (omega arith)) (λ v h. omega arith))
                      (λ _.
                        Keeps-if (bits == 6) _ _
                          (λ _.
                            Keeps-loads (2 ^ 8) (arm_read_byte host a 0) (signed_load 7)
                              (Keeps-arm_read_byte host a 0 (omega arith))
                              (λ v h. signed_load-lt 7 v (omega arith)))
                          (λ _.
                            Keeps-if (bits == 7) _ _
                              (λ _.
                                Keeps-loads (2 ^ 16) (arm_read_half host a 0) (signed_load 15)
                                  (Keeps-arm_read_half host a 0 (omega arith))
                                  (λ v h. signed_load-lt 15 v (omega arith)))
                              (λ _. Keeps-pure 0 (omega arith)))))))

  Keeps-transfer_at : (bits rd : ℕ) (a : Option ℕ) → Keeps IsWord (transfer_at host bits rd a)
  Keeps-transfer_at bits rd none = Keeps-pure undefined_instruction (omega arith)
  Keeps-transfer_at bits rd (some a) = Keeps-transfer rd a bits

  pub Keeps-arm_load_store_miscellaneous :
      (ins : ℕ) → Keeps IsWord (arm_load_store_miscellaneous host ins)
  unfolding arm_load_store_miscellaneous
  Keeps-arm_load_store_miscellaneous ins =
      Keeps-bind (addressing host ins) _ (Keeps-addressing ins)
        (λ a _. Keeps-transfer_at _ (get_bits ins 15 12) a)
