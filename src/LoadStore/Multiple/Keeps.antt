-- ===== src/LoadStore/Multiple/Keeps.antt =====
-- arm_load_store.c: LDM and STM keep the machine.
use arm_sim.Base.{ℕ, zero, suc, ◌+◌, ◌^◌, ◌<◌, arith, Bool, ◌==◌, ◌&&◌, if◌then◌else◌, bit_and}
use arm_sim.Bits.{bit_and-le}
use arm_sim.Host.{Host}
use arm_sim.Util.{add32, mul32, get_bit, get_bits}
use arm_sim.Util.Bounds.{IsWordHost}
use arm_sim.Registers.Words.{IsWord}
use arm_sim.Core.{
  ◌>>=◌, arm_read_register, arm_write_register, arm_read_spsr, arm_write_cpsr, arm_read_word,
  arm_write_word,
}
use arm_sim.Core.Keeps.{Keeps, Any, Keeps-pure, Keeps-if, Keeps-bind, Keeps-then}
use arm_sim.Core.Accesses.{
  Keeps-arm_read_register, Keeps-arm_write_register, Keeps-arm_read_spsr, Keeps-arm_write_cpsr,
  Keeps-arm_read_word, Keeps-arm_write_word,
}
use arm_sim.BranchOther.{when}
use arm_sim.BranchOther.Keeps.{Keeps-when}
use arm_sim.LoadStore.Multiple.{
  span, count_bits, transfer_one, transfer_loop, arm_load_store_multiple,
}

pub w_adress-lt : (p u : Bool) (v bytes : ℕ) → v < 2 ^ 32 → IsWord (span p u v bytes).w_adress
unfolding span
w_adress-lt p u v bytes h = ground arith

module _ (host : Host) (l : Bool) where
  Keeps-transfer_one : (i a value : ℕ) → IsWord value → Keeps IsWord (transfer_one host l i a value)
  unfolding transfer_one
  Keeps-transfer_one i a value hv =
      Keeps-if l _ _
        (λ _.
          Keeps-bind (arm_read_word host a value) _ (Keeps-arm_read_word host a value hv) (λ r h.
            let kept = if i == 15 then bit_and r.1 0xfffffffc else r.1 in
            let small : IsWord kept = ground (arith, h.1, bit_and-le r.1 0xfffffffc) in
            Keeps-then (arm_write_register host i kept) _
              (Keeps-arm_write_register host i kept small) (Keeps-pure kept small)))
        (λ _. Keeps-bind (arm_read_register host i) _ (Keeps-arm_read_register host i) (λ word h.
          Keeps-bind (arm_write_word host a word) _ (Keeps-arm_write_word host a word)
            (λ code _. Keeps-pure value hv)))

  Keeps-transfer_loop :
      (list n i a value : ℕ) → IsWord value → Keeps Any (transfer_loop host l list n i a value)
  unfolding transfer_loop
  Keeps-transfer_loop list zero i a value h = Keeps-pure tt tt
  Keeps-transfer_loop list (suc n) i a value h =
      let skipped = Keeps-transfer_loop list n (i + 1) a value h in
      let next : (kept : ℕ)
          → IsWord kept
          → Keeps Any (transfer_loop host l list n (i + 1) (add32 a 4) kept) =
        Keeps-transfer_loop list n (i + 1) (add32 a 4) in
      Keeps-if (get_bit list i == 1) _ _
        (λ _.
          Keeps-bind (transfer_one host l i a value) _ (Keeps-transfer_one i a value h)
            (λ kept k. next kept k))
        (λ _. skipped)

pub Keeps-arm_load_store_multiple :
    (host : Host) (ins : ℕ) → IsWordHost host → Keeps IsWord (arm_load_store_multiple host ins)
unfolding arm_load_store_multiple
Keeps-arm_load_store_multiple host ins w =
    let l = get_bit ins 20 == 1 in
    let rn = get_bits ins 19 16 in
    let list = get_bits ins 15 0 in
    Keeps-bind (arm_read_register host rn) _ (Keeps-arm_read_register host rn) (λ v h.
      let s = span (get_bit ins 24 == 1) (get_bit ins 23 == 1) v (mul32 (count_bits list 16 0) 4) in
      Keeps-then (transfer_loop host l list 16 0 s.address host.uninit) _
        (Keeps-transfer_loop host l list 16 0 s.address host.uninit w.unset)
        (Keeps-then
          (when (l && get_bit ins 22 == 1 && get_bit ins 15 == 1)
            (do spsr_value ← arm_read_spsr host; arm_write_cpsr spsr_value))
          _
          (Keeps-when _ _ (λ _.
            Keeps-bind (arm_read_spsr host) _ (Keeps-arm_read_spsr host)
              (λ c k. Keeps-arm_write_cpsr c k)))
          (Keeps-then (when (get_bit ins 21 == 1) (arm_write_register host rn s.w_adress)) _
            (Keeps-when _ _
              (λ _. Keeps-arm_write_register host rn s.w_adress (w_adress-lt _ _ v _ h)))
            (Keeps-pure 0 (omega arith)))))
