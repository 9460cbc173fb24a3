-- ===== src/LoadStore/Multiple.antt =====
-- arm_load_store.c: LDM and STM.
pub mod Keeps
pub mod LoadLoop
pub mod Modes
pub mod Loads
pub mod StoreLoop
pub mod Stores
pub mod RoundTrip
use arm_sim.Base.{ℕ, zero, suc, ◌+◌, bit_and, ◌==◌, if◌then◌else◌, ◌&&◌, not, Bool}
use arm_sim.Host.{Host}
use arm_sim.Util.{add32, sub32, mul32, get_bit, get_bits}
use arm_sim.Core.{
  M, pure, ◌>>=◌, ◌>>◌, arm_read_register, arm_write_register, arm_read_spsr, arm_write_cpsr,
  arm_read_word, arm_write_word,
}
use arm_sim.BranchOther.{when}

-- The first loop: the bits of `register_list` from `i` on, `n` of them to go.
unfoldable pub count_bits : ℕ → ℕ → ℕ → ℕ
count_bits register_list zero i = 0
count_bits register_list (suc n) i = get_bit register_list i + count_bits register_list n (i + 1)

-- Where a transfer begins and the new base, by the P and U bits. `bytes` is four for each register.
pub record Span : Type 0 where
  pub address : ℕ
  pub w_adress : ℕ

unfoldable pub span : Bool → Bool → ℕ → ℕ → Span
span p u rn_v bytes =
    if not p && u
    then record { address = rn_v; w_adress = add32 rn_v bytes }
    else if p && u
    then record { address = add32 rn_v 4; w_adress = add32 rn_v bytes }
    else if not p && not u
    then record { address = add32 (sub32 rn_v bytes) 4; w_adress = sub32 rn_v bytes }
    else record { address = sub32 rn_v bytes; w_adress = sub32 rn_v bytes }

-- One register: `arm_read_word` or `arm_write_word`, its code ignored. The local `value` is
-- `data`, which keeps its contents where a read fails.
unfoldable pub transfer_one : Host → Bool → ℕ → ℕ → ℕ → M ℕ
transfer_one host l i address value =
    if l
    then (do
      (code, word) ← arm_read_word host address value
      let kept = if i == 15 then bit_and word 0xfffffffc else word
      arm_write_register host i kept
      pure kept)
    else (do word ← arm_read_register host i; code ← arm_write_word host address word; pure value)

-- The second loop.
unfoldable pub transfer_loop : Host → Bool → ℕ → ℕ → ℕ → ℕ → ℕ → M (Unit {0})
transfer_loop host l register_list zero i address value = pure tt
transfer_loop host l register_list (suc n) i address value =
    if get_bit register_list i == 1
    then (do
      kept ← transfer_one host l i address value
      transfer_loop host l register_list n (i + 1) (add32 address 4) kept)
    else transfer_loop host l register_list n (i + 1) address value

unfoldable pub arm_load_store_multiple : Host → ℕ → M ℕ
arm_load_store_multiple host ins = do
  let l = get_bit ins 20 == 1
  let rn = get_bits ins 19 16
  let register_list = get_bits ins 15 0
  rn_v ← arm_read_register host rn
  let number_of_set_bits = count_bits register_list 16 0
  let s = span (get_bit ins 24 == 1) (get_bit ins 23 == 1) rn_v (mul32 number_of_set_bits 4)
  transfer_loop host l register_list 16 0 s.address host.uninit
  when (l && get_bit ins 22 == 1 && get_bit ins 15 == 1)
      (do spsr_value ← arm_read_spsr host; arm_write_cpsr spsr_value)
  when (get_bit ins 21 == 1) (arm_write_register host rn s.w_adress)
  pure 0
