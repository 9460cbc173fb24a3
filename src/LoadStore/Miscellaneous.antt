-- ===== src/LoadStore/Miscellaneous.antt =====
-- arm_load_store.c: `arm_load_store_miscellaneous`, the half word, signed and double word transfers.
pub mod Keeps
use arm_sim.Base.{ℕ, ◌+◌, ◌%◌, bit_or, ◌==◌, if◌then◌else◌, ◌&&◌, not, Bool}
use arm_sim.Base.{Option, none, some}
use arm_sim.Host.{Host}
use arm_sim.Util.{u8, u16, add32, sub32, ◌<<<◌, all_ones, get_bit, get_bits, set_bits}
use arm_sim.Core.{
  M, pure, ◌>>=◌, ◌>>◌, arm_read_register, arm_write_register, arm_read_byte, arm_read_half,
  arm_read_word, arm_write_half, arm_write_word,
}
use arm_sim.BranchOther.{undefined_instruction}

-- `base + offset` or `base - offset` by the U bit.
abbrev moved : Bool → ℕ → ℕ → ℕ
moved u base offset = if u then add32 base offset else sub32 base offset

-- The offset of the two addressing kinds: the two nibbles, or the register of the low one.
unfoldable pub offset_of : Host → Bool → ℕ → M ℕ
offset_of host b_bits ins =
    if b_bits
    then pure (u8 (bit_or (get_bits ins 11 8 <<< 4) (get_bits ins 3 0)))
    else arm_read_register host (get_bits ins 3 0)

-- The chain of tests on the P, B and W bits: the address, with the base written where the kind says
-- so, and `none` for the combinations that are refused.
unfoldable pub addressing : Host → ℕ → M (Option ℕ)
addressing host ins =
    let p_bit = get_bit ins 24 == 1 in
    let u_bit = get_bit ins 23 == 1 in
    let w_bit = get_bit ins 21 == 1 in
    let b_bits = get_bit ins 22 == 1 in
    let rn = get_bits ins 19 16 in
    if p_bit && not w_bit
    then (do
      base ← arm_read_register host rn
      offset ← offset_of host b_bits ins
      pure (some (moved u_bit base offset)))
    else if p_bit && w_bit
    then (do
      base ← arm_read_register host rn
      offset ← offset_of host b_bits ins
      arm_write_register host rn (moved u_bit base offset)
      pure (some (moved u_bit base offset)))
    else if not p_bit && not w_bit
    then (do
      address ← arm_read_register host rn
      base ← arm_read_register host rn
      offset ← offset_of host b_bits ins
      arm_write_register host rn (moved u_bit base offset)
      pure (some address))
    else pure none

-- The guard of the double word transfers: an even register but 14, an address divisible by 8.
unfoldable pub double_allowed : ℕ → ℕ → Bool
double_allowed rd address =
    rd % 2 == 0 && not (rd == 14) && get_bits address 1 0 == 0 && get_bit address 2 == 0

unfoldable pub load_double : Host → ℕ → ℕ → M ℕ
load_double host rd address = do
  (err, word) ← arm_read_word host address 0
  arm_write_register host rd word
  if err == 0
      then (do
        (err₂, word₂) ← arm_read_word host (add32 address 4) word
        arm_write_register host (rd + 1) word₂
        pure err₂)
      else pure err

unfoldable pub store_double : Host → ℕ → ℕ → M ℕ
store_double host rd address = do
  word ← arm_read_register host rd
  err ← arm_write_word host address word
  if err == 0
      then (do word₂ ← arm_read_register host (rd + 1); arm_write_word host (add32 address 4) word₂)
      else pure err

-- The mask of a signed load: the value below bit `h + 1` and copies of bit `h` above.
unfoldable pub signed_load : ℕ → ℕ → ℕ
signed_load h value = set_bits (if get_bit value h == 1 then all_ones else 0) h 0 value

-- The `switch` on the L, S and H bits.
unfoldable pub transfer : Host → ℕ → ℕ → ℕ → M ℕ
transfer host lsh_bits rd address =
    if lsh_bits == 1
    then (do value ← arm_read_register host rd; arm_write_half host address (u16 value))
    else if lsh_bits == 2
    then (if double_allowed rd address
        then load_double host rd address
        else pure undefined_instruction)
    else if lsh_bits == 3
    then (if double_allowed rd address
        then store_double host rd address
        else pure undefined_instruction)
    else if lsh_bits == 5
    then (do (err, half) ← arm_read_half host address 0; arm_write_register host rd half; pure err)
    else if lsh_bits == 6
    then (do
      (err, byte) ← arm_read_byte host address 0
      arm_write_register host rd (signed_load 7 byte)
      pure err)
    else if lsh_bits == 7
    then (do
      (err, half) ← arm_read_half host address 0
      arm_write_register host rd (signed_load 15 half)
      pure err)
    else pure 0

abbrev transfer_at : Host → ℕ → ℕ → Option ℕ → M ℕ
transfer_at host lsh_bits rd none = pure undefined_instruction
transfer_at host lsh_bits rd (some address) = transfer host lsh_bits rd address

unfoldable pub arm_load_store_miscellaneous : Host → ℕ → M ℕ
arm_load_store_miscellaneous host ins = do
  let lsh_bits = bit_or (bit_or (get_bit ins 20 <<< 2) (get_bit ins 6 <<< 1)) (get_bit ins 5)
  address ← addressing host ins
  transfer_at host lsh_bits (get_bits ins 15 12) address
