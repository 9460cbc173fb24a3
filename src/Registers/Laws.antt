-- ===== src/Registers/Laws.antt =====
-- registers.c: one register, read and written.
use arm_sim.Base.{ℕ, ◌<◌, ◌^◌, ◌≡◌, arith}
use arm_sim.Host.{Host}
use arm_sim.Util.Laws.{switch_endian-switch_endian, switch_endian-lt}
use arm_sim.Registers.{to_stored}

-- The stored form of a word read back is the word.
pub to_stored-to_stored : (host : Host) (x : ℕ) → x < 2 ^ 32 → to_stored host (to_stored host x) ≡ x
unfolding to_stored
to_stored-to_stored host x h = ground (arith, switch_endian-switch_endian x h)

pub to_stored-lt : (host : Host) (x : ℕ) → x < 2 ^ 32 → to_stored host x < 2 ^ 32
unfolding to_stored
to_stored-lt host x h = ground (arith, switch_endian-lt x)
