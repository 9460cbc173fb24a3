-- ===== src/Registers/Words.antt =====
-- registers.c: every access keeps the cells words, and reads words.
use mathlib.Core.Option.{get_or}
use arm_sim.Base.{ℕ, ◌^◌, ◌<◌, arith}
use arm_sim.Base.Gives.{Gives}
use arm_sim.Host.{Host}
use arm_sim.Registers.{
  Registers, cell, spsr, get_read_write_mode, registers_read, registers_write, registers_write_spsr,
}
use arm_sim.Registers.Laws.{to_stored-lt}

abbrev pub IsWord : ℕ → Type 0
IsWord v = v < 2 ^ 32

-- Every cell holds a word.
abbrev pub HoldsWords : Registers → Type 0
HoldsWords r = (i c : ℕ) → IsWord (r.data_of i c)

-- Cell `j`, `d` holds a word after a write.
abbrev pub IsKept : ℕ → ℕ → Registers → Type 0
IsKept j d r = IsWord (r.data_of j d)

module _ (host : Host) (r : Registers) where
  pub registers_read-IsWord : HoldsWords r → (i m : ℕ) → Gives IsWord (registers_read host r i m)
  unfolding registers_read
  registers_read-IsWord h i m =
      let c = get_or (cell i (get_read_write_mode m)) 0 in
      ground (arith, to_stored-lt host (r.data_of i c) (h i c))

  pub registers_write_words :
      (i m v j d : ℕ) → IsWord v → IsKept j d r → Gives (IsKept j d) (registers_write host r i m v)
  unfolding registers_write
  registers_write_words i m v j d hv h = ground (arith, to_stored-lt host v hv)

  pub registers_write_spsr_words :
      (m v j d : ℕ) → IsWord v → IsKept j d r → Gives (IsKept j d) (registers_write_spsr host r m v)
  unfolding registers_write_spsr
  registers_write_spsr_words m v j d hv h = ground (arith, registers_write_words spsr m v j d hv h)
