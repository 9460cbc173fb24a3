-- ===== src/Host.antt =====
-- What the program takes from its platform and build: the byte order of the machine it runs on
-- (`is_big_endian` in util.c reads it), the compile-time ENDIANESS of arm_core.c, the result of
-- a 32-bit shift by 32 or more, which C leaves undefined, and the value of a local variable that
-- nothing has written.
use arm_sim.Base.{ℕ, Bool}

pub record Host : Type 0 where
  pub is_big_endian : Bool
  pub endianess : Bool
  pub wide_shl : ℕ → ℕ → ℕ
  pub uninit : ℕ
