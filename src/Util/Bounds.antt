-- ===== src/Util/Bounds.antt =====
-- util.c: shifts and fields of words are words.
use arm_sim.Base.{ℕ, ◌+◌, ◌-◌, ◌^◌, ◌<◌, arith, bit_and, bit_or}
use arm_sim.Bits.{bit_or-lt, bit_and-le}
use arm_sim.Host.{Host}
use arm_sim.Util.{u32, bit_not, all_ones, ◌<<<◌, ◌>>>◌, shl32, asr, ror, set_bits, get_bits}

-- The platform gives words where the language leaves the value open.
pub record IsWordHost (host : Host) : Type 0 where
  pub wide : (x k : ℕ) → host.wide_shl x k < 2 ^ 32
  pub unset : host.uninit < 2 ^ 32

pub shifted_right-lt : (x k : ℕ) → x < 2 ^ 32 → x >>> k < 2 ^ 32
shifted_right-lt x k h = grind arith

module _ (host : Host) (w : IsWordHost host) where
  pub shl32-lt : (x k : ℕ) → shl32 host x k < 2 ^ 32
  unfolding shl32
  shl32-lt x k = ground (arith, w.wide x k)

  module _ (x k : ℕ) (h : x < 2 ^ 32) where
    pub asr-lt : asr host x k < 2 ^ 32
    unfolding asr
    asr-lt = ground (
      arith,
      bit_or-lt 32 (x >>> k) (shl32 host all_ones (32 - k)) (shifted_right-lt x k h)
          (shl32-lt all_ones (32 - k)),
      bit_or-lt 32 (x >>> k) 0 (shifted_right-lt x k h) (omega arith),
    )

    pub ror-lt : ror host x k < 2 ^ 32
    unfolding ror
    ror-lt =
        bit_or-lt 32 (x >>> k) (shl32 host x (32 - k)) (shifted_right-lt x k h)
          (shl32-lt x (32 - k))

pub set_bits-lt : (x h bits : ℕ) → x < 2 ^ 32 → bits < 2 ^ 32 → set_bits x h 0 bits < 2 ^ 32
unfolding set_bits
set_bits-lt x h bits hx hb =
    let a = bit_and x (bit_not (u32 (all_ones <<< 0))) in
    let b = bit_and x (u32 ((all_ones >>> (h + 1)) <<< (h + 1))) in
    let small = bit_and-le x (bit_not (u32 (all_ones <<< 0))) in
    let small' = bit_and-le x (u32 ((all_ones >>> (h + 1)) <<< (h + 1))) in
    bit_or-lt 32 (bit_or a b) (bits <<< 0) (bit_or-lt 32 a b (omega arith) (omega arith))
      (omega arith)

pub get_bits-lt : (x h l : ℕ) → x < 2 ^ 32 → get_bits x h l < 2 ^ 32
unfolding get_bits
get_bits-lt x h l hx =
    let small = shifted_right-lt x l hx in
    omega (arith, bit_and-le (x >>> l) (bit_not (u32 ((all_ones >>> (h - l + 1)) <<< (h - l + 1)))))
