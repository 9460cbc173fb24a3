-- ===== src/Core/File.antt =====
-- The register file as an instruction sees it in the current mode: sixteen words, each of which
-- is read and replaced on its own.
use mathlib.Core.Option.{get_or}
use arm_sim.Base.{ℕ, ◌<◌, ◌^◌, ◌%◌, ◌≡◌, ◌∙◌, ap, sym, arith, refl, some, Bool, true, false, ◌+◌}
use arm_sim.Bits.{bit_and-le}
use arm_sim.Base.{◌==◌, if◌then◌else◌}
use arm_sim.Host.{Host}
use arm_sim.Registers.{
  fiq, cell, get_read_write_mode, to_stored, put_cell, registers_get_mode, registers_read,
  registers_write, registers_read_cpsr, registers_write_cpsr,
}
use arm_sim.Util.Laws.{get_bits-eq}
use arm_sim.Registers.Laws.{to_stored-to_stored, to_stored-lt}
use arm_sim.Registers.Banks.{is_mode, faults, cell_of_sound}
use arm_sim.Core.{
  ArmCore, as_read, arm_read_register, arm_write_register, arm_read_cpsr, arm_write_cpsr,
}

-- The cell of register `i` in mode `m`.
abbrev pub home : ℕ → ℕ → ℕ
home i m = get_or (cell i (get_read_write_mode m)) 0

-- The CPSR names one of the seven modes, not FIQ, whose r13 and r14 have no cell, and every cell
-- holds a 32-bit word.
pub record IsRegular (p : ArmCore) : Type 0 where
  pub known_mode : is_mode (registers_get_mode p.reg) ≡ true
  pub not_fiq : (registers_get_mode p.reg == fiq) ≡ false
  pub words : (i c : ℕ) → p.reg.data_of i c < 2 ^ 32

-- The word in register `i`.
unfoldable pub reg_at : Host → ArmCore → ℕ → ℕ
reg_at host p i = to_stored host (p.reg.data_of i (home i (registers_get_mode p.reg)))

-- Register `i` replaced.
unfoldable pub put_reg : Host → ℕ → ℕ → ArmCore → ArmCore
put_reg host i v p = record p {
  reg = put_cell p.reg i (home i (registers_get_mode p.reg)) (to_stored host v);
}

pub sound_cell :
    (i m : ℕ)
    → i < 16
    → is_mode m ≡ true
    → (m == fiq) ≡ false
    → cell i (get_read_write_mode m) ≡ some (home i m)
unfolding faults
sound_cell i m h mode not_fiq =
    let (c, e) = cell_of_sound i m (omega arith) mode (ground arith) in ground arith

module _ (host : Host) (p : ArmCore) (w : IsRegular p) (i : ℕ) (h : i < 16) where
  pub arm_read_register-eq : arm_read_register host i p ≡ some (as_read i (reg_at host p i), p)
  unfolding arm_read_register registers_read reg_at
  arm_read_register-eq = rw (sound_cell i (registers_get_mode p.reg) h w.known_mode w.not_fiq)

  pub arm_write_register-eq :
      (v : ℕ) → arm_write_register host i v p ≡ some (tt, put_reg host i v p)
  unfolding arm_write_register registers_write put_reg
  arm_write_register-eq v = rw (sound_cell i (registers_get_mode p.reg) h w.known_mode w.not_fiq)

  pub reg_at-lt : reg_at host p i < 2 ^ 32
  unfolding reg_at
  reg_at-lt = to_stored-lt host _ (w.words i _)

  pub mode-put_reg :
      (v : ℕ) → registers_get_mode (put_reg host i v p).reg ≡ registers_get_mode p.reg
  unfolding put_reg registers_get_mode
  mode-put_reg v = ground arith

  pub cpsr-put_reg :
      (v : ℕ) → registers_read_cpsr (put_reg host i v p).reg ≡ registers_read_cpsr p.reg
  unfolding put_reg registers_read_cpsr
  cpsr-put_reg v = ground arith

  pub put_reg-IsRegular : (v : ℕ) → v < 2 ^ 32 → IsRegular (put_reg host i v p)
  put_reg-IsRegular v hv = record {
    known_mode = rw (mode-put_reg v) w.known_mode;
    not_fiq = rw (mode-put_reg v) w.not_fiq;
    words = λ j c. unfold put_reg in ground (arith, w.words j c, to_stored-lt host v hv);
  }

  -- A register that is replaced reads as the new word; the others keep theirs.
  pub reg_at-put_reg :
      (v j : ℕ)
      → v < 2 ^ 32
      → j < 16
      → reg_at host (put_reg host i v p) j ≡ (if i == j then v else reg_at host p j)
  unfolding put_reg reg_at
  reg_at-put_reg v j hv hj = ground (arith, mode-put_reg v, to_stored-to_stored host v hv)

-- The CPSR replaced.
unfoldable pub put_cpsr : ℕ → ArmCore → ArmCore
put_cpsr v p = record p { reg = registers_write_cpsr p.reg v }

unfoldable pub cpsr_of : ArmCore → ℕ
cpsr_of p = registers_read_cpsr p.reg

pub arm_read_cpsr-eq : (p : ArmCore) → arm_read_cpsr p ≡ some (cpsr_of p, p)
unfolding arm_read_cpsr cpsr_of
arm_read_cpsr-eq p = refl

pub arm_write_cpsr-eq : (p : ArmCore) (v : ℕ) → arm_write_cpsr v p ≡ some (tt, put_cpsr v p)
unfolding arm_write_cpsr put_cpsr
arm_write_cpsr-eq p v = refl

pub cpsr_of-put_cpsr : (p : ArmCore) (v : ℕ) → cpsr_of (put_cpsr v p) ≡ v
unfolding cpsr_of put_cpsr registers_read_cpsr registers_write_cpsr
cpsr_of-put_cpsr p v = refl

pub cpsr_of-put_reg :
    (host : Host) (p : ArmCore) (i v : ℕ) → i < 16 → cpsr_of (put_reg host i v p) ≡ cpsr_of p
unfolding cpsr_of put_reg registers_read_cpsr
cpsr_of-put_reg host p i v h = ground arith

-- The mode is in the low bits of the CPSR.
pub mode_of : (p : ArmCore) → registers_get_mode p.reg ≡ cpsr_of p % 2 ^ 6
unfolding cpsr_of registers_get_mode registers_read_cpsr
mode_of p = get_bits-eq _ 5 0 refl ∙ omega arith

module _ (host : Host) (p : ArmCore) (v : ℕ) (keeps : v % 2 ^ 6 ≡ cpsr_of p % 2 ^ 6) where
  mode-put_cpsr : registers_get_mode (put_cpsr v p).reg ≡ registers_get_mode p.reg
  mode-put_cpsr =
      mode_of (put_cpsr v p)
      ∙ ap (λ (t : ℕ). t % 2 ^ 6) (cpsr_of-put_cpsr p v)
      ∙ keeps
      ∙ sym (mode_of p)

  -- A change of the CPSR that keeps the mode leaves the sixteen registers as they are.
  pub reg_at-put_cpsr : (j : ℕ) → j < 16 → reg_at host (put_cpsr v p) j ≡ reg_at host p j
  unfolding reg_at
  reg_at-put_cpsr j h = rw mode-put_cpsr (unfold put_cpsr registers_write_cpsr in ground arith)

  pub put_cpsr-IsRegular : v < 2 ^ 32 → IsRegular p → IsRegular (put_cpsr v p)
  put_cpsr-IsRegular hv w = record {
    known_mode = rw mode-put_cpsr w.known_mode;
    not_fiq = rw mode-put_cpsr w.not_fiq;
    words = λ j c. unfold put_cpsr registers_write_cpsr in ground (arith, w.words j c);
  }

pub cpsr_of-lt : (p : ArmCore) → IsRegular p → cpsr_of p < 2 ^ 32
unfolding cpsr_of registers_read_cpsr
cpsr_of-lt p w = w.words 16 0

pub as_read-lt : (i v : ℕ) → v < 2 ^ 32 → as_read i v < 2 ^ 32
as_read-lt i v h = ground (arith, bit_and-le ((v + 4) % 2 ^ 32) 0xfffffffd)

pub if-IsRegular :
    (b : Bool) (p q : ArmCore) → IsRegular p → IsRegular q → IsRegular (if b then p else q)
if-IsRegular true p q v w = v
if-IsRegular false p q v w = w
