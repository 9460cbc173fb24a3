-- ===== src/BranchOther/Branch.antt =====
-- arm_branch_other.c: where a branch goes and what it leaves in the link register.
use arm_sim.Base.{ℕ, ◌+◌, ◌-◌, ◌*◌, ◌/◌, ◌%◌, ◌^◌, ◌<◌, ◌≡◌, ◌∙◌, ap, arith, refl, some}
use arm_sim.Base.{ltb, ◌==◌, ◌&&◌, if◌then◌else◌}
use arm_sim.Bits.{bit_and_mask, bit_and_two_steps, bit_or_disjoint_left}
use arm_sim.Host.{Host}
use arm_sim.Util.{u32, add32, sub32, get_bit}
use arm_sim.Util.Laws.{get_bits-eq, get_bit-eq-bit_at}
use arm_sim.Core.{ArmCore, as_read, arm_write_register}
use arm_sim.Core.File.{
  IsRegular, reg_at, put_reg, arm_read_register-eq, arm_write_register-eq, reg_at-put_reg,
  put_reg-IsRegular, cpsr_of, cpsr_of-put_reg, if-IsRegular,
}
use arm_sim.BranchOther.{lr, pc, arm_branch, branch_offset}

-- The manual's offset: the 24-bit field as a signed number of words, here modulo 2 ^ 32.
abbrev pub manual_offset : ℕ → ℕ
manual_offset ins =
    let field = ins % 2 ^ 24 in
    if ltb field (2 ^ 23) then field * 4 else field * 4 + 2 ^ 32 - 2 ^ 26

branch_offset-eq-manual : (ins : ℕ) → branch_offset ins ≡ manual_offset ins
unfolding branch_offset
branch_offset-eq-manual ins = rw (get_bits-eq ins 23 0 refl) (
    ground (
      arith,
      get_bit-eq-bit_at (ins / 2 ^ 0 % 2 ^ 24) 23,
      bit_or_disjoint_left 24 255 (ins / 2 ^ 0 % 2 ^ 24) (omega arith),
    ))

-- The pc as an instruction reads it: eight bytes past the instruction, where the pc is aligned.
pub as_read-pc : (v : ℕ) → v % 4 ≡ 0 → as_read pc v ≡ add32 v 4
as_read-pc v h =
    omega (arith, bit_and_two_steps (add32 v 4) 0xfffffffd, bit_and_mask 30 (add32 v 4 / 4))

module _ (host : Host) (p : ArmCore) (w : IsRegular p) (ins a : ℕ)
    (at : reg_at host p pc ≡ add32 a 4) (aligned : a % 4 ≡ 0) where
  abbrev linked : ArmCore
  linked = if get_bit ins 24 == 1 then put_reg host lr (add32 a 4) p else p

  abbrev target : ℕ
  target = u32 (a + 8 + manual_offset ins)

  reads_pc : as_read pc (reg_at host p pc) ≡ add32 a 8
  reads_pc = ap (as_read pc) at ∙ as_read-pc (add32 a 4) (omega arith) ∙ omega arith

  linked-IsRegular : IsRegular linked
  linked-IsRegular =
      if-IsRegular (get_bit ins 24 == 1) (put_reg host lr (add32 a 4) p) p
        (put_reg-IsRegular host p w lr (omega arith) (add32 a 4) (omega arith)) w

  link : sub32 (add32 a 8) 4 ≡ add32 a 4
  link = omega arith

  sum : add32 (add32 a 8) (branch_offset ins) ≡ target
  sum = ap (λ (t : ℕ). add32 (add32 a 8) t) (branch_offset-eq-manual ins) ∙ ground arith

  arm_branch_final : arm_branch host ins p ≡ some (0, put_reg host pc target linked)
  unfolding arm_branch
  arm_branch_final = ground (
    arith,
    arm_read_register-eq host p w pc (omega arith),
    reads_pc,
    ap (λ (t : ℕ). arm_write_register host lr t p) link,
    arm_write_register-eq host p w lr (omega arith) (add32 a 4),
    ap (λ (t : ℕ). arm_write_register host pc t linked) sum,
    arm_write_register-eq host linked linked-IsRegular pc (omega arith) target,
  )

  -- For an instruction at the aligned address `a`, fetched, so that the pc is a + 4: a branch
  -- returns 0 and sets the pc to a + 8 plus the signed 24-bit word offset, modulo 2 ^ 32; with
  -- the L bit the link register becomes a + 4, the address of the next instruction. No other
  -- register changes, nor the CPSR or the memory.
  pub arm_branch_effect :
      (j : ℕ)
      → j < 16
      → (p' : ArmCore) × (arm_branch host ins p ≡ some (0, p'))
        × (reg_at host p' j ≡ (
            if j == pc
            then target
            else if j == lr && get_bit ins 24 == 1
            then add32 a 4
            else reg_at host p j))
        × (cpsr_of p' ≡ cpsr_of p)
        × (p'.mem ≡ p.mem)
        × IsRegular p'
  arm_branch_effect j h = (
    put_reg host pc target linked,
    arm_branch_final,
    ground (
      arith,
      reg_at-put_reg host linked linked-IsRegular pc (omega arith) target j (omega arith) h,
      reg_at-put_reg host p w lr (omega arith) (add32 a 4) j (omega arith) h,
    ),
    ground (
      arith,
      cpsr_of-put_reg host linked pc target (omega arith),
      cpsr_of-put_reg host p lr (add32 a 4) (omega arith),
    ),
    unfold put_reg in ground arith,
    put_reg-IsRegular host linked linked-IsRegular pc (omega arith) target (omega arith),
  )
