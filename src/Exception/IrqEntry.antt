-- ===== src/Exception/IrqEntry.antt =====
-- arm_exception.c: the state that an IRQ entry leaves.
use arm_sim.Base.{ℕ, ◌<◌, ◌≤◌, ◌^◌, ◌≡◌, ◌∙◌, ap, arith, refl, some, false}
use arm_sim.Base.{◌==◌, if◌then◌else◌}
use arm_sim.Host.{Host}
use arm_sim.Util.{get_bit}
use arm_sim.Registers.{
  irq, fiq, cell, ptrs, cells, to_stored, put_cell, get_read_write_mode, registers_get_mode,
  registers_mode_has_spsr, registers_read_spsr, registers_read, registers_write,
  registers_write_spsr, registers_read_cpsr, registers_write_cpsr,
}
use arm_sim.Registers.Laws.{to_stored-to_stored, to_stored-lt}
use arm_sim.Registers.Banks.{is_mode}
use arm_sim.Core.{ArmCore, as_read, arm_write_spsr}
use arm_sim.Core.File.{
  IsRegular, home, put_cpsr, put_reg, cpsr_of, cpsr_of-put_cpsr, cpsr_of-put_reg, cpsr_of-lt,
  reg_at, reg_at-put_reg, reg_at-lt, as_read-lt, put_reg-IsRegular, arm_read_register-eq,
  arm_read_cpsr-eq, arm_write_cpsr-eq, arm_write_register-eq,
}
use arm_sim.BranchOther.{lr, pc, interrupt}
use arm_sim.Exception.{sp, irq_cpsr, enter_irq, irq_exception, arm_exception}
use arm_sim.Exception.Entry.{mode-switch, switch-IsRegular}
use arm_sim.Exception.Irq.{irq_cpsr_mode, irq_cpsr-lt}

-- The SPSR of IRQ mode replaced.
unfoldable put_spsr : Host → ℕ → ArmCore → ArmCore
put_spsr host v p = record p { reg = put_cell p.reg 17 3 (to_stored host v) }

module _ (host : Host) (p : ArmCore) (w : IsRegular p) where
  abbrev c : ℕ
  c = cpsr_of p

  abbrev switched : ArmCore
  switched = put_cpsr (irq_cpsr c) p

  in_irq : registers_get_mode switched.reg ≡ irq
  in_irq = mode-switch p (irq_cpsr c) ∙ irq_cpsr_mode c (cpsr_of-lt p w)

  switched-IsRegular : IsRegular switched
  unfolding is_mode
  switched-IsRegular =
      let mode = irq_cpsr_mode c (cpsr_of-lt p w) in
      switch-IsRegular p (irq_cpsr c) (rw mode refl) (rw mode refl) (irq_cpsr-lt c (cpsr_of-lt p w))
        w.words

  abbrev saved : ArmCore
  saved = put_spsr host c switched

  saves : arm_write_spsr host c switched ≡ some (tt, saved)
  unfolding arm_write_spsr registers_write_spsr registers_mode_has_spsr registers_write cell ptrs
      cells get_read_write_mode put_spsr
  saves = rw in_irq refl

  mode-saved : registers_get_mode saved.reg ≡ registers_get_mode switched.reg
  unfolding put_spsr registers_get_mode
  mode-saved = refl

  reg_at-saved : (j : ℕ) → j < 16 → reg_at host saved j ≡ reg_at host switched j
  unfolding reg_at
  reg_at-saved j h = rw mode-saved (unfold put_spsr in ground arith)

  saved-IsRegular : IsRegular saved
  saved-IsRegular = record {
    known_mode = rw mode-saved switched-IsRegular.known_mode;
    not_fiq = rw mode-saved switched-IsRegular.not_fiq;
    words = λ i d.
        unfold put_spsr in
        ground (arith, switched-IsRegular.words i d, to_stored-lt host c (cpsr_of-lt p w));
  }

  cpsr_of-saved : cpsr_of saved ≡ irq_cpsr c
  cpsr_of-saved = same ∙ cpsr_of-put_cpsr p (irq_cpsr c)
    where
      same : cpsr_of saved ≡ cpsr_of switched
      same = unfold put_spsr cpsr_of registers_read_cpsr in refl

  -- Registers r0 to r12 are common to IRQ mode and every mode but FIQ.
  home_low : (i m : ℕ) → i ≤ 12 → (m == fiq) ≡ false → home i m ≡ 0
  unfolding cell ptrs cells get_read_write_mode
  home_low i m h not_fiq = ground arith

  reg_at-switched : (j : ℕ) → j ≤ 12 → reg_at host switched j ≡ reg_at host p j
  unfolding reg_at
  reg_at-switched j h =
      rw
        (
          home_low j (registers_get_mode switched.reg) h switched-IsRegular.not_fiq,
          home_low j (registers_get_mode p.reg) h w.not_fiq,
        )
        (unfold put_cpsr registers_write_cpsr in ground arith)

  abbrev r14_irq : ℕ
  r14_irq = as_read pc (reg_at host p pc)

  abbrev sp_adr : ℕ
  sp_adr = reg_at host p sp

  abbrev jumped : ArmCore
  jumped = put_reg host pc 0x14 saved

  abbrev linked : ArmCore
  linked = put_reg host lr r14_irq jumped

  abbrev entered : ArmCore
  entered = put_reg host sp sp_adr linked

  r14_irq-lt : r14_irq < 2 ^ 32
  r14_irq-lt = as_read-lt pc (reg_at host p pc) (reg_at-lt host p w pc (omega arith))

  jumped-IsRegular : IsRegular jumped
  jumped-IsRegular =
      put_reg-IsRegular host saved saved-IsRegular pc (omega arith) 0x14 (omega arith)

  linked-IsRegular : IsRegular linked
  linked-IsRegular =
      put_reg-IsRegular host jumped jumped-IsRegular lr (omega arith) r14_irq r14_irq-lt

  entered-IsRegular : IsRegular entered
  entered-IsRegular =
      put_reg-IsRegular host linked linked-IsRegular sp (omega arith) sp_adr
        (reg_at-lt host p w sp (omega arith))

  enter_irq-run : enter_irq host c p ≡ some (interrupt, entered)
  unfolding enter_irq
  enter_irq-run = ground (
    arith,
    arm_read_register-eq host p w sp (omega arith),
    arm_read_register-eq host p w pc (omega arith),
    arm_write_cpsr-eq p (irq_cpsr c),
    saves,
    arm_write_register-eq host saved saved-IsRegular pc (omega arith) 0x14,
    arm_write_register-eq host jumped jumped-IsRegular lr (omega arith) r14_irq,
    arm_write_register-eq host linked linked-IsRegular sp (omega arith) sp_adr,
  )

  reg_at-entered :
      (j : ℕ)
      → j < 16
      → reg_at host entered j ≡ (
          if j == sp
          then sp_adr
          else if j == lr
          then r14_irq
          else if j == pc
          then 0x14
          else reg_at host p j)
  reg_at-entered j h = ground (
    arith,
    reg_at-put_reg host linked linked-IsRegular sp (omega arith) sp_adr j
        (reg_at-lt host p w sp (omega arith)) h,
    reg_at-put_reg host jumped jumped-IsRegular lr (omega arith) r14_irq j r14_irq-lt h,
    reg_at-put_reg host saved saved-IsRegular pc (omega arith) 0x14 j (omega arith) h,
    reg_at-saved j h,
    reg_at-switched j,
  )

  cpsr_of-entered : cpsr_of entered ≡ irq_cpsr c
  cpsr_of-entered = ground (
    arith,
    cpsr_of-put_reg host linked sp sp_adr (omega arith),
    cpsr_of-put_reg host jumped lr r14_irq (omega arith),
    cpsr_of-put_reg host saved pc 0x14 (omega arith),
    cpsr_of-saved,
  )

  spsr-entered : registers_read_spsr host entered.reg irq ≡ some c
  unfolding registers_read_spsr registers_read cell ptrs cells get_read_write_mode put_reg put_spsr
  spsr-entered = ap some (ground (arith, to_stored-to_stored host c (cpsr_of-lt p w)))

  -- INTERRUPT on a regular core whose I bit is clear: the exception returns INTERRUPT, and the core
  -- is in IRQ mode with the pc at 0x14 (4 before the vector), the link register of IRQ mode holding the
  -- pc as it was read, the stack pointer of the interrupted mode carried over, r0 to r12 unchanged, the
  -- CPSR that `irq_cpsr` computes, and the interrupted CPSR in the SPSR; memory stays, and the
  -- core is regular again.
  pub arm_exception_interrupts :
      (j : ℕ)
      → j < 16
      → get_bit c 7 ≡ 0
      → (p' : ArmCore) × (arm_exception host interrupt p ≡ some (interrupt, p'))
        × (reg_at host p' j ≡ (
            if j == sp
            then sp_adr
            else if j == lr
            then r14_irq
            else if j == pc
            then 0x14
            else reg_at host p j))
        × (cpsr_of p' ≡ irq_cpsr c)
        × (registers_read_spsr host p'.reg irq ≡ some c)
        × (p'.mem ≡ p.mem)
        × IsRegular p'
  unfolding arm_exception irq_exception
  arm_exception_interrupts j h enabled = (
    entered,
    ground (arith, arm_read_cpsr-eq p, enter_irq-run),
    reg_at-entered j h,
    cpsr_of-entered,
    spsr-entered,
    unfold put_reg put_spsr put_cpsr in refl,
    entered-IsRegular,
  )
