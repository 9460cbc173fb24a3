-- ===== src/Instruction/Step.antt =====
-- arm_instruction.c: whole steps, from the fetch to the state that the instruction leaves.
use arm_sim.Base.{ℕ, ◌+◌, ◌%◌, ◌<◌, ◌≡◌, ◌∙◌, ap, arith, refl, some, true, false}
use arm_sim.Base.{◌==◌, ◌&&◌, if◌then◌else◌}
use arm_sim.Host.{Host}
use arm_sim.Util.{u32, add32, get_bit, get_bits}
use arm_sim.Memory.{Memory, MemoryData, memory_read_word}
use arm_sim.Memory.Laws.{IsBlock, word_at, memory_read_word-eq}
use arm_sim.Memory.Access.{IsOutside, outside-Refuses}
use arm_sim.Core.{ArmCore, arm_fetch}
use arm_sim.Core.File.{IsRegular, reg_at, cpsr_of, arm_read_cpsr-eq, put_reg}
use arm_sim.Core.Fetch.{fetched, arm_fetch-eq, fetched-IsRegular, reg_at-fetched, cpsr_of-fetched}
use arm_sim.BranchOther.{lr, pc, reset}
use arm_sim.BranchOther.Branch.{manual_offset, arm_branch_effect}
use arm_sim.Exception.{reset_cpsr}
use arm_sim.Exception.Entry.{arm_exception_resets}
use arm_sim.Instruction.{flag_cond, arm_fetch_code_inst, arm_execute_instruction, arm_step}

-- The instruction word at the pc.
abbrev pub instruction_at : Host → MemoryData → ℕ → ℕ
instruction_at host m a = word_at m a host.endianess

module _ (host : Host) (p : ArmCore) (w : IsRegular p) (m : MemoryData) (block : IsBlock m)
    (memory : p.mem ≡ some m) (inside : reg_at host p 15 + 3 < m.size) where
  abbrev a : ℕ
  a = reg_at host p 15

  abbrev inst : ℕ
  inst = instruction_at host m a

  fetch : arm_fetch host host.uninit p ≡ some ((0, inst), fetched host p)
  fetch = arm_fetch-eq host p w host.uninit (
      ap (λ (t : Memory). memory_read_word t a host.uninit host.endianess) memory
      ∙ memory_read_word-eq m a host.uninit host.endianess block inside)

  -- A step over an instruction whose condition does not hold returns 0, moves the pc on by 4 and
  -- counts the cycle, and changes nothing else.
  pub arm_step_skips :
      flag_cond (get_bits inst 31 28) (cpsr_of p) ≡ false
      → arm_step host p ≡ some (0, fetched host p)
  unfolding arm_step arm_execute_instruction
  arm_step_skips fails =
      ground (arith, fetch, arm_read_cpsr-eq (fetched host p), cpsr_of-fetched host p w)

  -- A step over an instruction whose condition holds and which its handler ends with code 0 is
  -- that handler's run, after the fetch.
  arm_step_runs :
      (p' : ArmCore)
      → flag_cond (get_bits inst 31 28) (cpsr_of p) ≡ true
      → arm_fetch_code_inst host inst (cpsr_of p) (fetched host p) ≡ some (0, p')
      → arm_step host p ≡ some (0, p')
  unfolding arm_step arm_execute_instruction
  arm_step_runs p' holds runs =
      ground (arith, fetch, arm_read_cpsr-eq (fetched host p), cpsr_of-fetched host p w)

  -- One step at an aligned address `a` over a B or BL whose condition holds: the pc becomes a + 8
  -- plus the signed word offset of the instruction, BL leaves a + 4 in the link register, and
  -- the other registers, the CPSR and the memory stay.
  pub arm_step_branches :
      (j : ℕ)
      → j < 16
      → a % 4 ≡ 0
      → get_bits inst 27 25 ≡ 5
      → flag_cond (get_bits inst 31 28) (cpsr_of p) ≡ true
      → (p' : ArmCore) × (arm_step host p ≡ some (0, p'))
        × (reg_at host p' j ≡ (
            if j == pc
            then u32 (a + 8 + manual_offset inst)
            else if j == lr && get_bit inst 24 == 1
            then add32 a 4
            else reg_at host p j))
        × (cpsr_of p' ≡ cpsr_of p)
        × (p'.mem ≡ p.mem)
        × IsRegular p'
  unfolding arm_fetch_code_inst
  arm_step_branches j h aligned branch holds =
      let at_pc : reg_at host (fetched host p) pc ≡ add32 a 4 =
        reg_at-fetched host p w pc (omega arith) in
      let (p', runs, regs, cpsr_same, mem_same, regular) =
        arm_branch_effect host (fetched host p) (fetched-IsRegular host p w) inst a at_pc aligned j
          h in
      (
        p',
        arm_step_runs p' holds (ground (arith, runs)),
        ground (arith, regs, reg_at-fetched host p w j h),
        cpsr_same ∙ cpsr_of-fetched host p w,
        mem_same ∙ unfold fetched put_reg in refl,
        regular,
      )

-- A fetch from outside the memory fails with -1, for which the step raises RESET and not a prefetch
-- abort: the step returns 1, the CPSR is the reset value and the pc is 0.
pub arm_step_resets :
    (host : Host) (p : ArmCore)
    → IsRegular p
    → IsOutside p.mem (reg_at host p 15)
    → (p' : ArmCore) × (arm_step host p ≡ some (reset, p'))
      × (cpsr_of p' ≡ reset_cpsr)
      × (reg_at host p' pc ≡ 0)
unfolding arm_step arm_execute_instruction
arm_step_resets host p w outside =
    let (rb, rh, rw_, wb, wh, ww) =
      outside-Refuses p.mem (reg_at host p 15) outside host.uninit host.endianess in
    let (p', runs, cpsr_reset, pc_zero, mem_same, out_same, regular) =
      arm_exception_resets host (fetched host p) (fetched-IsRegular host p w).words in
    (p', ground (arith, arm_fetch-eq host p w host.uninit rw_, runs), cpsr_reset, pc_zero)
