-- ===== src/Gdb/Handlers/Files.antt =====
-- gdb_protocol.c: the registers as read_general_registers prints them and write_general_registers
-- reads them.
use arm_sim.Base.{
  ℕ, zero, suc, ◌+◌, ◌%◌, ◌^◌, ◌≤◌, ◌<◌, ◌≡◌, ◌∙◌, ap, refl, sym, subst, arith, ltb, leb,
  if◌then◌else◌, ◌&&◌, true, some, List, ◌++◌,
}
use mathlib.Core.List.{append_assoc}
use arm_sim.Host.{Host}
use arm_sim.Registers.{registers_get_mode, registers_read, registers_write, registers_read_cpsr}
use arm_sim.Core.{ArmCore}
use arm_sim.Core.File.{
  IsRegular, reg_at, put_reg, sound_cell, put_reg-IsRegular, reg_at-put_reg, cpsr_of,
  cpsr_of-put_reg, put_cpsr, put_cpsr-IsRegular, reg_at-put_cpsr, cpsr_of-put_cpsr,
}
use arm_sim.Gdb.Text.{codes, count, write_uint32}
use arm_sim.Gdb.Text.Words.{words_text, drop_word, drop_words, drop-filler, words_text-agree}
use arm_sim.Gdb.Text.Numbers.{read_uint32-write_uint32}
use arm_sim.Gdb.Session.{Session, gdb_send_data, gdb_send_buffer}
use arm_sim.Gdb.Handlers.{
  read_register, read_registers, write_register, write_registers, with_registers,
  read_general_registers, write_general_registers, unknown_words, floating_point_words,
}

module _ (host : Host) where
  module _ (p : ArmCore) (w : IsRegular p) (i : ℕ) (h : i < 16) where
    read_register-eq : read_register host p.reg i ≡ some (write_uint32 (reg_at host p i))
    unfolding read_register registers_read reg_at
    read_register-eq =
        let c = sound_cell i (registers_get_mode p.reg) h w.known_mode w.not_fiq in
        let low : ltb i 16 ≡ true = ground arith in rw (low, c) refl

    write_register-eq :
        (v : ℕ) (rest : List ℕ)
        → v < 2 ^ 32
        → write_register host p.reg i (write_uint32 v ++ rest) ≡ some (put_reg host i v p).reg
    unfolding write_register registers_write put_reg
    write_register-eq v rest hv =
        let c = sound_cell i (registers_get_mode p.reg) h w.known_mode w.not_fiq in
        let low : ltb i 16 ≡ true = ground arith in
        rw (read_uint32-write_uint32 v rest hv, low, c) refl

  read_registers-eq :
      (p : ArmCore)
      → IsRegular p
      → (n i : ℕ) → i + n ≤ 16
      → read_registers host p.reg n i ≡ some (words_text (reg_at host p) n i)
  unfolding read_registers
  read_registers-eq p w zero i h = refl
  read_registers-eq p w (suc n) i h =
      rw (read_register-eq p w i (omega arith), read_registers-eq p w n (i + 1) (omega arith)) refl

  -- The processor with `n` registers from `i` on replaced.
  abbrev pub filled : (ℕ → ℕ) → ℕ → ℕ → ArmCore → ArmCore
  filled f zero i p = p
  filled f (suc n) i p = filled f n (i + 1) (put_reg host i (f i) p)

  module _ (f : ℕ → ℕ) (words : (j : ℕ) → f j < 2 ^ 32) where
    filled-IsRegular :
        (n i : ℕ) (p : ArmCore) → IsRegular p → i + n ≤ 16 → IsRegular (filled f n i p)
    filled-IsRegular zero i p w h = w
    filled-IsRegular (suc n) i p w h =
        filled-IsRegular n (i + 1) (put_reg host i (f i) p)
          (put_reg-IsRegular host p w i (omega arith) (f i) (words i)) (omega arith)

    write_registers-eq :
        (n i : ℕ) (p : ArmCore) (rest : List ℕ)
        → IsRegular p
        → i + n ≤ 16
        → write_registers host p.reg n i (words_text f n i ++ rest) ≡ some (filled f n i p).reg
    unfolding write_registers
    write_registers-eq zero i p rest w h = refl
    write_registers-eq (suc n) i p rest w h =
        let q = put_reg-IsRegular host p w i (omega arith) (f i) (words i) in
        rw
          (
            append_assoc (write_uint32 (f i)) (words_text f n (i + 1)) rest,
            write_register-eq p w i (omega arith) (f i) (words_text f n (i + 1) ++ rest) (words i),
            drop_word (f i) (words_text f n (i + 1) ++ rest),
            write_registers-eq n (i + 1) (put_reg host i (f i) p) rest q (omega arith),
          )
          refl

    reg_at-filled :
        (n i : ℕ) (p : ArmCore) (j : ℕ)
        → IsRegular p
        → i + n ≤ 16
        → j < 16
        → reg_at host (filled f n i p) j
          ≡ (if leb i j && ltb j (i + n) then f j else reg_at host p j)
    reg_at-filled zero i p j w h hj = ground arith
    reg_at-filled (suc n) i p j w h hj =
        let q = put_reg-IsRegular host p w i (omega arith) (f i) (words i) in
        ground (
          arith,
          reg_at-filled n (i + 1) (put_reg host i (f i) p) j q (omega arith) hj,
          reg_at-put_reg host p w i (omega arith) (f i) j (words i) hj,
        )

    only_registers :
        (n i : ℕ) (p : ArmCore) → filled f n i p ≡ record p { reg = (filled f n i p).reg }
    unfolding put_reg
    only_registers zero i p = refl
    only_registers (suc n) i p = only_registers n (i + 1) (put_reg host i (f i) p)

    cpsr_of-filled : (n i : ℕ) (p : ArmCore) → i + n ≤ 16 → cpsr_of (filled f n i p) ≡ cpsr_of p
    cpsr_of-filled zero i p h = refl
    cpsr_of-filled (suc n) i p h =
        cpsr_of-filled n (i + 1) (put_reg host i (f i) p) (omega arith)
        ∙ cpsr_of-put_reg host p i (f i) (omega arith)

-- What is left by the text of sixteen words, of 200 characters and of a CPSR: these sixteen words in
-- the registers of the current mode and this CPSR, and the text of them to a request for it.
pub record Holds (host : Host) (f : ℕ → ℕ) (c : ℕ) (s s' : Session) : Type 0 where
  pub regular : IsRegular s'.core
  pub registers : (j : ℕ) → j < 16 → reg_at host s'.core j ≡ f j
  pub status : cpsr_of s'.core ≡ c
  pub others : s' ≡ with_registers s s'.core.reg
  pub reads_back :
      read_general_registers host s'
      ≡ gdb_send_buffer s'
          (words_text f 16 0 ++ unknown_words floating_point_words ++ write_uint32 c)

pub record Fills (host : Host) (f : ℕ → ℕ) (c : ℕ) (s : Session) (text : List ℕ) : Type 0 where
  pub after : Session
  pub replies : write_general_registers host s text ≡ gdb_send_data after (codes "OK")
  pub holds : Holds host f c s after

module _ (host : Host) (f : ℕ → ℕ) (words : (j : ℕ) → f j < 2 ^ 32) (c : ℕ) (word : c < 2 ^ 32)
    (s : Session) (w : IsRegular s.core) (keeps : c % 2 ^ 6 ≡ cpsr_of s.core % 2 ^ 6) where
  abbrev general : ArmCore
  general = filled host f 16 0 s.core

  abbrev final : ArmCore
  final = put_cpsr c general

  mode_kept : c % 2 ^ 6 ≡ cpsr_of general % 2 ^ 6
  mode_kept =
      keeps
      ∙ ap (λ (t : ℕ). t % 2 ^ 6) (sym (cpsr_of-filled host f words 16 0 s.core (omega arith)))

  final-IsRegular : IsRegular final
  final-IsRegular =
      put_cpsr-IsRegular host general c mode_kept word
        (filled-IsRegular host f words 16 0 s.core w (omega arith))

  reg_at-final : (j : ℕ) → j < 16 → reg_at host final j ≡ f j
  reg_at-final j h =
      reg_at-put_cpsr host general c mode_kept j h
      ∙ reg_at-filled host f words 16 0 s.core j w (omega arith) h
      ∙ ground arith

  core_of_final : record s { core = final } ≡ with_registers s final.reg
  unfolding put_cpsr
  core_of_final =
      ap (λ (p : ArmCore). record s { core = record p { reg = final.reg } })
        (only_registers host f words 16 0 s.core)

  text_back :
      (s' : Session)
      → s'.core ≡ final
      → read_general_registers host s'
        ≡ gdb_send_buffer s'
            (words_text f 16 0 ++ unknown_words floating_point_words ++ write_uint32 c)
  unfolding read_general_registers
  text_back s' e =
      rw
        (
          e,
          read_registers-eq host final final-IsRegular 16 0 (omega arith),
          words_text-agree (reg_at host final) f 16 0 (λ j h. reg_at-final j (omega arith)),
          status_is,
        )
        refl
    where
      status_is : registers_read_cpsr final.reg ≡ c
      status_is = unfold cpsr_of in cpsr_of-put_cpsr general c

  -- A request to write sixteen words, then 200 characters that are passed over, and a CPSR of the
  -- same mode, from a processor in a known mode other than FIQ: it is answered by OK, and the
  -- registers of the current mode hold these words, the CPSR this value, and all else is unchanged.
  -- A request to read the registers then replies with the text of these words and of the CPSR.
  pub write_general_registers-Fills :
      (filler more : List ℕ)
      → count filler ≡ 200
      → Fills host f c s (words_text f 16 0 ++ (filler ++ (write_uint32 c ++ more)))
  unfolding write_general_registers
  write_general_registers-Fills filler more len =
      let tail = filler ++ (write_uint32 c ++ more) in
      let s' = with_registers s final.reg in
      record {
        after = s';
        replies =
            rw
              (
                write_registers-eq host f words 16 0 s.core tail w (omega arith),
                drop_words f 16 0 200 tail,
                ← len,
                drop-filler filler (write_uint32 c ++ more),
                read_uint32-write_uint32 c more word,
              )
              (unfold put_cpsr in refl);
        holds = subst (Holds host f c s) {x = record s { core = final }} core_of_final (record {
          regular = final-IsRegular;
          registers = reg_at-final;
          status = cpsr_of-put_cpsr general c;
          others = core_of_final;
          reads_back = text_back (record s { core = final }) refl;
        });
      }
