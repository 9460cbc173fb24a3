-- ===== src/Core/Accesses.antt =====
-- arm_core.c: every access keeps the machine.
use arm_sim.Base.{ℕ, ◌^◌, ◌<◌, arith, Option, none, some}
use arm_sim.Base.Gives.{Gives}
use arm_sim.Host.{Host}
use arm_sim.Util.{u8, u16, add32}
use arm_sim.Memory.{Memory, memory_read_word}
use arm_sim.Memory.Bytes.{
  HoldsBytes, IsRead, IsWritten, memory_read_byte_bound, memory_read_half_bound,
  memory_read_word_bound, memory_write_byte_bytes, memory_write_half_bytes, memory_write_word_bytes,
}
use arm_sim.Registers.{
  Registers, registers_get_mode, registers_read, registers_write, registers_write_spsr,
  registers_read_spsr, registers_write_cpsr, registers_read_cpsr, spsr,
}
use arm_sim.Registers.Words.{
  IsWord, IsKept, HoldsWords, registers_read-IsWord, registers_write_words,
  registers_write_spsr_words,
}
use arm_sim.Core.{
  ArmCore, lift, pure, ◌>>=◌, ◌>>◌, set_registers, set_memory, arm_read_register,
  arm_write_register, arm_read_cpsr, arm_write_cpsr, arm_read_spsr, arm_write_spsr, arm_read_byte,
  arm_read_half, arm_read_word, arm_write_byte, arm_write_half, arm_write_word, arm_fetch,
  arm_current_mode_has_spsr, emit, Output, as_read, tick,
}
use arm_sim.Core.File.{as_read-lt}
use arm_sim.Core.Keeps.{IsMachine, Ends, Keeps, Any}

pub all_cells : (o : Option Registers) → ((j d : ℕ) → Gives (IsKept j d) o) → Gives HoldsWords o
all_cells none h = tt
all_cells (some r) h = h

-- A write ends with the code and a memory of bytes.
abbrev pub IsStored : ℕ × Memory → Type 0
IsStored (code, m) = IsWord code × HoldsBytes m

pub all_bytes : (o : Option (ℕ × Memory)) → ((i : ℕ) → Gives (IsWritten i) o) → Gives IsStored o
all_bytes none h = tt
all_bytes (some (code, m)) h = ((h 0).0, λ i. (h i).1)

module _ (p : ArmCore) (w : IsMachine p) where
  pub with_registers : (r : Registers) → HoldsWords r → IsMachine (record p { reg = r })
  with_registers r h = record { words = h; cycles = w.cycles; block = w.block; numbers = w.numbers }

  pub with_memory : (m : Memory) → HoldsBytes m → IsMachine (record p { mem = m })
  with_memory m h = record { words = w.words; cycles = w.cycles; block = h; numbers = w.numbers }

  reads :
      (i : ℕ) (o : Option ℕ)
      → Gives IsWord o
      → Ends IsWord ((do value ← lift o; pure (as_read i value)) p)
  reads i none h = tt
  reads i (some v) h = (as_read-lt i v h, w)

  writes :
      (o : Option Registers) → Gives HoldsWords o → Ends Any ((do r ← lift o; set_registers r) p)
  writes none h = tt
  writes (some r) h = (tt, with_registers r h)

  stores :
      (o : Option (ℕ × Memory))
      → Gives IsStored o
      → Ends IsWord ((do (code, m) ← lift o; set_memory m; pure code) p)
  stores none h = tt
  stores (some (code, m)) h = (h.0, with_memory m h.1)

  loads : (bound : ℕ) (o : Option (ℕ × ℕ)) → Gives (IsRead bound) o → Ends (IsRead bound) (lift o p)
  loads bound none h = tt
  loads bound (some r) h = (h, w)

module _ (host : Host) where
  pub Keeps-arm_read_register : (i : ℕ) → Keeps IsWord (arm_read_register host i)
  unfolding arm_read_register
  Keeps-arm_read_register i = record {
    at = λ p w.
        reads p w i (registers_read host p.reg i (registers_get_mode p.reg))
          (registers_read-IsWord host p.reg w.words i (registers_get_mode p.reg));
  }

  pub Keeps-arm_write_register : (i v : ℕ) → IsWord v → Keeps Any (arm_write_register host i v)
  unfolding arm_write_register
  Keeps-arm_write_register i v h = record {
    at = λ p w.
        let o = registers_write host p.reg i (registers_get_mode p.reg) v in
        writes p w o (
          all_cells o (λ j d.
            registers_write_words host p.reg i (registers_get_mode p.reg) v j d h (w.words j d)));
  }

  pub Keeps-arm_read_spsr : Keeps IsWord (arm_read_spsr host)
  unfolding arm_read_spsr registers_read_spsr
  Keeps-arm_read_spsr = record {
    at = λ p w.
        words p w (registers_read host p.reg spsr (registers_get_mode p.reg))
          (registers_read-IsWord host p.reg w.words spsr (registers_get_mode p.reg));
  }
    where
      words : (p : ArmCore) → IsMachine p → (o : Option ℕ) → Gives IsWord o → Ends IsWord (lift o p)
      words p w none h = tt
      words p w (some v) h = (h, w)

  pub Keeps-arm_write_spsr : (v : ℕ) → IsWord v → Keeps Any (arm_write_spsr host v)
  unfolding arm_write_spsr
  Keeps-arm_write_spsr v h = record {
    at = λ p w.
        let o = registers_write_spsr host p.reg (registers_get_mode p.reg) v in
        writes p w o (
          all_cells o (λ j d.
            registers_write_spsr_words host p.reg (registers_get_mode p.reg) v j d h
              (w.words j d)));
  }

  module _ (a old : ℕ) where
    pub Keeps-arm_read_byte : old < 2 ^ 8 → Keeps (IsRead (2 ^ 8)) (arm_read_byte host a old)
    unfolding arm_read_byte
    Keeps-arm_read_byte h = record {
      at = λ p w. loads p w (2 ^ 8) _ (memory_read_byte_bound a old p.mem w.block h);
    }

    pub Keeps-arm_read_half : old < 2 ^ 16 → Keeps (IsRead (2 ^ 16)) (arm_read_half host a old)
    unfolding arm_read_half
    Keeps-arm_read_half h = record {
      at = λ p w. loads p w (2 ^ 16) _ (memory_read_half_bound a old p.mem host.endianess h);
    }

    pub Keeps-arm_read_word : IsWord old → Keeps (IsRead (2 ^ 32)) (arm_read_word host a old)
    unfolding arm_read_word
    Keeps-arm_read_word h = record {
      at = λ p w. loads p w (2 ^ 32) _ (memory_read_word_bound a old p.mem host.endianess h);
    }

  module _ (a v : ℕ) where
    pub Keeps-arm_write_byte : Keeps IsWord (arm_write_byte host a v)
    unfolding arm_write_byte
    Keeps-arm_write_byte = record {
      at = λ p w.
          stores p w _
            (all_bytes _ (λ i. memory_write_byte_bytes a (u8 v) i p.mem (w.block i) (omega arith)));
    }

    pub Keeps-arm_write_half : Keeps IsWord (arm_write_half host a v)
    unfolding arm_write_half
    Keeps-arm_write_half = record {
      at = λ p w.
          stores p w _ (
            all_bytes _
              (λ i. memory_write_half_bytes a (u16 v) i p.mem host.endianess (w.block i)));
    }

    pub Keeps-arm_write_word : Keeps IsWord (arm_write_word host a v)
    unfolding arm_write_word
    Keeps-arm_write_word = record {
      at = λ p w.
          stores p w _
            (all_bytes _ (λ i. memory_write_word_bytes a v i p.mem host.endianess (w.block i)));
    }

pub Keeps-arm_read_cpsr : Keeps IsWord arm_read_cpsr
unfolding arm_read_cpsr registers_read_cpsr
Keeps-arm_read_cpsr = record { at = λ p w. (w.words 16 0, w) }

pub Keeps-arm_write_cpsr : (v : ℕ) → IsWord v → Keeps Any (arm_write_cpsr v)
unfolding arm_write_cpsr registers_write_cpsr
Keeps-arm_write_cpsr v h = record {
  at = λ p w. (tt, with_registers p w _ (λ j d. ground (arith, w.words j d)));
}

pub Keeps-emit : (o : Output) → Keeps Any (emit o)
unfolding emit
Keeps-emit o = record {
  at = λ p w.
      (tt, record { words = w.words; cycles = w.cycles; block = w.block; numbers = w.numbers });
}

pub Keeps-arm_current_mode_has_spsr : Keeps Any arm_current_mode_has_spsr
unfolding arm_current_mode_has_spsr
Keeps-arm_current_mode_has_spsr = record { at = λ p w. (tt, w) }

module _ (p : ArmCore) (w : IsMachine p) where
  counted :
      (o : Option (ℕ × ℕ))
      → Gives (IsRead (2 ^ 32)) o
      → Ends (IsRead (2 ^ 32)) ((do result ← lift o; tick; pure result) p)
  counted none h = tt
  counted (some result) h =
      (h, record { words = w.words; cycles = omega arith; block = w.block; numbers = w.numbers })

module _ (p : ArmCore) (w : IsMachine p) where
  moved :
      (r : Option Registers) (o : Option (ℕ × ℕ))
      → Gives HoldsWords r
      → Gives (IsRead (2 ^ 32)) o
      → Ends
          (IsRead (2 ^ 32))
          ((do r' ← lift r; set_registers r'; result ← lift o; tick; pure result) p)
  moved none o k h = tt
  moved (some r) o k h = counted (record p { reg = r }) (with_registers p w r k) o h

  addressed :
      (a : Option ℕ) (r : ℕ → Option Registers) (o : ℕ → Option (ℕ × ℕ))
      → ((address : ℕ) → Gives HoldsWords (r address) × Gives (IsRead (2 ^ 32)) (o address))
      → Ends (IsRead (2 ^ 32)) (
          (do
            address ← lift a
            r' ← lift (r address)
            set_registers r'
            result ← lift (o address)
            tick
            pure result)
            p)
  addressed none r o k = tt
  addressed (some address) r o k = moved (r address) (o address) (k address).0 (k address).1

  advanced :
      (host : Host) (v : ℕ)
      → IsWord v
      → Gives HoldsWords (registers_write host p.reg 15 (registers_get_mode p.reg) v)
  advanced host v h =
      let m = registers_get_mode p.reg in
      all_cells _ (λ j d. registers_write_words host p.reg 15 m v j d h (w.words j d))

pub Keeps-arm_fetch :
    (host : Host) (old : ℕ) → IsWord old → Keeps (IsRead (2 ^ 32)) (arm_fetch host old)
unfolding arm_fetch
Keeps-arm_fetch host old h = record {
  at = λ p w.
      addressed p w (registers_read host p.reg 15 (registers_get_mode p.reg))
        (λ address. registers_write host p.reg 15 (registers_get_mode p.reg) (add32 address 4))
        (λ address. memory_read_word p.mem address old host.endianess)
        (λ address. (
          advanced p w host (add32 address 4) (omega arith),
          memory_read_word_bound address old p.mem host.endianess h,
        ));
}
