-- ===== src/UnitTests.antt =====
-- memory_test.c and registers_test.c: the test programs of the repository, on any machine, any contents of
-- the allocated block and any random numbers. What they print is left out. A program gives its exit code.
pub mod Passes
use arm_sim.Base.{
  ℕ, zero, suc, ◌+◌, ◌-◌, ◌*◌, ltb, ◌==◌, if◌then◌else◌, not, Bool, true, false, Option, none, some,
}
use arm_sim.Base.Optional.{◌>>=◌}
use arm_sim.Host.{Host}
use arm_sim.Util.{u8, u32, ◌>>>◌}
use arm_sim.Memory.{
  Memory, minus_one, memory_create, memory_get_size, memory_read_byte, memory_read_half,
  memory_read_word, memory_write_byte, memory_write_half, memory_write_word,
}
use arm_sim.Registers.{
  Registers, usr, irq, registers_create, registers_get_mode, registers_read, registers_read_spsr,
  registers_write, registers_write_cpsr, registers_in_a_privileged_mode,
  registers_current_mode_has_spsr,
}

-- `FAIL` after a test.
abbrev pub assert_print : Bool → ℕ → ℕ
assert_print true fail = fail
assert_print false fail = 1

-- Byte `i` of a variable of `size` bytes, as the machine holds it.
unfoldable pub byte_in : Host → ℕ → ℕ → ℕ → ℕ
byte_in host size v i =
    if host.is_big_endian then u8 (v >>> (8 * (size - 1 - i))) else u8 (v >>> (8 * i))

-- The loop, with `n` bytes to go; `j` falls where the order is reversed.
unfoldable pub compare_loop : (ℕ → ℕ) → (ℕ → ℕ) → Bool → ℕ → ℕ → ℕ → Bool
compare_loop a b reverse zero i j = true
compare_loop a b reverse (suc n) i j =
    let rest = compare_loop a b reverse n (i + 1) (if reverse then j - 1 else j + 1) in
    if a i == b j then rest else false

unfoldable pub compare_bytes : (ℕ → ℕ) → (ℕ → ℕ) → ℕ → Bool → Bool
compare_bytes a b size reverse = compare_loop a b reverse size 0 (if reverse then size - 1 else 0)

-- `value` is not initialised, and a read that fails leaves it.
unfoldable pub sim_loop : (ℕ → ℕ) → Memory → Bool → ℕ → ℕ → ℕ → ℕ → Option Bool
sim_loop a m reverse zero i j value = some true
sim_loop a m reverse (suc n) i j value = do
  (code, read) ← memory_read_byte m j value
  elim (a i == read) [
    | true ↦ sim_loop a m reverse n (i + 1) (if reverse then j - 1 else j + 1) read
    | false ↦ some false
  ]

unfoldable pub compare_with_sim : Host → (ℕ → ℕ) → Memory → ℕ → Bool → Option Bool
compare_with_sim host a m size reverse =
    sim_loop a m reverse size 0 (if reverse then size - 1 else 0) (u8 host.uninit)

abbrev pub word_value : ℕ
word_value = 0x11223344

abbrev pub half_value : ℕ
half_value = 0x5566

-- The loop that writes the bytes of the word, `n` of them from `i` on.
unfoldable pub write_all : Host → ℕ → ℕ → Memory → Option Memory
write_all host zero i m = some m
write_all host (suc n) i m = do
  (code, m₁) ← memory_write_byte m i (byte_in host 4 word_value i)
  write_all host n (i + 1) m₁

-- A word or a half word that is read in order `be`, against the word that was written by bytes.
unfoldable pub test_read_word : Host → Memory → Bool → Bool → ℕ → Option ℕ
test_read_word host m be reverse fail = do
  (code, read) ← memory_read_word m 0 host.uninit be
  some (
      assert_print (compare_bytes (byte_in host 4 word_value) (byte_in host 4 read) 4 reverse) fail)

unfoldable pub test_read_half : Host → Memory → Bool → Bool → ℕ → Option ℕ
test_read_half host m be reverse fail = do
  (code, read) ← memory_read_half m 0 host.uninit be
  some (
      assert_print (compare_bytes (byte_in host 4 word_value) (byte_in host 2 read) 2 reverse) fail)

-- What is read against the bytes of the simulated memory.
unfoldable pub test_sim_word : Host → Memory → Bool → Bool → ℕ → Option ℕ
test_sim_word host m be reverse fail = do
  (code, read) ← memory_read_word m 0 host.uninit be
  same ← compare_with_sim host (byte_in host 4 read) m 4 reverse
  some (assert_print same fail)

unfoldable pub test_sim_half : Host → Memory → Bool → Bool → ℕ → Option ℕ
test_sim_half host m be reverse fail = do
  (code, read) ← memory_read_half m 0 host.uninit be
  same ← compare_with_sim host (byte_in host 2 read) m 2 reverse
  some (assert_print same fail)

-- What is written against the bytes of the simulated memory.
unfoldable pub test_write_word : Host → Bool → Bool → Memory → ℕ → Option (Memory × ℕ)
test_write_word host be reverse m fail = do
  (code, m₁) ← memory_write_word m 0 word_value be
  same ← compare_with_sim host (byte_in host 4 word_value) m₁ 4 reverse
  some (m₁, assert_print same fail)

unfoldable pub test_write_half : Host → Bool → Bool → Memory → ℕ → Option (Memory × ℕ)
test_write_half host be reverse m fail = do
  (code, m₁) ← memory_write_half m 0 half_value be
  same ← compare_with_sim host (byte_in host 2 half_value) m₁ 2 reverse
  some (m₁, assert_print same fail)

-- The four accesses past the memory, of which -1 is expected.
unfoldable pub test_invalid : Host → Memory → ℕ → ℕ → Option ℕ
test_invalid host m address fail = do
  let be = host.is_big_endian
  (w, m₁) ← memory_write_word m address word_value be
  (h, m₂) ← memory_write_half m₁ address half_value be
  (rw, read_word) ← memory_read_word m₂ address host.uninit be
  (rh, read_half) ← memory_read_half m₂ address host.uninit be
  some (
      assert_print (rh == minus_one) (
        assert_print (rw == minus_one)
          (assert_print (h == minus_one) (assert_print (w == minus_one) fail))))

-- The tests on a memory that was created.
unfoldable pub test_memory : Host → Memory → Option ℕ
test_memory host m = do
  let same = host.is_big_endian
  let other = not host.is_big_endian
  m₁ ← write_all host 4 0 m
  f₁ ← test_read_word host m₁ same false 0
  f₂ ← test_read_half host m₁ same false f₁
  f₃ ← test_read_word host m₁ other true f₂
  f₄ ← test_read_half host m₁ other true f₃
  f₅ ← test_sim_word host m₁ same false f₄
  f₆ ← test_sim_half host m₁ same false f₅
  f₇ ← test_sim_word host m₁ other true f₆
  f₈ ← test_sim_half host m₁ other true f₇
  (m₂, f₉) ← test_write_word host same false m₁ f₈
  (m₃, f₁₀) ← test_write_half host same false m₂ f₉
  (m₄, f₁₁) ← test_write_word host other true m₃ f₁₀
  (m₅, f₁₂) ← test_write_half host other true m₄ f₁₁
  test_invalid host m₅ (memory_get_size m₅ + 1) f₁₂

-- `main` of memory_test.c; an assertion that fails gives `none`.
unfoldable pub memory_test : Host → Bool → Option (ℕ → ℕ) → Option ℕ
memory_test host made block = by (memory_create made block 4)
  where
    by : Memory → Option ℕ
    by none = some 1
    by (some m) = if memory_get_size (some m) == 4 then test_memory host (some m) else none

-- The loops over the registers, `n` of them from `i` on, with the words for each.
unfoldable pub write_words : Host → ℕ → (ℕ → ℕ) → ℕ → ℕ → Registers → Option Registers
write_words host mode words zero i r = some r
write_words host mode words (suc n) i r = do
  r₁ ← registers_write host r i mode (words i)
  write_words host mode words n (i + 1) r₁

unfoldable pub compare_words : Host → ℕ → (ℕ → ℕ) → ℕ → ℕ → Registers → Option Bool
compare_words host mode words zero i r = some true
compare_words host mode words (suc n) i r = do
  word_read ← registers_read host r i mode
  elim (word_read == words i) [
    | true ↦ compare_words host mode words n (i + 1) r
    | false ↦ some false
  ]

-- The tests of the pointers, on registers that were written.
unfoldable pub test_pc : Host → Registers → Option ℕ
test_pc host r = do
  a ← registers_read host r 15 usr
  b ← registers_read host r 15 irq
  some (if not (a == b) then 1 else 0)

unfoldable pub test_lr : Host → Registers → Option ℕ
test_lr host r = do
  r₁ ← registers_write host r 14 usr 0x10
  r₂ ← registers_write host r₁ 14 irq 0x5
  a ← registers_read host r₂ 14 usr
  b ← registers_read host r₂ 14 irq
  if a == b then some 1 else test_pc host r₂

unfoldable pub test_modes : Host → Registers → Option ℕ
test_modes host r = do
  spsr ← registers_read_spsr host r irq
  a ← registers_read host r 0 usr
  b ← registers_read host r 0 irq
  if not (a == b) then some 1 else test_lr host r

unfoldable pub test_status : Host → Registers → Option ℕ
test_status host r =
    if not (registers_get_mode r == usr)
    then some 1
    else (let r₁ = registers_write_cpsr r 0x1d3 in
        if not (registers_in_a_privileged_mode r₁)
        then some 1
        else if not (registers_current_mode_has_spsr r₁)
        then some 1
        else test_modes host r₁)

-- `main` of registers_test.c; `random` gives the results of the calls of random().
unfoldable pub registers_test : Host → (ℕ → ℕ) → Option ℕ
registers_test host random = do
  let r = registers_write_cpsr registers_create 0x110
  let mode = registers_get_mode r
  let word_value = λ (i : ℕ). u32 (random i)
  r₁ ← write_words host mode word_value 15 0 r
  same ← compare_words host mode word_value 15 0 r₁
  if same then test_status host r₁ else some 1
