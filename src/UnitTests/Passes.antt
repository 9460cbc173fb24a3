-- ===== src/UnitTests/Passes.antt =====
-- memory_test.c, registers_test.c: the test programs pass.
use arm_sim.Base.{
  ℕ, zero, suc, ◌+◌, ◌≤◌, ◌<◌, ◌^◌, ◌≡◌, ◌∙◌, refl, ap, arith, ◌==◌, if◌then◌else◌, Bool, true,
  false, Option, some, Bool-cases, inl, inr, ==_iff,
}
use arm_sim.Host.{Host}
use arm_sim.Memory.{
  memory_create, memory_get_size, memory_read_byte, memory_read_half, memory_read_word,
  memory_write_byte, memory_write_half, memory_write_word, peek, poke,
}
use arm_sim.Registers.{
  Registers, usr, registers_create, registers_get_mode, registers_read, registers_read_spsr,
  registers_write, registers_write_cpsr, registers_in_a_privileged_mode,
  registers_current_mode_has_spsr,
}
use arm_sim.Util.{u32}
use arm_sim.Util.{get_bits}
use arm_sim.Registers.Laws.{to_stored-to_stored}
use arm_sim.Registers.{
  ptrs, cells, registers_mode_has_spsr, cell, get_read_write_mode, put_cell, to_stored,
}
use arm_sim.Registers.Banks.{
  faults, same_bank, is_mode, cell_of_sound, registers_read-registers_write,
}
use arm_sim.UnitTests.{
  memory_test, test_memory, write_all, test_read_word, test_read_half, test_sim_word, test_sim_half,
  test_write_word, test_write_half, test_invalid, compare_with_sim, sim_loop, compare_bytes,
  compare_loop, byte_in, registers_test, write_words, compare_words, test_status, test_modes,
  test_lr, test_pc,
}

memory_test-passes :
    (host : Host) (contents : ℕ → ℕ) → memory_test host true (some contents) ≡ some 0
unfolding memory_test test_memory memory_create memory_get_size memory_read_byte memory_read_half
    memory_read_word memory_write_byte memory_write_half memory_write_word peek poke write_all
    test_read_word test_read_half test_sim_word test_sim_half test_write_word test_write_half
    test_invalid compare_with_sim sim_loop compare_bytes compare_loop byte_in
memory_test-passes host contents = by host.is_big_endian host.endianess host.wide_shl host.uninit
  where
    by :
        (big end : Bool) (wide : ℕ → ℕ → ℕ) (unset : ℕ)
        → memory_test
            (record { is_big_endian = big; endianess = end; wide_shl = wide; uninit = unset })
            true
            (some contents)
          ≡ some 0
    by true end wide unset = refl
    by false end wide unset = refl

-- User mode has r0 to r14, in one bank.
user_sound : (k : ℕ) → k < 15 → faults k usr ≡ false
unfolding faults
user_sound k h = ground (arith, h)

user_bank : (k : ℕ) → k < 15 → same_bank k usr usr ≡ true
unfolding same_bank
user_bank k h = ground (arith, h)

module _ (host : Host) (words : ℕ → ℕ) (small : (i : ℕ) → words i < 2 ^ 32) where
  -- After the first loop: the registers from `i` to `past` hold their words, those below `i` and the
  -- status stay.
  record Written (i past : ℕ) (r r' : Registers) : Type 0 where
    stay : (k : ℕ) → k < i → registers_read host r' k usr ≡ registers_read host r k usr
    hold : (k : ℕ) → i ≤ k → k < past → registers_read host r' k usr ≡ some (words k)
    status : r'.data_of 16 0 ≡ r.data_of 16 0

  -- One write.
  written_one :
      (i : ℕ) (r : Registers)
      → i < 15
      → (r' : Registers) × (registers_write host r i usr (words i) ≡ some r')
        × ((k : ℕ)
            → k < 15
            → registers_read host r' k usr
              ≡ (if i == k then some (words i) else registers_read host r k usr))
        × (r'.data_of 16 0 ≡ r.data_of 16 0)
  unfolding registers_write is_mode
  written_one i r h =
      let (c, e) = cell_of_sound i usr (omega arith) refl (user_sound i h) in
      let r' = put_cell r i c (to_stored host (words i)) in
      let written : registers_write host r i usr (words i) ≡ some r' = rw e refl in
      (
        r',
        written,
        λ k hk.
            registers_read-registers_write host r r' i k usr usr (words i) (omega arith)
              (omega arith) refl refl (user_sound k hk) (small i) written
            ∙ rw (user_bank i h) (ground arith),
        ground (arith, h),
      )

  write_words-Written :
      (n i : ℕ) (r : Registers)
      → i + n ≤ 15
      → (r' : Registers) × (write_words host usr words n i r ≡ some r') × Written i (i + n) r r'
  unfolding write_words
  write_words-Written zero i r h =
      (r, refl, record { stay = λ k l. refl; hold = λ k l u. absurd (omega arith); status = refl })
  write_words-Written (suc n) i r h =
      let (r₁, ran, reads, kept) = written_one i r (omega arith) in
      let (r', ran', w) = write_words-Written n (i + 1) r₁ (omega arith) in
      (
        r',
        rw ran ran',
        record {
          stay = λ k l.
              w.stay k (omega arith)
              ∙ reads k (omega arith)
              ∙ (let differ : (i == k) ≡ false = ground (arith, l) in rw differ refl);
          hold = λ k l u. elim (Bool-cases (i == k)) [
            | inl e ↦
                w.stay k (ground (arith, e))
                ∙ reads k (omega arith)
                ∙ rw e (ap (λ (j : ℕ). some (words j)) ((==_iff i k).0 e))
            | inr e ↦ w.hold k (ground (arith, e, l)) (omega arith)
          ];
          status = w.status ∙ kept;
        },
      )

  matched :
      (b : Bool) (rest : Option Bool)
      → b ≡ true
      → rest ≡ some true
      → (elim b [ true ↦ rest | false ↦ some false ]) ≡ some true
  matched true rest h k = k
  matched false rest h k = cc

  compare_words-true :
      (n i : ℕ) (r : Registers)
      → ((k : ℕ) → i ≤ k → k < i + n → registers_read host r k usr ≡ some (words k))
      → compare_words host usr words n i r ≡ some true
  unfolding compare_words
  compare_words-true zero i r h = refl
  compare_words-true (suc n) i r h =
      let later = compare_words-true n (i + 1) r (λ k l u. h k (omega arith) (omega arith)) in
      let same : (words i == words i) ≡ true = ground arith in
      rw (h i (omega arith) (omega arith))
        (matched (words i == words i) (compare_words host usr words n (i + 1) r) same later)

-- The tests of the modes pass on all registers.
test_modes-passes : (host : Host) (r : Registers) → test_modes host r ≡ some 0
unfolding test_modes test_lr test_pc registers_read_spsr registers_read registers_write cell ptrs
    cells get_read_write_mode
test_modes-passes host r =
    let x = to_stored-to_stored host 0x10 (omega arith) in
    let y = to_stored-to_stored host 0x5 (omega arith) in ground (arith, x, y)

test_status-passes :
    (host : Host) (r : Registers) → r.data_of 16 0 ≡ 0x110 → test_status host r ≡ some 0
unfolding test_status registers_get_mode registers_in_a_privileged_mode
    registers_current_mode_has_spsr registers_mode_has_spsr registers_write_cpsr get_read_write_mode
    get_bits
test_status-passes host r h = rw h (test_modes-passes host _)

registers_test-passes : (host : Host) (random : ℕ → ℕ) → registers_test host random ≡ some 0
unfolding registers_test registers_get_mode registers_write_cpsr registers_create get_bits
registers_test-passes host random =
    let words = λ (i : ℕ). u32 (random i) in
    let r = registers_write_cpsr registers_create 0x110 in
    let (r₁, ran, w) = write_words-Written host words (λ i. omega arith) 15 0 r (omega arith) in
    let same = compare_words-true host words (λ i. omega arith) 15 0 r₁ (λ k l u. w.hold k l u) in
    rw (ran, same) (test_status-passes host r₁ w.status)

-- Both test programs return 0 on a machine of either byte order, whatever malloc leaves in the block of
-- memory, whatever the variables that are not initialised hold, and whatever random() gives.
unit_tests-pass :
    (host : Host) (contents random : ℕ → ℕ)
    → (memory_test host true (some contents) ≡ some 0) × (registers_test host random ≡ some 0)
unit_tests-pass host contents random =
    (memory_test-passes host contents, registers_test-passes host random)
