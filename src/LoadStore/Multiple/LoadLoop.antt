-- ===== src/LoadStore/Multiple/LoadLoop.antt =====
-- arm_load_store.c: the loop of LDM, which gives each listed register its word.
use arm_sim.Base.{
  ℕ, zero, suc, ◌+◌, ◌-◌, ◌*◌, ◌≤◌, ◌<◌, ◌^◌, ◌≡◌, ◌∙◌, refl, ap, subst, arith, bit_and, leb, ltb,
  ltb→lt, ◌==◌, ==_iff, Bool-cases, inl, inr, if◌then◌else◌, ◌&&◌, true, some,
}
use arm_sim.Bits.{bit_and-le}
use arm_sim.Host.{Host}
use arm_sim.Util.{add32, get_bit}
use arm_sim.Util.Laws.{get_bit-lt}
use arm_sim.Memory.{Memory, MemoryData, memory_read_word}
use arm_sim.Memory.Laws.{IsBlock, word_at, memory_read_word-eq}
use arm_sim.Core.{ArmCore, arm_read_word}
use arm_sim.Core.File.{
  IsRegular, reg_at, put_reg, cpsr_of, arm_write_register-eq, reg_at-put_reg, put_reg-IsRegular,
  cpsr_of-put_reg,
}
use arm_sim.LoadStore.Single.{word_at-lt}
use arm_sim.LoadStore.Multiple.{count_bits, transfer_one, transfer_loop}

-- The number of listed registers, counted from the first on.
module _ (list : ℕ) where
  pub count_suc : (n i : ℕ) → count_bits list (suc n) i ≡ get_bit list i + count_bits list n (i + 1)
  unfolding count_bits
  count_suc n i = refl

  pub count_from :
      (i j : ℕ)
      → i < j
      → count_bits list (j - i) i ≡ get_bit list i + count_bits list (j - (i + 1)) (i + 1)
  count_from i j h =
      subst (λ n. count_bits list n i ≡ get_bit list i + count_bits list (j - (i + 1)) (i + 1))
        {x = suc (j - (i + 1))} {y = j - i} (omega arith) (count_suc (j - (i + 1)) i)

  pub count_none : (i : ℕ) → count_bits list (i - i) i ≡ 0
  unfolding count_bits
  count_none i = subst (λ n. count_bits list n i ≡ 0) {x = 0} {y = i - i} (omega arith) refl

-- The word at an address as register `j` takes it: the pc has its two low bits cleared.
abbrev pub word_for : Host → MemoryData → ℕ → ℕ → ℕ
word_for host m j a =
    if j == 15 then bit_and (word_at m a host.endianess) 0xfffffffc else word_at m a host.endianess

-- The word that register `j` holds after a loop from `i` to `i + n` that began at address `a`: the
-- registers of the list stand in memory in the order of their numbers.
abbrev pub loaded_word : Host → MemoryData → ArmCore → ℕ → ℕ → ℕ → ℕ → ℕ → ℕ
loaded_word host m p list n i a j =
    if leb i j && (ltb j (i + n) && get_bit list j == 1)
    then word_for host m j (a + 4 * count_bits list (j - i) i)
    else reg_at host p j

pub mem-put_reg : (host : Host) (i v : ℕ) (p : ArmCore) → (put_reg host i v p).mem ≡ p.mem
unfolding put_reg
mem-put_reg host i v p = refl

pub out-put_reg : (host : Host) (i v : ℕ) (p : ArmCore) → (put_reg host i v p).out ≡ p.out
unfolding put_reg
out-put_reg host i v p = refl

pub record Loads (host : Host) (m : MemoryData) (p : ArmCore) (list n i a : ℕ) (p' : ArmCore)
    : Type 0 where
  pub regular : IsRegular p'
  pub memory : p'.mem ≡ p.mem
  pub output : p'.out ≡ p.out
  pub status : cpsr_of p' ≡ cpsr_of p
  pub words : (j : ℕ) → j < 16 → reg_at host p' j ≡ loaded_word host m p list n i a j

module _ (host : Host) (m : MemoryData) (block : IsBlock m) (small : m.size < 2 ^ 32)
    (list : ℕ) where
  word_for-lt : (j a : ℕ) → word_for host m j a < 2 ^ 32
  word_for-lt j a = ground (
    arith,
    word_at-lt m a host.endianess block,
    bit_and-le (word_at m a host.endianess) 0xfffffffc,
  )

  transfer_one-loads :
      (p : ArmCore) (i a value : ℕ)
      → IsRegular p
      → p.mem ≡ some m
      → i < 16
      → a + 3 < m.size
      → transfer_one host true i a value p
        ≡ some (word_for host m i a, put_reg host i (word_for host m i a) p)
  unfolding transfer_one arm_read_word
  transfer_one-loads p i a value w memory h inside =
      let read : memory_read_word p.mem a value host.endianess
          ≡ some (0, word_at m a host.endianess) =
        ap (λ (x : Memory). memory_read_word x a value host.endianess) memory
        ∙ memory_read_word-eq m a value host.endianess block inside in
      rw (read, arm_write_register-eq host p w i h (word_for host m i a)) refl

  -- A register that is not in the list is passed over.
  words_skip :
      (p : ArmCore) (n i a j : ℕ)
      → get_bit list i ≡ 0
      → loaded_word host m p list n (i + 1) a j ≡ loaded_word host m p list (suc n) i a j
  words_skip p n i a j off = elim (Bool-cases (ltb i j)) [
    | inl l ↦
        let from = count_from list i j (ltb→lt i j l) in
        let same : word_for host m j (a + 4 * count_bits list (j - (i + 1)) (i + 1))
            ≡ word_for host m j (a + 4 * count_bits list (j - i) i) =
          ap (word_for host m j) (omega arith) in
        ground (arith, l, same)
    | inr l ↦ elim (Bool-cases (i == j)) [
      | inl e ↦
          subst
            (λ k. loaded_word host m p list n (i + 1) a k ≡ loaded_word host m p list (suc n) i a k)
            ((==_iff i j).0 e) (ground (arith, off))
      | inr e ↦ ground (arith, l, e)
    ]
  ]

  words_here :
      (p : ArmCore) (n i a : ℕ)
      → IsRegular p
      → i < 16
      → get_bit list i ≡ 1
      → loaded_word host m (put_reg host i (word_for host m i a) p) list n (i + 1) (add32 a 4) i
        ≡ loaded_word host m p list (suc n) i a i
  words_here p n i a w hi on =
      let kept = reg_at-put_reg host p w i hi (word_for host m i a) i (word_for-lt i a) hi in
      let none_before = count_none list i in
      let same : word_for host m i a ≡ word_for host m i (a + 4 * count_bits list (i - i) i) =
        ap (word_for host m i) (omega arith) in
      ground (arith, kept, same, on)

  -- A register of the list takes the word at the address.
  words_take :
      (p : ArmCore) (n i a j : ℕ)
      → IsRegular p
      → i < 16
      → j < 16
      → get_bit list i ≡ 1
      → a + 4 < 2 ^ 32
      → loaded_word host m (put_reg host i (word_for host m i a) p) list n (i + 1) (add32 a 4) j
        ≡ loaded_word host m p list (suc n) i a j
  words_take p n i a j w hi hj on fits =
      let kept = reg_at-put_reg host p w i hi (word_for host m i a) j (word_for-lt i a) hj in
      elim (Bool-cases (ltb i j)) [
        | inl l ↦
            let from = count_from list i j (ltb→lt i j l) in
            let same : word_for host m j (add32 a 4 + 4 * count_bits list (j - (i + 1)) (i + 1))
                ≡ word_for host m j (a + 4 * count_bits list (j - i) i) =
              ap (word_for host m j) (omega arith) in
            ground (arith, l, same, kept)
        | inr l ↦ elim (Bool-cases (i == j)) [
          | inl e ↦
              subst
                (λ k.
                  loaded_word host m (put_reg host i (word_for host m i a) p) list n (i + 1)
                    (add32 a 4) k
                  ≡ loaded_word host m p list (suc n) i a k)
                ((==_iff i j).0 e) (words_here p n i a w hi on)
          | inr e ↦ ground (arith, l, e, kept)
        ]
      ]

  pub transfer_loop-Loads :
      (n i a value : ℕ) (p : ArmCore)
      → IsRegular p
      → p.mem ≡ some m
      → i + n ≤ 16
      → a + 4 * count_bits list n i ≤ m.size
      → (p' : ArmCore) × (transfer_loop host true list n i a value p ≡ some (tt, p'))
        × Loads host m p list n i a p'
  unfolding transfer_loop
  transfer_loop-Loads zero i a value p w memory h inside = (
    p,
    refl,
    record {
      regular = w;
      memory = refl;
      output = refl;
      status = refl;
      words = λ j hj. ground arith;
    },
  )
  transfer_loop-Loads (suc n) i a value p w memory h inside =
      let counted = count_suc list n i in
      let bit = get_bit-lt list i in
      elim (Bool-cases (get_bit list i == 1)) [
        | inl on ↦
            let one = (==_iff (get_bit list i) 1).0 on in
            let word = word_for host m i a in
            let p₁ = put_reg host i word p in
            let step = transfer_one-loads p i a value w memory (omega arith) (omega arith) in
            let (p', ran, q) =
              transfer_loop-Loads n (i + 1) (add32 a 4) word p₁
                (put_reg-IsRegular host p w i (omega arith) word (word_for-lt i a))
                (mem-put_reg host i word p ∙ memory) (omega arith) (omega arith) in
            (
              p',
              rw (on, step) ran,
              record {
                regular = q.regular;
                memory = q.memory ∙ mem-put_reg host i word p;
                output = q.output ∙ out-put_reg host i word p;
                status = q.status ∙ cpsr_of-put_reg host p i word (omega arith);
                words = λ j hj.
                    q.words j hj ∙ words_take p n i a j w (omega arith) hj one (omega arith);
              },
            )
        | inr off ↦
            let zero_bit : get_bit list i ≡ 0 = ground (arith, off, bit) in
            let (p', ran, q) =
              transfer_loop-Loads n (i + 1) a value p w memory (omega arith) (omega arith) in
            (
              p',
              rw off ran,
              record {
                regular = q.regular;
                memory = q.memory;
                output = q.output;
                status = q.status;
                words = λ j hj. q.words j hj ∙ words_skip p n i a j zero_bit;
              },
            )
      ]
