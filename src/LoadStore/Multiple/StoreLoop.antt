-- ===== src/LoadStore/Multiple/StoreLoop.antt =====
-- arm_load_store.c: the loop of STM, which stores each listed register at its place.
use arm_sim.Base.{
  ℕ, zero, suc, ◌+◌, ◌-◌, ◌*◌, ◌≤◌, ◌<◌, ◌^◌, ◌≡◌, ◌∙◌, refl, sym, ap, subst, arith, ◌==◌, ==_iff,
  Bool-cases, inl, inr, Bool, true, false, some,
}
use arm_sim.Host.{Host}
use arm_sim.Util.{add32, get_bit}
use arm_sim.Util.Laws.{get_bit-lt}
use arm_sim.Memory.{Memory, MemoryData, memory_write_word}
use arm_sim.Memory.Laws.{IsBlock, word_at, stored_word, memory_write_word-eq}
use arm_sim.Memory.Access.{SameBut, stored_word-IsBlock, stored_word-SameBut, word_at-stored_word}
use arm_sim.Core.{ArmCore, as_read, arm_write_word}
use arm_sim.Core.File.{IsRegular, reg_at, arm_read_register-eq, reg_at-lt, as_read-lt}
use arm_sim.LoadStore.Single.{with_memory}
use arm_sim.LoadStore.Multiple.LoadLoop.{count_suc, count_from, count_none}
use arm_sim.LoadStore.Multiple.{count_bits, transfer_one, transfer_loop}

SameBut-none : (a : ℕ) (m : MemoryData) → SameBut a 0 m m
SameBut-none a m = record { same_size = refl; elsewhere = λ i. ground arith }

SameBut-more :
    (a k : ℕ) (m₀ m₁ m₂ : MemoryData)
    → SameBut a 4 m₀ m₁
    → SameBut (a + 4) (4 * k) m₁ m₂
    → SameBut a (4 * (1 + k)) m₀ m₂
SameBut-more a k m₀ m₁ m₂ s t = record {
  same_size = t.same_size ∙ s.same_size;
  elsewhere = λ i. ground (arith, s.elsewhere i, t.elsewhere i);
}

count_zero : (list i a : ℕ) (m : MemoryData) → SameBut a (4 * count_bits list 0 i) m m
unfolding count_bits
count_zero list i a m = SameBut-none a m

-- A word below the range that changes is kept.
word_at-below :
    (a k : ℕ) (m m' : MemoryData) (be : Bool)
    → SameBut (a + 4) k m m'
    → word_at m' a be ≡ word_at m a be
word_at-below a k m m' true s =
    ground (arith, s.elsewhere a, s.elsewhere (a + 1), s.elsewhere (a + 2), s.elsewhere (a + 3))
word_at-below a k m m' false s =
    ground (arith, s.elsewhere a, s.elsewhere (a + 1), s.elsewhere (a + 2), s.elsewhere (a + 3))

-- The block after a loop from `i` to `i + n` that began at address `a`.
pub record Stores (host : Host) (p : ArmCore) (m : MemoryData) (list n i a : ℕ) (m' : MemoryData)
    : Type 0 where
  pub block : IsBlock m'
  pub others : SameBut a (4 * count_bits list n i) m m'
  pub words :
      (j : ℕ)
      → i ≤ j
      → j < i + n
      → get_bit list j ≡ 1
      → word_at m' (a + 4 * count_bits list (j - i) i) host.endianess ≡ as_read j (reg_at host p j)

pub reg_at-with_memory :
    (host : Host) (m : MemoryData) (p : ArmCore) (j : ℕ)
    → reg_at host (with_memory m p) j ≡ reg_at host p j
unfolding reg_at
reg_at-with_memory host m p j = refl

pub with_memory-IsRegular :
    (m : MemoryData) (p : ArmCore) → IsRegular p → IsRegular (with_memory m p)
with_memory-IsRegular m p w = record {
  known_mode = w.known_mode;
  not_fiq = w.not_fiq;
  words = w.words;
}

module _ (host : Host) (list : ℕ) where
  transfer_one-stores :
      (p : ArmCore) (m : MemoryData) (i a value : ℕ)
      → IsRegular p
      → IsBlock m
      → p.mem ≡ some m
      → i < 16
      → a + 3 < m.size
      → transfer_one host false i a value p
        ≡ some (value, with_memory (stored_word m a (as_read i (reg_at host p i)) host.endianess) p)
  unfolding transfer_one arm_write_word
  transfer_one-stores p m i a value w block memory h inside =
      let v = as_read i (reg_at host p i) in
      let wrote : memory_write_word p.mem a v host.endianess
          ≡ some (0, some (stored_word m a v host.endianess)) =
        ap (λ (x : Memory). memory_write_word x a v host.endianess) memory
        ∙ memory_write_word-eq m a v host.endianess block.addressable inside in
      rw (arm_read_register-eq host p w i h, wrote) refl

  -- The word that the loop stores first, and the words that it stores after it.
  words_stored :
      (p : ArmCore) (m m' : MemoryData) (n i a j : ℕ)
      → IsRegular p
      → i < 16
      → a + 4 < 2 ^ 32
      → get_bit list i ≡ 1
      → Stores host
          (with_memory (stored_word m a (as_read i (reg_at host p i)) host.endianess) p)
          (stored_word m a (as_read i (reg_at host p i)) host.endianess)
          list
          n
          (i + 1)
          (a + 4)
          m'
      → i ≤ j
      → j < i + suc n
      → get_bit list j ≡ 1
      → word_at m' (a + 4 * count_bits list (j - i) i) host.endianess ≡ as_read j (reg_at host p j)
  words_stored p m m' n i a j w hi fits on q low high set =
      let v = as_read i (reg_at host p i) in
      elim (Bool-cases (i == j)) [
        | inl e ↦
            let first : word_at m' a host.endianess ≡ v =
              word_at-below a (4 * count_bits list n (i + 1)) (stored_word m a v host.endianess) m'
                host.endianess q.others
              ∙ word_at-stored_word m a v host.endianess
                  (as_read-lt i (reg_at host p i) (reg_at-lt host p w i hi)) in
            let none_before = count_none list i in
            let here : word_at m' (a + 4 * count_bits list (i - i) i) host.endianess ≡ v =
              ap (λ x. word_at m' x host.endianess) (omega arith) ∙ first in
            subst
              (λ k.
                word_at m' (a + 4 * count_bits list (k - i) i) host.endianess
                ≡ as_read k (reg_at host p k))
              ((==_iff i j).0 e) here
        | inr e ↦
            let above : i < j = ground (arith, e, low) in
            let from = count_from list i j above in
            let same : a + 4 * count_bits list (j - i) i
                ≡ a + 4 + 4 * count_bits list (j - (i + 1)) (i + 1) =
              omega arith in
            ap (λ x. word_at m' x host.endianess) same
            ∙ q.words j (omega arith) (omega arith) set
            ∙ ap (as_read j) (reg_at-with_memory host (stored_word m a v host.endianess) p j)
      ]

  -- A register that is not in the list is passed over.
  words_passed :
      (p : ArmCore) (m m' : MemoryData) (n i a j : ℕ)
      → get_bit list i ≡ 0
      → Stores host p m list n (i + 1) a m'
      → i ≤ j
      → j < i + suc n
      → get_bit list j ≡ 1
      → word_at m' (a + 4 * count_bits list (j - i) i) host.endianess ≡ as_read j (reg_at host p j)
  words_passed p m m' n i a j off q low high set = elim (Bool-cases (i == j)) [
    | inl e ↦
        let on : get_bit list i ≡ 1 = ap (get_bit list) ((==_iff i j).0 e) ∙ set in
        ground (arith, on, off)
    | inr e ↦
        let above : i < j = ground (arith, e, low) in
        let from = count_from list i j above in
        let same : a + 4 * count_bits list (j - i) i
            ≡ a + 4 * count_bits list (j - (i + 1)) (i + 1) =
          omega arith in
        ap (λ x. word_at m' x host.endianess) same ∙ q.words j (omega arith) (omega arith) set
  ]

  pub transfer_loop-Stores :
      (n i a value : ℕ) (p : ArmCore) (m : MemoryData)
      → IsRegular p
      → IsBlock m
      → m.size < 2 ^ 32
      → p.mem ≡ some m
      → i + n ≤ 16
      → a + 4 * count_bits list n i ≤ m.size
      → (m' : MemoryData) × (transfer_loop host false list n i a value p
          ≡ some (tt, with_memory m' p))
        × Stores host p m list n i a m'
  unfolding transfer_loop
  transfer_loop-Stores zero i a value p m w block small memory h inside = (
    m,
    ap (λ (x : Memory). some (tt, record p { mem = x })) memory,
    record {
      block = block;
      others = count_zero list i a m;
      words = λ j low high set. ground arith;
    },
  )
  transfer_loop-Stores (suc n) i a value p m w block small memory h inside =
      let counted = count_suc list n i in
      let bit = get_bit-lt list i in
      elim (Bool-cases (get_bit list i == 1)) [
        | inl on ↦
            let one = (==_iff (get_bit list i) 1).0 on in
            let m₁ = stored_word m a (as_read i (reg_at host p i)) host.endianess in
            let s = stored_word-SameBut m a (as_read i (reg_at host p i)) host.endianess in
            let ahead : add32 a 4 ≡ a + 4 = omega arith in
            let step =
              transfer_one-stores p m i a value w block memory (omega arith) (omega arith) in
            let (m', ran, q) =
              transfer_loop-Stores n (i + 1) (a + 4) value (with_memory m₁ p) m₁
                (with_memory-IsRegular m₁ p w)
                (stored_word-IsBlock m a (as_read i (reg_at host p i)) host.endianess block)
                (omega (arith, s.same_size)) refl (omega arith) (omega (arith, s.same_size)) in
            let ran' : transfer_loop host false list n (i + 1) (add32 a 4) value (with_memory m₁ p)
                ≡ some (tt, with_memory m' p) =
              ap (λ b. transfer_loop host false list n (i + 1) b value (with_memory m₁ p)) ahead
              ∙ ran in
            (
              m',
              rw (on, step) ran',
              record {
                block = q.block;
                others =
                    subst (λ k. SameBut a (4 * k) m m')
                      (ap (λ b. b + count_bits list n (i + 1)) (sym one) ∙ sym counted)
                      (SameBut-more a (count_bits list n (i + 1)) m m₁ m' s q.others);
                words = λ j low high set.
                    words_stored p m m' n i a j w (omega arith) (omega arith) one q low high set;
              },
            )
        | inr off ↦
            let zero_bit : get_bit list i ≡ 0 = ground (arith, off, bit) in
            let (m', ran, q) =
              transfer_loop-Stores n (i + 1) a value p m w block small memory (omega arith)
                (omega arith) in
            (
              m',
              rw off ran,
              record {
                block = q.block;
                others = subst (λ k. SameBut a (4 * k) m m') (omega arith) q.others;
                words = λ j low high set. words_passed p m m' n i a j zero_bit q low high set;
              },
            )
      ]
