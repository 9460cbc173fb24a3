-- ===== src/Gdb/Breakpoints/Loops.antt =====
-- gdb_protocol.c: what the loops of an insertion and of a removal leave in each slot.
use arm_sim.Base.{ℕ, zero, suc, ◌+◌, ◌-◌, ◌≤◌, ◌<◌, ◌≡◌, ◌⊎◌, inl, inr, arith, some}
use arm_sim.Base.{ltb, leb, ◌==◌, ◌&&◌, if◌then◌else◌}
use arm_sim.Gdb.Breakpoints.{max_breakpoints_number, insert_loop, remove_loop}

-- A slot after an insertion at `q` in `n` slots, and after a removal at `p`.
abbrev pub inserted : (ℕ → ℕ) → ℕ → ℕ → ℕ → ℕ → ℕ
inserted b n q address i =
    if ltb i q then b i else if i == q then address else if leb i n then b (i - 1) else b i

abbrev pub removed : (ℕ → ℕ) → ℕ → ℕ → ℕ → ℕ
removed b p last i = if leb p i && ltb i last then b (i + 1) else b i

lt_or_ge : (x y : ℕ) → (x < y) ⊎ (y ≤ x)
lt_or_ge x y = grind arith

-- The loop stops at a slot `q`, the slots below `q` up to it hold no more than the address, and those
-- it has moved hold more.
pub record Inserts (b : ℕ → ℕ) (n address : ℕ) : Type 0 where
  pub q : ℕ
  pub result : ℕ → ℕ
  pub runs : insert_loop b address n ≡ some result
  pub place : q ≤ n
  pub slots : (i : ℕ) → result i ≡ inserted b n q address i
  pub before : 0 < q → b (q - 1) ≤ address
  pub after : (i : ℕ) → q ≤ i → i < n → address < b i

abbrev set : (ℕ → ℕ) → ℕ → ℕ → ℕ → ℕ
set b i v j = if i == j then v else b j

stops :
    (b : ℕ → ℕ) (j address : ℕ)
    → suc j < max_breakpoints_number
    → b j ≤ address
    → insert_loop b address (suc j) ≡ some (set b (suc j) address)
unfolding insert_loop
stops b j address h p = ground arith

moves :
    (b : ℕ → ℕ) (j address : ℕ)
    → suc j < max_breakpoints_number
    → address < b j
    → insert_loop b address (suc j) ≡ insert_loop (set b (suc j) (b j)) address j
unfolding insert_loop
moves b j address h p = ground arith

pub insert_loop_lem :
    (n : ℕ) (b : ℕ → ℕ) (address : ℕ) → n < max_breakpoints_number → Inserts b n address
unfolding insert_loop
insert_loop_lem zero b address h = record {
  q = 0;
  result = set b 0 address;
  runs = ground arith;
  place = omega arith;
  slots = λ i. ground arith;
  before = λ p. omega arith;
  after = λ i p q. omega arith;
}
insert_loop_lem (suc j) b address h = elim (lt_or_ge address (b j)) [
  | inr low ↦ record {
    q = suc j;
    result = set b (suc j) address;
    runs = stops b j address h low;
    place = omega arith;
    slots = λ i. ground arith;
    before = λ p. ground arith;
    after = λ i p q. omega arith;
  }
  | inl high ↦
      let c = set b (suc j) (b j) in
      let r = insert_loop_lem j c address (omega arith) in
      record {
        q = r.q;
        result = r.result;
        runs = rw (moves b j address h high) r.runs;
        place = omega (arith, r.place);
        slots = λ i. ground (arith, r.slots i, r.place);
        before = λ p. ground (arith, r.before p, r.place);
        after = λ i p q. ground (arith, r.after i p);
      }
]

pub record Removes (b : ℕ → ℕ) (n p : ℕ) : Type 0 where
  pub result : ℕ → ℕ
  pub runs : remove_loop b n p ≡ some result
  pub slots : (i : ℕ) → result i ≡ removed b p (p + n) i

pub remove_loop_lem : (n p : ℕ) (b : ℕ → ℕ) → p + n < max_breakpoints_number → Removes b n p
unfolding remove_loop
remove_loop_lem zero p b h = record { result = b; runs = ground arith; slots = λ i. ground arith }
remove_loop_lem (suc n) p b h =
    let r = remove_loop_lem n (p + 1) (set b p (b (p + 1))) (omega arith) in
    record {
      result = r.result;
      runs = ground (arith, r.runs);
      slots = λ i. ground (arith, r.slots i);
    }
