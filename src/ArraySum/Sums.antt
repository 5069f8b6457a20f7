-- ===== src/ArraySum/Sums.antt =====
-- What the loop of the array-sum modules does for limits in order.
use linux_c_homeworks.Prelude.{
  ℕ, zero, suc, ◌+◌, ◌%◌, ◌^◌, ◌≤◌, ◌<◌, ◌≡◌, refl, ap, ◌∙◌, false, some, List, arith, length, set,
  get_or, length-set, get_or-set_self, get_or-set_ne, ltb, Bool-cases, inl, inr, ℕ_discrete,
}
use linux_c_homeworks.Prelude.Int.{ℤ, pos, negsuc, ◌≤ℤ◌, ◌<ℤ◌}
use linux_c_homeworks.Prelude.Words.{IsInt, u32, i32}
use linux_c_homeworks.RandNum.{returns, rand_num_get}
use linux_c_homeworks.RandNum.Range.{IsFull, rand_num_get_bounds, ne_zero}
use linux_c_homeworks.ArraySum.{Module, mul_int, add_int, factor, sum_loop, calculate_array_sum}

abbrev pub at : List ℤ → ℕ → ℤ
at xs k = get_or xs k (pos 0)

pub u32-i32 : (w : ℕ) → u32 (i32 w) ≡ w % 2 ^ 32
u32-i32 w = elim (Bool-cases (ltb (w % 2 ^ 32) (2 ^ 31))) [
  | inl low ↦ rw low (omega arith)
  | inr high ↦ rw high (omega arith)
]

-- The sum of the bit patterns of `n` elements from index i on.
abbrev pub total_from : List ℤ → ℕ → ℕ → ℕ
total_from ys i zero = 0
total_from ys i (suc n) = u32 (at ys i) + total_from ys (i + 1) n

-- An element multiplied by a number between the limits.
abbrev pub Scaled : ℤ → ℤ → ℤ → ℤ → Type 0
Scaled low high x y = (r : ℕ) × (y ≡ mul_int x r) × (low ≤ℤ i32 r) × (i32 r ≤ℤ high)

-- What the loop makes of the array xs in `n` rounds from index i, starting at `sum`.
pub record Summed (low high : ℤ) (xs ys : List ℤ) (i n : ℕ) (sum sum' : ℤ) : Type 0 where
  pub scaled : (k : ℕ) → i ≤ k → k < i + n → Scaled low high (at xs k) (at ys k)
  pub before : (k : ℕ) → k < i → at ys k ≡ at xs k
  pub after : (k : ℕ) → i + n ≤ k → at ys k ≡ at xs k
  pub adds : u32 sum' ≡ (u32 sum + total_from ys i n) % 2 ^ 32

u32-lt : (z : ℤ) → u32 z < 2 ^ 32
u32-lt (pos n) = omega arith
u32-lt (negsuc n) = omega arith

-- One round followed by the others.
extend :
    {low high : ℤ} (i n : ℕ) (xs ys : List ℤ) (sum sum' x : ℤ)
    → i < length xs
    → Scaled low high (at xs i) x
    → Summed low high (set xs i x) ys (i + 1) n (add_int sum x) sum'
    → Summed low high xs ys i (suc n) sum sum'
extend {low} {high} i n xs ys sum sum' x hi sc done = record {
  scaled = λ k p q. elim (ℕ_discrete i k) [
    | yes e ↦ rw (← e, here) sc
    | no apart ↦
        rw (get_or-set_ne xs i k x (pos 0) apart) at (done.scaled k (omega arith) (omega arith))
  ];
  before = λ k p. done.before k (omega arith) ∙ get_or-set_ne xs i k x (pos 0) (omega arith);
  after = λ k p. done.after k (omega arith) ∙ get_or-set_ne xs i k x (pos 0) (omega arith);
  adds = omega (arith, done.adds, u32-i32 (u32 sum + u32 x), ap u32 here);
}
  where
    here : at ys i ≡ x
    here = done.before i (omega arith) ∙ get_or-set_self xs i x (pos 0) hi

sum_loop_step :
    (rand : ℕ → ℕ) (low high : ℤ) (n i : ℕ) (xs : List ℤ) (sum : ℤ) {v : ℕ}
    → rand_num_get false (rand i) low high ≡ returns (pos 0) (some v)
    → sum_loop rand low high (suc n) i xs sum
      ≡ sum_loop rand low high n
          (i + 1)
          (set xs i (mul_int (at xs i) v))
          (add_int sum (mul_int (at xs i) v))
unfolding sum_loop
sum_loop_step rand low high n i xs sum e = rw (e, sum_loop, factor)

module _ (rand : ℕ → ℕ) (low high : ℤ) (hl : IsInt low) (hh : IsInt high) (h : low <ℤ high)
    (nf : ¬ IsFull low high) where
  sum_loop_lem :
      (n i : ℕ) (xs : List ℤ) (sum : ℤ)
      → i + n ≤ length xs
      → (ys : List ℤ) × (sum' : ℤ) × (sum_loop rand low high n i xs sum ≡ some (ys, sum'))
        × Summed low high xs ys i n sum sum'
  unfolding sum_loop
  sum_loop_lem zero i xs sum fits = (
    xs,
    sum,
    refl,
    record {
      scaled = λ k p q. absurd (omega arith);
      before = λ k p. refl;
      after = λ k p. refl;
      adds = omega (arith, u32-lt sum);
    },
  )
  sum_loop_lem (suc n) i xs sum fits =
      let (v, e, lo, hi) = rand_num_get_bounds (rand i) low high hl hh h nf in
      let x = mul_int (at xs i) v in
      let (ys, sum', run, done) =
        sum_loop_lem n (i + 1) (set xs i x) (add_int sum x) (omega (arith, length-set xs i x)) in
      (
        ys,
        sum',
        sum_loop_step rand low high n i xs sum e ∙ run,
        extend i n xs ys sum sum' x (omega arith) (v, refl, lo, hi) done,
      )

-- calculate_array_sum with limits in order that are not the whole range of `int`, over an array
-- with at least one element: it returns, each of the first `array_count` elements is multiplied by
-- a number between the limits (in `int`, wrapping), the others stay, and the sum that is printed is
-- the sum of the new elements modulo 2 ^ 32.
pub calculate_array_sum_lem :
    (rand : ℕ → ℕ) (m : Module)
    → IsInt m.m_low
    → IsInt m.m_high
    → m.m_low <ℤ m.m_high
    → ¬ IsFull m.m_low m.m_high
    → 0 < m.array_count
    → m.array_count ≤ length m.m_array
    → (ys : List ℤ) × (sum : ℤ) × (calculate_array_sum rand m
        ≡ some (record m { m_array = ys }, some sum))
      × Summed m.m_low m.m_high m.m_array ys 0 m.array_count (pos 0) sum
unfolding calculate_array_sum
calculate_array_sum_lem rand m hl hh h nf some_elements fits =
    let (ys, sum, run, done) =
      sum_loop_lem rand m.m_low m.m_high hl hh h nf m.array_count 0 m.m_array (pos 0)
        (omega arith) in
    (ys, sum, rw (ne_zero m.array_count some_elements, run), done)
