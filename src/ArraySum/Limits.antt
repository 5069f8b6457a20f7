-- ===== src/ArraySum/Limits.antt =====
-- What the array-sum modules do for limits that are not in order.
use linux_c_homeworks.Prelude.{
  ℕ, zero, suc, ◌+◌, ◌*◌, ◌≤◌, ◌<◌, ◌≡◌, refl, ◌∙◌, false, some, List, Option, arith, length, set,
  length-set, get_or-set_self, get_or-set_ne, ℕ_discrete,
}
use linux_c_homeworks.Prelude.Int.{ℤ, pos, ◌≤ℤ◌, ltb_ℤ}
use linux_c_homeworks.Prelude.Words.{u32}
use linux_c_homeworks.RandNum.Range.{ne_zero, rand_num_get_rejected}
use linux_c_homeworks.ArraySum.{
  Module, mul_int, factor, sum_loop, calculate_array_sum, recalculate, param_set_low_limit,
}
use linux_c_homeworks.ArraySum.Sums.{at}

mul_int-zero : (a : ℤ) → mul_int a 0 ≡ pos 0
mul_int-zero a = let e : u32 a * 0 ≡ 0 = omega arith in rw e

-- An array whose first n elements from index i on are 0, and which is else xs.
pub record Zeroed (xs ys : List ℤ) (i n : ℕ) : Type 0 where
  pub zeros : (k : ℕ) → i ≤ k → k < i + n → at ys k ≡ pos 0
  pub before : (k : ℕ) → k < i → at ys k ≡ at xs k
  pub after : (k : ℕ) → i + n ≤ k → at ys k ≡ at xs k

zero_more :
    (i n : ℕ) (xs ys : List ℤ)
    → i < length xs
    → Zeroed (set xs i (pos 0)) ys (i + 1) n
    → Zeroed xs ys i (suc n)
zero_more i n xs ys hi z = record {
  zeros = λ k p q. elim (ℕ_discrete i k) [
    | yes e ↦ rw (← e) (z.before i (omega arith) ∙ get_or-set_self xs i (pos 0) (pos 0) hi)
    | no apart ↦ z.zeros k (omega arith) (omega arith)
  ];
  before = λ k p. z.before k (omega arith) ∙ get_or-set_ne xs i k (pos 0) (pos 0) (omega arith);
  after = λ k p. z.after k (omega arith) ∙ get_or-set_ne xs i k (pos 0) (pos 0) (omega arith);
}

module _ (rand : ℕ → ℕ) (low high : ℤ) (h : high ≤ℤ low) where
  sum_loop_zero :
      (n i : ℕ) (xs : List ℤ)
      → i + n ≤ length xs
      → (ys : List ℤ) × (sum_loop rand low high n i xs (pos 0) ≡ some (ys, pos 0))
        × Zeroed xs ys i n
  unfolding sum_loop
  sum_loop_zero zero i xs fits = (
    xs,
    refl,
    record { zeros = λ k p q. absurd (omega arith); before = λ k p. refl; after = λ k p. refl },
  )
  sum_loop_zero (suc n) i xs fits =
      let (ys, run, z) =
        sum_loop_zero n (i + 1) (set xs i (pos 0)) (omega (arith, length-set xs i (pos 0))) in
      (
        ys,
        rw (rand_num_get_rejected (rand i) low high h, sum_loop, factor, mul_int-zero (at xs i))
            run,
        zero_more i n xs ys (omega arith) z,
      )

-- calculate_array_sum with limits that are not in order, m_high ≤ m_low: the code of rand_num_get
-- is not looked at, every element that was given becomes 0, and so does the sum.
pub calculate_array_sum_zero :
    (rand : ℕ → ℕ) (m : Module)
    → m.m_high ≤ℤ m.m_low
    → 0 < m.array_count
    → m.array_count ≤ length m.m_array
    → (ys : List ℤ) × (calculate_array_sum rand m ≡ some (record m { m_array = ys }, some (pos 0)))
      × Zeroed m.m_array ys 0 m.array_count
unfolding calculate_array_sum
calculate_array_sum_zero rand m h some_elements fits =
    let (ys, run, z) =
      sum_loop_zero rand m.m_low m.m_high h m.array_count 0 m.m_array (omega arith) in
    (ys, rw (ne_zero m.array_count some_elements, run), z)

-- param_set_low_limit accepts any number that is not negative: where the two readings of the text
-- succeed and the number stored is not below m_high, it returns 0 and every element becomes 0,
-- although the description of the parameter asks for "0 <= low < high".
pub param_set_low_limit_zero :
    {V : Type 0} (kstrtoint param_set_int : V → Option ℤ) (rand : ℕ → ℕ) (val : V) (m : Module)
    (num stored : ℕ)
    → kstrtoint val ≡ some (pos num)
    → param_set_int val ≡ some (pos stored)
    → m.m_high ≤ℤ pos stored
    → 0 < m.array_count
    → m.array_count ≤ length m.m_array
    → (ys : List ℤ) × (param_set_low_limit kstrtoint param_set_int rand val m
        ≡ some (pos 0, record m { m_array = ys; m_low = pos stored }))
      × Zeroed m.m_array ys 0 m.array_count
unfolding param_set_low_limit
param_set_low_limit_zero kstrtoint param_set_int rand val m num stored ek es h some_elements fits =
    let (ys, run, z) =
      calculate_array_sum_zero rand (record m { m_low = pos stored }) h some_elements fits in
    let not_negative : ltb_ℤ (pos num) (pos 0) ≡ false = ground arith in
    (ys, rw (ek, param_set_low_limit, not_negative, es, recalculate, run), z)
