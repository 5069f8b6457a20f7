-- ===== src/ArraySum.antt =====
-- linux_kernel_development/homework3: array_sum_rand/array_sum_rand.c, and the version of
-- array_sum_changeable whose limits can be set while the module is loaded.
-- Strings, kstrtoint and param_set_int are parameters: the type V of what the user writes, what
-- kstrtoint(val, 10, ...) reads from it, and the number that param_set_int stores, `none` on error.
pub mod Sums
pub mod Limits
mod Tests
use linux_c_homeworks.Prelude.{
  ℕ, zero, suc, ◌+◌, ◌*◌, ◌%◌, ◌^◌, Bool, false, Option, none, some, List, ◌==◌, if◌then◌else◌, set,
  get_or,
}
use linux_c_homeworks.Prelude.Int.{ℤ, pos, negsuc, ltb_ℤ}
use linux_c_homeworks.Prelude.Words.{u32, i32}
use linux_c_homeworks.RandNum.{RandCall, returns, divide_error, rand_num_get, minus_einval}

-- The variables of the module. `array_count` is the number of elements given, at most 30.
pub record Module : Type 0 where
  pub m_array : List ℤ
  pub array_count : ℕ
  pub m_low : ℤ
  pub m_high : ℤ

-- The product and the sum are computed in `unsigned` and in `int`, and wrap.
abbrev pub mul_int : ℤ → ℕ → ℤ
mul_int a r = i32 (u32 a * r)

abbrev pub add_int : ℤ → ℤ → ℤ
add_int a b = i32 (u32 a + u32 b)

-- A division by 0 in rand_num_get stops the kernel thread: `none`.
-- One round of the loop: the random number for element i is drawn from `rand i`. The code that
-- rand_num_get returns is not looked at, so that on an error the factor stays 0.
abbrev pub factor : RandCall → Option ℕ
factor (returns _ (some v)) = some v
factor (returns _ none) = some 0
factor divide_error = none

module _ (rand : ℕ → ℕ) (m_low m_high : ℤ) where
  pub sum_loop : ℕ → ℕ → List ℤ → ℤ → Option (List ℤ × ℤ)
  sum_loop zero i m_array sum = some (m_array, sum)
  sum_loop (suc rounds) i m_array sum = elim (factor (rand_num_get false (rand i) m_low m_high)) [
    | none ↦ none
    | some rand_num ↦
        let v = mul_int (get_or m_array i (pos 0)) rand_num in
        sum_loop rounds (i + 1) (set m_array i v) (add_int sum v)
  ]

-- calculate_array_sum: the module after it and the sum that it prints, if it prints one.
pub calculate_array_sum : (ℕ → ℕ) → Module → Option (Module × Option ℤ)
calculate_array_sum rand m =
    if m.array_count == 0
    then some (m, none)
    else elim (sum_loop rand m.m_low m.m_high m.array_count 0 m.m_array (pos 0)) [
      | none ↦ none
      | some (m_array, sum) ↦ some (record m { m_array = m_array }, some sum)
    ]

-- array_sum_rand_init of the changeable version: the code it returns, and the module.
pub changeable_init : (ℕ → ℕ) → Module → Option (ℤ × Module)
changeable_init rand m =
    if m.array_count == 0
    then some (minus_einval, m)
    else elim (calculate_array_sum rand m) [ none ↦ none | some (m', sum) ↦ some (pos 0, m') ]

-- array_sum_rand_init of array_sum_rand: the code, the module, and the sum that it prints.
pub array_sum_rand_init : (ℕ → ℕ) → Module → Option (ℤ × Module × Option ℤ)
array_sum_rand_init rand m =
    if m.array_count == 0
    then some (minus_einval, m, none)
    else elim (sum_loop rand m.m_low m.m_high m.array_count 0 m.m_array (pos 0)) [
      | none ↦ none
      | some (m_array, sum) ↦ some (pos 0, record m { m_array = m_array }, some sum)
    ]

module _ {V : Type 0} (kstrtoint param_set_int : V → Option ℤ) (rand : ℕ → ℕ) where
  -- What follows a store of a new limit: the sum is computed anew, and the code is 0.
  abbrev pub recalculate : Module → Option (ℤ × Module)
  recalculate m = elim (calculate_array_sum rand m) [
    | none ↦ none
    | some (m', sum) ↦ some (pos 0, m')
  ]

  pub param_set_low_limit : V → Module → Option (ℤ × Module)
  param_set_low_limit val m = elim (kstrtoint val) [
    | none ↦ some (minus_einval, m)
    | some num ↦ if ltb_ℤ num (pos 0) then some (minus_einval, m) else elim (param_set_int val) [
      | none ↦ some (pos 0, m)
      | some stored ↦ recalculate (record m { m_low = stored })
    ]
  ]

  pub param_set_high_limit : V → Module → Option (ℤ × Module)
  param_set_high_limit val m = elim (kstrtoint val) [
    | none ↦ some (minus_einval, m)
    | some num ↦ if ltb_ℤ num (pos 0) then some (minus_einval, m) else elim (param_set_int val) [
      | none ↦ some (pos 0, m)
      | some stored ↦ recalculate (record m { m_high = stored })
    ]
  ]
