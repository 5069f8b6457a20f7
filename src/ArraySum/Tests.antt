-- ===== src/ArraySum/Tests.antt =====
-- Runs of the array-sum modules, and each theorem about them at a concrete input.
use linux_c_homeworks.Prelude.{ℕ, ◌+◌, ◌≡◌, some, arith, Option, List, [], ◌∷◌}
use linux_c_homeworks.Prelude.Int.{ℤ, pos, negsuc}
use linux_c_homeworks.ArraySum.{Module, calculate_array_sum}
use linux_c_homeworks.ArraySum.Sums.{Summed, calculate_array_sum_lem}

abbrev loaded : Module
loaded = record {
  m_array = pos 3 ∷ negsuc 4 ∷ pos 0 ∷ [];
  array_count = 2;
  m_low = pos 1;
  m_high = pos 100;
}

abbrev ascending_draws : ℕ → ℕ
ascending_draws k = k + 6

calculate_array_sum_lem_example :
    (ys : List ℤ) × (sum : ℤ) × (calculate_array_sum ascending_draws loaded
      ≡ some (record loaded { m_array = ys }, some sum))
    × Summed (pos 1) (pos 100) loaded.m_array ys 0 2 (pos 0) sum
calculate_array_sum_lem_example =
    calculate_array_sum_lem ascending_draws loaded (omega arith) (omega arith) (omega arith)
      (omega arith) (omega arith) (omega arith)

abbrev reversed : Module
reversed = record loaded { m_low = pos 200 }

-- Texts are the numbers that they spell.
abbrev reads : ℕ → Option ℤ
reads n = some (pos n)
