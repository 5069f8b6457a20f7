-- ===== src/Reports/Tests.antt =====
-- The theorems about the reports at concrete values.
use linux_c_homeworks.Prelude.{ℕ, ◌+◌, ◌≡◌, false, some, List, [], ◌∷◌, arith, length, replicate}
use linux_c_homeworks.Prelude.Int.{ℤ, pos}
use linux_c_homeworks.Prelude.Words.{i64}
use linux_c_homeworks.Reports.{interface_read}
use linux_c_homeworks.Reports.Numbers.{all_lines, interface_read_lem}

-- Every number is 7.
abbrev line : ℤ → List ℕ
line z = 55 ∷ 10 ∷ []

-- Every line is 1021 bytes long.
abbrev long_line : ℤ → List ℕ
long_line z = replicate 1021 55

abbrev two_numbers : List ℤ
two_numbers = pos 7 ∷ pos 7 ∷ []

interface_read_lem_example :
    interface_read line false (some two_numbers) (pos (length two_numbers)) 1 3
    ≡ some (record {
      code = i64 1;
      bytes = all_lines line two_numbers;
      offset = 3 + length (all_lines line two_numbers);
    })
interface_read_lem_example =
    interface_read_lem line two_numbers 1 3 (λ z. omega arith) (omega arith) (omega arith)
      (omega arith)
