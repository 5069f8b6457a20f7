-- ===== src/Arrays/Copies/Static.antt =====
-- linux_c_development/homework2/static, where sort.c and array.c make a static library, the same text as homework1.
use linux_c_homeworks.Prelude.{ℕ, Option, List}
use linux_c_homeworks.Prelude.Int.{ℤ}
use linux_c_homeworks.Arrays
use linux_c_homeworks.Arrays.{Call}
use linux_c_homeworks.Arrays.Program
use linux_c_homeworks.Arrays.Program.{Exit}

abbrev pub array_fill_with_rand_nums : (ℕ → ℤ) → Option (List ℤ) → ℕ → Call
array_fill_with_rand_nums = Arrays.array_fill_with_rand_nums

abbrev pub array_show : Option (List ℤ) → ℕ → Call
array_show = Arrays.array_show

abbrev pub sort_array : Option (List ℤ) → ℕ → Call
sort_array = Arrays.sort_array

abbrev pub main : (ℕ → ℤ) → Exit
main = Program.main
