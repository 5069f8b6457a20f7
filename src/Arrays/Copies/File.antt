-- ===== src/Arrays/Copies/File.antt =====
-- linux_c_development/homework3/array: array.c and sort.c.
use linux_c_homeworks.Prelude.{ℕ, Option, List}
use linux_c_homeworks.Prelude.Int.{ℤ}
use linux_c_homeworks.Arrays
use linux_c_homeworks.Arrays.{Call}

abbrev pub array_fill_with_rand_nums : (ℕ → ℤ) → Option (List ℤ) → ℕ → Call
array_fill_with_rand_nums = Arrays.array_fill_with_rand_nums

abbrev pub array_show : Option (List ℤ) → ℕ → Call
array_show = Arrays.array_show

abbrev pub sort_array : Option (List ℤ) → ℕ → Call
sort_array = Arrays.sort_array
