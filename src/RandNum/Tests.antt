-- ===== src/RandNum/Tests.antt =====
-- Runs of rand_num_get, and each theorem about it at a concrete input.
use linux_c_homeworks.Prelude.{ℕ, ◌-◌, ◌^◌, ◌≡◌, refl, true, false, none, some, arith}
use linux_c_homeworks.Prelude.Int.{pos, negsuc, ◌≤ℤ◌}
use linux_c_homeworks.Prelude.Words.{i32}
use linux_c_homeworks.RandNum.{returns, rand_num_get}
use linux_c_homeworks.RandNum.Range.{rand_num_get_bounds}

-- Between -5 and 5, from a draw of 23: -5 + 23 % 11.
negative_limit : rand_num_get false 23 (negsuc 4) (pos 5) ≡ returns (pos 0) (some (2 ^ 32 - 4))
unfolding rand_num_get
negative_limit = refl

null_output : rand_num_get true 23 (pos 0) (pos 5) ≡ returns (negsuc 21) none
unfolding rand_num_get
null_output = refl

rand_num_get_bounds_example :
    (v : ℕ) × (rand_num_get false 23 (negsuc 4) (pos 5) ≡ returns (pos 0) (some v))
    × (negsuc 4 ≤ℤ i32 v)
    × (i32 v ≤ℤ pos 5)
rand_num_get_bounds_example =
    rand_num_get_bounds 23 (negsuc 4) (pos 5) (omega arith) (omega arith) (omega arith)
      (omega arith)
