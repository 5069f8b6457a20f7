-- ===== src/Worker/Tests.antt =====
-- The theorems about the thread of module_device at concrete values.
use linux_c_homeworks.Prelude.{ℕ, ◌≡◌, ◌≢◌, refl, true, false, List, [], ◌∷◌}
use linux_c_homeworks.Prelude.Int.{ℤ, pos}
use linux_c_homeworks.Worker.{
  Shared, thread_round, thread_start, init_array, store_amount, out_of_bounds, Reach, start, stored,
  starts,
}
use linux_c_homeworks.Worker.Course.{rounds_in_bounds}

abbrev draw : ℕ → ℕ
draw i = 7

-- The thread works with a block for five numbers, and eight have been asked for since.
abbrev grown : Shared
grown = store_amount (pos 8) (thread_start (init_array (pos 5)))

rounds_in_bounds_example :
    (thread_round draw false grown ≢ out_of_bounds)
    × ((t : Shared) × Reach true true t × (thread_round draw false t ≡ out_of_bounds))
rounds_in_bounds_example =
    rounds_in_bounds draw false (stored (pos 8) (starts (start (pos 5))) refl)

abbrev line : ℤ → List ℕ
line z = 55 ∷ 10 ∷ []
