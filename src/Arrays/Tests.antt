-- ===== src/Arrays/Tests.antt =====
-- Runs of the array functions, and each theorem at a concrete input.
use linux_c_homeworks.Prelude.{ℕ, ◌+◌, ◌<◌, ◌≡◌, refl, List, [], ◌∷◌, ◌++◌, some, arith, length}
use linux_c_homeworks.Prelude.Int.{ℤ, pos, negsuc}
use linux_c_homeworks.Arrays.{
  at, sort_array, sort_loop, sort_step, min_scan, array_show, show_loop, number, separator,
  array_open, array_close, started_sorting, finished_sorting,
}
use linux_c_homeworks.Arrays.Show.{bracketed}
use linux_c_homeworks.Arrays.Ordered.{Sorts, sort_array-Sorts}
use linux_c_homeworks.Arrays.Program.{main, main_lem}

abbrev sample : List ℤ
sample = pos 5 ∷ negsuc 2 ∷ pos 9 ∷ negsuc 2 ∷ pos 0 ∷ []

sort_array-sample :
    (sort_array (some sample) 5).array ≡ some (negsuc 2 ∷ negsuc 2 ∷ pos 0 ∷ pos 5 ∷ pos 9 ∷ [])
unfolding sort_array sort_loop sort_step min_scan
sort_array-sample = refl

array_show-sample :
    (array_show (some sample) 2).out
    ≡ array_open ∷ number (pos 5) ∷ separator ∷ number (negsuc 2) ∷ array_close ∷ []
unfolding array_show show_loop
array_show-sample = refl

sort_array-Sorts_example :
    (ys : List ℤ) × ((sort_array (some sample) 4).array ≡ some ys)
    × ((sort_array (some sample) 4).ret ≡ pos 0)
    × Sorts sample ys 4
sort_array-Sorts_example = sort_array-Sorts sample 4 (omega arith) (omega arith)

main_lem_example :
    (xs : List ℤ) × (ys : List ℤ) × (main (λ k. negsuc (k + 3)) ≡ record {
      status = 0;
      out = bracketed xs ++ (started_sorting ∷ finished_sorting ∷ bracketed ys);
    })
    × (length xs ≡ 10)
    × ((k : ℕ) → k < 10 → at xs k ≡ negsuc (k + 3))
    × Sorts xs ys 10
main_lem_example = main_lem (λ k. negsuc (k + 3))
