-- ===== src/Philosophers/Tests.antt =====
-- Runs of the philosophers' functions, and the theorems about them at concrete values.
use linux_c_homeworks.Prelude.{ℕ, zero, suc, ◌≡◌, none, some, [], ◌∷◌, refl, arith}
use linux_c_homeworks.Prelude.Int.{ℤ, pos}
use linux_c_homeworks.Chardev.{Pointer, null, valid}
use linux_c_homeworks.Philosophers.{Table, right_index, round, init_loop, philosophers_init}
use linux_c_homeworks.Philosophers.Sticks.{round_lem, by_holders, holder}

abbrev some_taken : Table
some_taken = record {
  sticks = none ∷ some 1 ∷ some 1 ∷ none ∷ none ∷ [];
  eat_time = 0 ∷ 0 ∷ 0 ∷ 0 ∷ 0 ∷ [];
}

round_lem_example :
    round 1 7000 some_taken
    ≡ by_holders 1 7000 some_taken (holder some_taken (right_index 1)) (holder some_taken 1)
round_lem_example = round_lem 1 7000 some_taken (omega arith)

abbrev name_lengths : ℕ → ℤ
name_lengths i = pos 20

abbrev fourth_fails : ℕ → Pointer
fourth_fails (suc (suc (suc zero))) = null
fourth_fails i = valid

fourth_run : (philosophers_init name_lengths fourth_fails).threads ≡ 3
unfolding philosophers_init init_loop
fourth_run = refl
