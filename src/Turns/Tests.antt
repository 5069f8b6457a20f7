-- ===== src/Turns/Tests.antt =====
-- A run of three threads, and the theorems about the threads at the state it ends in.
use linux_c_homeworks.Prelude.{
  ℕ, zero, suc, ◌-◌, ◌≤◌, ◌<◌, ◌≡◌, ◌⊎◌, inl, inr, Option-cases, some, none, List, [], ◌∷◌, true,
  refl, arith,
}
use linux_c_homeworks.Turns.{
  System, Reach, start, step, runs, run_thread, act, started, next_of_three, next_of_two,
  count_times,
}
use linux_c_homeworks.Turns.Fair.{count_down, rounds_out, is_inside}
use linux_c_homeworks.Turns.Progress.{
  IsRound-next_of_three, has_returned, prints_in_order, one_inside, never_stuck, prints_all,
}

-- Lets the threads run in the order of a list; a thread that cannot run is passed over.
one_run : (ℕ → ℕ) → ℕ → System → System
one_run next i s = elim (run_thread next i s) [ none ↦ s | some t ↦ t ]

run_all : (ℕ → ℕ) → List ℕ → System → System
run_all next [] s = s
run_all next (i ∷ is) s = run_all next is (one_run next i s)

one_run-Reach :
    (n : ℕ) (next : ℕ → ℕ) (i : ℕ) (s : System) → Reach n next s → Reach n next (one_run next i s)
unfolding one_run
one_run-Reach n next i s r = elim (Option-cases (run_thread next i s)) [
  | inl stuck ↦ rw (stuck, one_run) r
  | inr (t, run) ↦ rw (run, one_run) (step r (runs i t run))
]

run_all-Reach :
    (n : ℕ) (next : ℕ → ℕ) (is : List ℕ) (s : System)
    → Reach n next s
    → Reach n next (run_all next is s)
unfolding run_all
run_all-Reach n next [] s r = r
run_all-Reach n next (i ∷ is) s r =
    run_all-Reach n next is (one_run next i s) (one_run-Reach n next i s r)

-- Each thread in turn locks, prints, calls broadcast and unlocks.
turns_of : ℕ → List ℕ → List ℕ
turns_of i is = i ∷ i ∷ i ∷ i ∷ is

rounds_of_three : ℕ → List ℕ
rounds_of_three zero = []
rounds_of_three (suc q) = turns_of 0 (turns_of 1 (turns_of 2 (rounds_of_three q)))

-- Thread 2 starts, finds that it is not its turn, and waits; then thread 0 prints and calls
-- broadcast.
early : List ℕ
early = 2 ∷ 2 ∷ 0 ∷ 0 ∷ 0 ∷ []

abbrev after_early : System
after_early = run_all next_of_three early (started 3)

early-Reach : Reach 3 next_of_three after_early
early-Reach = run_all-Reach 3 next_of_three early (started 3) start

early_out : (after_early.out ≡ 1 ∷ []) × (after_early.turn ≡ 2) × (after_early.mtx ≡ some 0)
unfolding run_all one_run run_thread act early
early_out = (refl, refl, refl)

prints_in_order_example :
    (q : ℕ) × (1 ≤ after_early.turn)
    × (after_early.turn ≤ 3)
    × (after_early.out ≡ count_down (after_early.turn - 1) (rounds_out 3 q))
prints_in_order_example =
    prints_in_order 3 next_of_three IsRound-next_of_three after_early early-Reach

inside_early : is_inside (after_early.threads 0).place ≡ true
unfolding run_all one_run run_thread act early
inside_early = refl

one_inside_example : ◌≡◌ {A = ℕ} 0 0
one_inside_example =
    one_inside 3 next_of_three IsRound-next_of_three after_early early-Reach 0 0 inside_early
      inside_early

never_stuck_example :
    ((j : ℕ) → j < 3 → has_returned (after_early.threads j) ≡ true)
    ⊎ ((i : ℕ) × (t : System) × (run_thread next_of_three i after_early ≡ some t))
never_stuck_example = never_stuck 3 next_of_three IsRound-next_of_three after_early early-Reach

abbrev at_end : System
at_end = run_all next_of_three (rounds_of_three 5) (started 3)

all_over : (j : ℕ) → j < 3 → has_returned (at_end.threads j) ≡ true
unfolding run_all one_run run_thread act rounds_of_three turns_of
all_over zero h = refl
all_over (suc zero) h = refl
all_over (suc (suc zero)) h = refl
all_over (suc (suc (suc j))) h = absurd (omega arith)

prints_all_example : at_end.out ≡ rounds_out 3 count_times
prints_all_example =
    prints_all 3 next_of_three IsRound-next_of_three at_end
      (run_all-Reach 3 next_of_three (rounds_of_three 5) (started 3) start) all_over

-- The two threads of tic_tac.c, once each.
tic_tac : (run_all next_of_two (turns_of 0 (turns_of 1 [])) (started 2)).out ≡ 2 ∷ 1 ∷ []
unfolding run_all one_run run_thread act turns_of
tic_tac = refl
