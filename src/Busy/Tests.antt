-- ===== src/Busy/Tests.antt =====
-- A run of the two kernel threads, and the theorems about them at the state it ends in.
use linux_c_homeworks.Prelude.{ℕ, ◌≡◌, ◌⊎◌, inl, inr, Option-cases, some, none, [], ◌∷◌, true, refl}
use linux_c_homeworks.Busy.{System, Reach, start, runs, run_thread, act, started, count_times}
use linux_c_homeworks.Busy.Fair.{has_mutex, pairs}
use linux_c_homeworks.Busy.Progress.{has_returned, MovesOn, never_stops}

one_run : ℕ → System → System
one_run i s = elim (run_thread i s) [ none ↦ s | some t ↦ t ]

one_run-Reach : (i : ℕ) (s : System) → Reach s → Reach (one_run i s)
unfolding one_run
one_run-Reach i s r = elim (Option-cases (run_thread i s)) [
  | inl stuck ↦ rw (stuck, one_run) r
  | inr (t, run) ↦ rw (run, one_run) (runs i t r run)
]

-- TAC tries first and waits; TIC tests, locks and prints.
abbrev after_tic : System
after_tic = one_run 0 (one_run 0 (one_run 0 (one_run 1 started)))

after_tic-Reach : Reach after_tic
after_tic-Reach =
    one_run-Reach 0 _ (one_run-Reach 0 _ (one_run-Reach 0 _ (one_run-Reach 1 started start)))

tic_printed : (after_tic.out ≡ 1 ∷ []) × (has_mutex (after_tic.threads 0).place ≡ true)
unfolding one_run run_thread act
tic_printed = (refl, refl)

never_stops_example :
    (has_returned (after_tic.threads 0) ≡ true)
      × (has_returned (after_tic.threads 1) ≡ true)
      × (after_tic.out ≡ pairs count_times)
    ⊎ ((i : ℕ) × MovesOn i after_tic)
never_stops_example = never_stops after_tic-Reach
