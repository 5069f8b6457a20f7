-- ===== src/Halts/Tests.antt =====
-- A run of the two threads to the end, and one with a wake-up that no signal has caused.
use linux_c_homeworks.Prelude.{
  ℕ, zero, suc, ◌≤◌, ◌≡◌, refl, Bool, true, false, none, some, ◌&&◌, ◌||◌, not, Option-cases, inl,
  inr,
}
use linux_c_homeworks.Halts.{
  System, count_done, asleep, returned, first_goes, first_act, second_act, started, Reach, start,
  first_runs, second_runs, wakes, woken,
}
use linux_c_homeworks.Halts.Bounds.{has_returned, goes, halts_never_stuck}
use linux_c_homeworks.Halts.Order.{in_order, order_lem}

-- n steps of a thread; one that has to wait stays where it is.
first_for : ℕ → System → System
first_for zero s = s
first_for (suc n) s = elim (first_act s.first s) [ none ↦ s | some t ↦ first_for n t ]

second_for : ℕ → System → System
second_for zero s = s
second_for (suc n) s = elim (second_act s.second s) [ none ↦ s | some t ↦ second_for n t ]

first_for-Reach : {b : Bool} (n : ℕ) (s : System) → Reach b s → Reach b (first_for n s)
unfolding first_for
first_for-Reach zero s r = r
first_for-Reach (suc n) s r = elim (Option-cases (first_act s.first s)) [
  | inl stuck ↦ rw (stuck, first_for) r
  | inr (t, run) ↦ rw (run, first_for) (first_for-Reach n t (first_runs t r run))
]

second_for-Reach : {b : Bool} (n : ℕ) (s : System) → Reach b s → Reach b (second_for n s)
unfolding second_for
second_for-Reach zero s r = r
second_for-Reach (suc n) s r = elim (Option-cases (second_act s.second s)) [
  | inl stuck ↦ rw (stuck, second_for) r
  | inr (t, run) ↦ rw (run, second_for) (second_for-Reach n t (second_runs t r run))
]

-- Thread 1 counts to 2 and sleeps; thread 2 counts to 6 and signals; thread 1 counts on.
abbrev finished : System
finished = second_for 60 (first_for 60 (second_for 48 (first_for 60 started)))

finished-Reach : Reach false finished
finished-Reach =
    second_for-Reach 60 _
      (first_for-Reach 60 _ (second_for-Reach 48 _ (first_for-Reach 60 started start)))

finished_lem : (finished.first ≡ returned) × (finished.second ≡ returned) × (finished.count ≡ 10)
unfolding first_for second_for first_act second_act
finished_lem = (refl, refl, refl)

order_lem_example :
    (finished.out ≡ in_order finished.count)
    × (finished.count ≤ count_done)
    × ((has_returned finished.first || has_returned finished.second) ≡ true
        → finished.count ≡ count_done)
order_lem_example = order_lem finished-Reach

-- Thread 2 has passed its tests at 5 when thread 1 wakes without a signal and counts to 10.
abbrev sleeping : System
sleeping = first_for 60 started

sleeping-asleep : sleeping.first ≡ asleep
unfolding first_for first_act
sleeping-asleep = refl

abbrev early : System
early = second_for 10 (first_for 1 (second_for 2 (first_goes woken sleeping)))

early-Reach : Reach true early
early-Reach = second_for-Reach 10 _ (
    first_for-Reach 1 _
      (second_for-Reach 2 _ (wakes (first_for-Reach 60 started start) refl sleeping-asleep)))

halts_never_stuck_example :
    (goes (first_act early.first early) || goes (second_act early.second early))
    ≡ not (has_returned early.first && has_returned early.second)
halts_never_stuck_example = halts_never_stuck early-Reach
