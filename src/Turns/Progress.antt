-- ===== src/Turns/Progress.antt =====
-- What the invariant gives: the order of the numbers, mutual exclusion, that the threads never get
-- stuck, and what they have printed when all of them have returned.
use linux_c_homeworks.Prelude.{
  ℕ, zero, suc, ◌+◌, ◌-◌, ◌≤◌, ◌<◌, ◌≡◌, refl, Bool, true, false, none, some, ltb, ◌==◌, ◌&&◌, not,
  arith, ◌∙◌, Bool-cases, Option-cases, inl, inr, ◌⊎◌,
}
use linux_c_homeworks.Turns.{
  count_times, Place, top, testing, asleep, waking, printed, signalled, Thread, System, act,
  run_thread, Reach, next_of_three, next_of_two,
}
use linux_c_homeworks.Turns.Fair.{count_down, rounds_out, is_inside, is_top, IsFair}
use linux_c_homeworks.Turns.Reached.{IsRound, Reach-Fair}

-- A thread whose loop is over.
abbrev pub has_returned : Thread → Bool
has_returned t = is_top t.place && not (ltb t.count_thread count_times)

next_of_three_lem : (t : ℕ) → 0 < t → t < 3 → next_of_three t ≡ t + 1
next_of_three_lem zero low high = absurd (omega arith)
next_of_three_lem (suc zero) low high = refl
next_of_three_lem (suc (suc zero)) low high = refl
next_of_three_lem (suc (suc (suc t))) low high = absurd (omega arith)

pub IsRound-next_of_three : IsRound 3 next_of_three
IsRound-next_of_three = (omega arith, next_of_three_lem, refl)

next_of_two_lem : (t : ℕ) → 0 < t → t < 2 → next_of_two t ≡ t + 1
next_of_two_lem zero low high = absurd (omega arith)
next_of_two_lem (suc zero) low high = refl
next_of_two_lem (suc (suc t)) low high = absurd (omega arith)

pub IsRound-next_of_two : IsRound 2 next_of_two
IsRound-next_of_two = (omega arith, next_of_two_lem, refl)

module _ (n : ℕ) (next : ℕ → ℕ) (round : IsRound n next) (s : System) (r : Reach n next s) where
  -- In every state that can be reached, the numbers printed so far are whole rounds 1, 2, ..., n and
  -- the first ones of a further round, up to the thread before the one whose turn it is.
  pub prints_in_order :
      (q : ℕ) × (1 ≤ s.turn) × (s.turn ≤ n) × (s.out ≡ count_down (s.turn - 1) (rounds_out n q))
  prints_in_order =
      let (q, f) = Reach-Fair n next round r in (q, f.turn_low, f.turn_high, f.ordered)

  -- At most one thread is between locking and unlocking the mutex, where turn is read and changed.
  pub one_inside :
      (i j : ℕ)
      → is_inside (s.threads i).place ≡ true
      → is_inside (s.threads j).place ≡ true
      → i ≡ j
  one_inside i j hi hj =
      let (q, f) = Reach-Fair n next round r in ground (arith, f.inside i, f.inside j)

-- What a thread can do in a given place, whatever the others do.
act_inside :
    (next : ℕ → ℕ) (i : ℕ) (place : Place) (s : System)
    → is_inside place ≡ true
    → (t : System) × (act next i place s ≡ some t)
unfolding act
act_inside next i top s h = absurd (cc h)
act_inside next i testing s h = elim (Option-cases (act next i testing s)) [
  | inl stuck ↦ elim (Bool-cases (s.turn == i + 1)) [
    | inl mine ↦ absurd (cc (rw (mine, act) at stuck))
    | inr other ↦ absurd (cc (rw (other, act) at stuck))
  ]
  | inr runs ↦ runs
]
act_inside next i asleep s h = absurd (cc h)
act_inside next i waking s h = absurd (cc h)
act_inside next i printed s h = (_, refl)
act_inside next i signalled s h = (_, refl)

act_waking :
    (next : ℕ → ℕ) (i : ℕ) (s : System)
    → s.mtx ≡ none
    → (t : System) × (act next i waking s ≡ some t)
unfolding act
act_waking next i s free = elim (Option-cases (act next i waking s)) [
  | inl stuck ↦ absurd (cc (rw (free, act) at stuck))
  | inr runs ↦ runs
]

act_top :
    (next : ℕ → ℕ) (i : ℕ) (s : System)
    → s.mtx ≡ none
    → ltb (s.threads i).count_thread count_times ≡ true
    → (t : System) × (act next i top s ≡ some t)
unfolding act
act_top next i s free room = elim (Option-cases (act next i top s)) [
  | inl stuck ↦ absurd (cc (rw (room, free, act) at stuck))
  | inr runs ↦ runs
]

module _ (n : ℕ) (next : ℕ → ℕ) (s : System) (q : ℕ) (f : IsFair n s q) where
  -- With the mutex free and the thread whose turn it is finished, every thread has finished.
  all_returned :
      (i : ℕ)
      → s.mtx ≡ none
      → s.turn ≡ i + 1
      → has_returned (s.threads i) ≡ true
      → (j : ℕ) → j < n
      → has_returned (s.threads j) ≡ true
  all_returned i free mine over j h = ground (
    arith,
    f.turn_high,
    f.shares i,
    f.shares j h,
    f.counts i,
    f.counts j,
    f.inside j,
    f.inside i,
    free,
  )

  someone_runs :
      (i : ℕ) (place : Place)
      → s.mtx ≡ none
      → s.turn ≡ i + 1
      → has_returned (s.threads i) ≡ false
      → (s.threads i).place ≡ place
      → (t : System) × (act next i place s ≡ some t)
  someone_runs i top free mine more e = act_top next i s free (ground arith)
  someone_runs i testing free mine more e = absurd (ground (arith, f.inside i))
  someone_runs i asleep free mine more e = absurd (ground (arith, f.awake i e mine, free))
  someone_runs i waking free mine more e = act_waking next i s free
  someone_runs i printed free mine more e = absurd (ground (arith, f.inside i))
  someone_runs i signalled free mine more e = absurd (ground (arith, f.inside i))

  pub progress :
      ((j : ℕ) → j < n → has_returned (s.threads j) ≡ true)
      ⊎ ((i : ℕ) × (t : System) × (run_thread next i s ≡ some t))
  unfolding run_thread
  progress = elim (Option-cases s.mtx) [
    | inl free ↦
        let i = s.turn - 1 in
        let mine : s.turn ≡ i + 1 = omega (arith, f.turn_low) in
        elim (Bool-cases (has_returned (s.threads i))) [
          | inl over ↦ inl (all_returned i free mine over)
          | inr more ↦
              (let (t, run) = someone_runs i (s.threads i).place free mine more refl in
                inr (i, t, run))
        ]
    | inr (i, held) ↦
        let (t, run) = act_inside next i (s.threads i).place s (ground (arith, f.inside i, held)) in
        inr (i, t, run)
  ]

  last_round :
      ((j : ℕ) → j < n → has_returned (s.threads j) ≡ true) → (q ≡ count_times) × (s.turn ≡ 1)
  last_round over =
      let low = f.turn_low in
      let high = f.turn_high in
      let i = s.turn - 1 in
      let all_five : q ≡ count_times = ground (
        arith,
        over i (omega (arith, low, high)),
        f.shares i (omega (arith, low, high)),
        f.counts i,
      ) in
      (
        all_five,
        ground (
          arith,
          all_five,
          low,
          over 0 (omega (arith, low, high)),
          f.shares 0 (omega (arith, low, high)),
          f.counts 0,
        ),
      )

  pub all_out :
      ((j : ℕ) → j < n → has_returned (s.threads j) ≡ true) → s.out ≡ rounds_out n count_times
  all_out over = let (all_five, first) = last_round over in f.ordered ∙ rw (first, all_five) refl

module _ (n : ℕ) (next : ℕ → ℕ) (round : IsRound n next) (s : System) (r : Reach n next s) where
  -- The threads never get stuck: in every state that can be reached either all of them have returned,
  -- or one can go on. In particular no wake-up of the thread whose turn it is gets lost.
  pub never_stuck :
      ((j : ℕ) → j < n → has_returned (s.threads j) ≡ true)
      ⊎ ((i : ℕ) × (t : System) × (run_thread next i s ≡ some t))
  never_stuck = let (q, f) = Reach-Fair n next round r in progress n next s q f

  -- When all threads have returned, they have printed 1, 2, ..., n five times in this order.
  pub prints_all :
      ((j : ℕ) → j < n → has_returned (s.threads j) ≡ true) → s.out ≡ rounds_out n count_times
  prints_all over = let (q, f) = Reach-Fair n next round r in all_out n next s q f over
