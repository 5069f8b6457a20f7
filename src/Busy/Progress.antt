-- ===== src/Busy/Progress.antt =====
-- What the two kernel threads print, that they never both have the mutex, and that they go on.
use linux_c_homeworks.Prelude.{
  ℕ, zero, suc, ◌+◌, ◌-◌, ◌≡◌, ◌≢◌, refl, ◌∙◌, Bool, true, false, none, some, ◌∷◌, ltb, ◌==◌, ◌&&◌,
  not, arith, Bool-cases, Option-cases, inl, inr, ◌⊎◌,
}
use linux_c_homeworks.Busy.{
  count_times, Place, spinning, passed, locked, printed, Thread, System, put, go, next_turn, act,
  run_thread, Reach,
}
use linux_c_homeworks.Busy.Fair.{has_mutex, is_spinning, pairs, printed_so_far, IsFair, Reach-Fair}

abbrev pub has_returned : Thread → Bool
has_returned t = is_spinning t.place && not (ltb t.counter count_times)

-- A step that takes a thread to another place, and not once more round the loop of schedule().
abbrev pub MovesOn : ℕ → System → Type 0
MovesOn i s = (t : System) × (run_thread i s ≡ some t) × ((t.threads i).place ≢ (s.threads i).place)

moves :
    (i : ℕ) (s t : System)
    → act i (s.threads i).place s ≡ some t
    → (t.threads i).place ≢ (s.threads i).place
    → MovesOn i s
unfolding run_thread
moves i s t run other = (t, run, other)

inside_moves :
    (i : ℕ) (s : System) (place : Place)
    → (s.threads i).place ≡ place
    → has_mutex place ≡ true
    → MovesOn i s
unfolding act
inside_moves i s spinning e h = absurd (cc h)
inside_moves i s passed e h = absurd (cc h)
inside_moves i s locked e h =
    moves i s (record (go i printed s) { turn = next_turn i; out = (i + 1) ∷ s.out }) (rw e refl)
      (λ x. ground (arith, e))
inside_moves i s printed e h =
    moves i s
      (record s {
        mtx = none;
        threads =
            put s.threads i (record { place = spinning; counter = (s.threads i).counter + 1 });
      })
      (rw e refl) (λ x. ground (arith, e))

test_moves :
    (i : ℕ) (s : System)
    → (s.threads i).place ≡ spinning
    → ltb (s.threads i).counter count_times ≡ true
    → (s.turn == i + 1) ≡ true
    → MovesOn i s
unfolding act
test_moves i s e room mine =
    moves i s (go i passed s) (rw (e, room, mine, act) refl) (λ x. ground (arith, e))

lock_moves : (i : ℕ) (s : System) → (s.threads i).place ≡ passed → s.mtx ≡ none → MovesOn i s
unfolding act
lock_moves i s e free =
    moves i s (record (go i locked s) { mtx = some i }) (rw (e, free, act) refl)
      (λ x. ground (arith, e))

module _ (s : System) (q : ℕ) (f : IsFair s q) where
  -- With the mutex free, the thread whose turn it is goes on, or both have returned.
  turn_moves :
      (i : ℕ) (place : Place)
      → s.mtx ≡ none
      → (s.turn == i + 1) ≡ true
      → has_returned (s.threads i) ≡ false
      → (s.threads i).place ≡ place
      → MovesOn i s
  turn_moves i spinning free mine more e = test_moves i s e (ground (arith, e)) mine
  turn_moves i passed free mine more e = lock_moves i s e free
  turn_moves i locked free mine more e = absurd (ground (arith, f.mutex i, e))
  turn_moves i printed free mine more e = absurd (ground (arith, f.mutex i, e))

  both_returned :
      (i : ℕ)
      → s.mtx ≡ none
      → (s.turn == i + 1) ≡ true
      → has_returned (s.threads i) ≡ true
      → (has_returned (s.threads 0) ≡ true)
        × (has_returned (s.threads 1) ≡ true)
        × (s.turn ≡ 1)
        × (q ≡ count_times)
  both_returned zero free mine over = ground (
    arith,
    f.tic_lines,
    f.tac_lines,
    f.counts 0,
    f.counts 1,
    f.mutex 0,
    f.mutex 1,
    f.expected 0,
    f.expected 1,
  )
  both_returned (suc zero) free mine over =
      absurd
        (ground (arith, f.tic_lines, f.tac_lines, f.counts 0, f.counts 1, f.mutex 0, f.mutex 1))
  both_returned (suc (suc i)) free mine over = absurd (ground (arith, f.turns))

  goes_on :
      (has_returned (s.threads 0) ≡ true)
        × (has_returned (s.threads 1) ≡ true)
        × (s.out ≡ pairs count_times)
      ⊎ ((i : ℕ) × MovesOn i s)
  goes_on = elim (Option-cases s.mtx) [
    | inl free ↦
        let i = s.turn - 1 in
        let mine : (s.turn == i + 1) ≡ true = ground (arith, f.turns) in
        elim (Bool-cases (has_returned (s.threads i))) [
          | inl over ↦
              let (tic_over, tac_over, first, all_ten) = both_returned i free mine over in
              inl (tic_over, tac_over, f.ordered ∙ rw (first, all_ten) refl)
          | inr more ↦ inr (i, turn_moves i (s.threads i).place free mine more refl)
        ]
    | inr (i, held) ↦
        inr (i, inside_moves i s (s.threads i).place refl (ground (arith, f.mutex i, held)))
  ]

module _ {s : System} (r : Reach s) where
  -- In every state that can be reached the lines printed so far are TIC, TAC, TIC, ... in turn.
  pub prints_in_turn : (q : ℕ) × ((s.turn ≡ 1) ⊎ (s.turn ≡ 2)) × (s.out ≡ printed_so_far s.turn q)
  prints_in_turn = let (q, f) = Reach-Fair r in (q, f.turns, f.ordered)

  -- The two threads never have the mutex both.
  pub one_locked :
      (i j : ℕ)
      → has_mutex (s.threads i).place ≡ true
      → has_mutex (s.threads j).place ≡ true
      → i ≡ j
  one_locked i j hi hj = let (q, f) = Reach-Fair r in ground (arith, f.mutex i, f.mutex j)

  -- In every state that can be reached, either both threads have returned, and ten times TIC and TAC
  -- have been printed in turn, or some thread can go on, past the place where it is.
  pub never_stops :
      (has_returned (s.threads 0) ≡ true)
        × (has_returned (s.threads 1) ≡ true)
        × (s.out ≡ pairs count_times)
      ⊎ ((i : ℕ) × MovesOn i s)
  never_stops = let (q, f) = Reach-Fair r in goes_on s q f
