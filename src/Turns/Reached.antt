-- ===== src/Turns/Reached.antt =====
-- Every state of the threads that print in turn which can be reached satisfies the invariant.
use linux_c_homeworks.Prelude.{
  ℕ, ◌+◌, ◌<◌, ◌≡◌, refl, none, some, ◌∷◌, ltb, ◌==◌, arith, Bool-cases, ℕ_discrete, Option-cases,
  inl, inr,
}
use mathlib.Core.Path.{subst}
use linux_c_homeworks.Turns.{
  count_times, Place, top, testing, asleep, waking, printed, signalled, System, go, act, run_thread,
  Step, runs, wakes_up, Reach, start, step,
}
use linux_c_homeworks.Turns.Fair.{
  IsFair, started-IsFair, locks, waits, prints_within, prints_last, broadcasts, unlocks, wakes,
}

-- The threads pass the turn on to the next one, and the last one to the first.
abbrev pub IsRound : ℕ → (ℕ → ℕ) → Type 0
IsRound n next = (0 < n) × ((t : ℕ) → 0 < t → t < n → next t ≡ t + 1) × (next n ≡ 1)

-- Some round of the threads is under way.
abbrev pub Fair : ℕ → System → Type 0
Fair n s = (q : ℕ) × IsFair n s q

module _ (n : ℕ) (next : ℕ → ℕ) (round : IsRound n next) where
  prints :
      (s : System) (q i : ℕ)
      → IsFair n s q
      → (s.threads i).place ≡ testing
      → s.turn ≡ i + 1
      → Fair n (record (go i printed s) { turn = next (i + 1); out = (i + 1) ∷ s.out })
  prints s q i f e mine = elim (ℕ_discrete (i + 1) n) [
    | yes last ↦
        let e' : next (i + 1) ≡ 1 = rw last round.2 in
        (q + 1, rw e' (prints_last n s q i f e mine last))
    | no more ↦
        let inside : i + 1 < n = omega (arith, f.turn_high) in
        (q, rw (round.1 (i + 1) (omega arith) inside) (prints_within n s q i f e mine inside))
  ]

  becomes : (t u : System) → Fair n t → some t ≡ some u → Fair n u
  becomes t u f e = let e' : t ≡ u = cc e in subst (Fair n) e' f

  act-Fair :
      (s t : System) (q i : ℕ) (place : Place)
      → IsFair n s q
      → (s.threads i).place ≡ place
      → act next i place s ≡ some t
      → Fair n t
  unfolding act
  act-Fair s t q i top f e run = elim (Bool-cases (ltb (s.threads i).count_thread count_times)) [
    | inl room ↦ elim (Option-cases s.mtx) [
      | inl free ↦
          becomes (record (go i testing s) { mtx = some i }) t
            (q, locks n s q i f free (rw e refl) (ground arith) (rw e refl))
            (rw (room, free, act) at run)
      | inr (j, held) ↦ absurd (cc (rw (room, held, act) at run))
    ]
    | inr returned ↦ absurd (cc (rw (returned, act) at run))
  ]
  act-Fair s t q i testing f e run = elim (Bool-cases (s.turn == i + 1)) [
    | inl mine ↦
        becomes (record (go i printed s) { turn = next (i + 1); out = (i + 1) ∷ s.out }) t
          (prints s q i f e (ground arith)) (rw (mine, act) at run)
    | inr other ↦
        becomes (record (go i asleep s) { mtx = none }) t
          (q, waits n s q i f e (λ h. ground (arith, h))) (rw (other, act) at run)
  ]
  act-Fair s t q i asleep f e run = absurd (cc run)
  act-Fair s t q i waking f e run = elim (Option-cases s.mtx) [
    | inl free ↦
        becomes (record (go i testing s) { mtx = some i }) t
          (q, locks n s q i f free (rw e refl) (ground (arith, f.counts i, e)) (rw e refl))
          (rw (free, act) at run)
    | inr (j, held) ↦ absurd (cc (rw (held, act) at run))
  ]
  act-Fair s t q i printed f e run = becomes _ t (q, broadcasts n s q i f e) run
  act-Fair s t q i signalled f e run = becomes _ t (q, unlocks n s q i f e) run

  Step-Fair : {s t : System} → Step next s t → Fair n s → Fair n t
  unfolding run_thread
  Step-Fair {s} (runs i t run) (q, f) = act-Fair s t q i (s.threads i).place f refl run
  Step-Fair {s} (wakes_up i e) (q, f) = (q, wakes n s q i f e)

  pub Reach-Fair : {s : System} → Reach n next s → Fair n s
  Reach-Fair start = (0, started-IsFair n round.0)
  Reach-Fair (step r st) = Step-Fair st (Reach-Fair r)
