-- ===== src/Philosophers/Sticks.antt =====
-- When a philosopher eats, and what a round does to the sticks.
use linux_c_homeworks.Prelude.{
  ℕ, ◌+◌, ◌<◌, ◌≡◌, ◌≢◌, ◌↔◌, ap, ◌∙◌, false, Option, none, some, arith, ◌%◌, get_or, set, leb,
  Option-cases, inl, inr, ◌/◌,
}
use linux_c_homeworks.Prelude.Int.{pos}
use linux_c_homeworks.Philosophers.{
  Table, philosophers_number, right_index, mutex_trylock, mutex_unlock, put_left_stick,
  put_right_stick, take_left_stick, take_right_stick, Outcome, thinks, thinks_and_puts_right, eats,
  eat, round,
}

abbrev pub holder : Table → ℕ → Option ℕ
holder t i = get_or t.sticks i none

-- The right stick is the left stick of the next philosopher round the table for all but the last,
-- whose right stick is the right stick of the first; the stick of index 0 is the right one of none.
pub right_index_lem :
    (p : ℕ)
    → p < philosophers_number
    → ((right_index p ≡ (p + 1) % philosophers_number) ↔ (p ≢ 4))
      × (right_index 4 ≡ right_index 0)
      × (right_index p ≢ 0)
right_index_lem p h = ground arith

abbrev pub lock : ℕ → ℕ → Table → Table
lock p i t = record t { sticks = set t.sticks i (some p) }

abbrev pub unlock : ℕ → Table → Table
unlock i t = record t { sticks = set t.sticks i none }

abbrev pub feed : ℕ → ℕ → Table → Table
feed p elapsed t = record t { eat_time = set t.eat_time p (get_or t.eat_time p 0 + elapsed / 1000) }

-- A round by who holds the right and the left stick before it.
abbrev pub by_holders : ℕ → ℕ → Table → Option ℕ → Option ℕ → Outcome × Table
by_holders p elapsed t none left = (thinks, lock p (right_index p) t)
by_holders p elapsed t (some r) none = (thinks_and_puts_right, unlock (right_index p) (lock p p t))
by_holders p elapsed t (some r) (some l) =
    (eats, unlock (right_index p) (unlock p (feed p elapsed t)))

module _ (p : ℕ) (t : Table) (h : p < philosophers_number) where
  inside : leb philosophers_number p ≡ false
  inside = ground arith

  trylock_free : (i : ℕ) → holder t i ≡ none → mutex_trylock p i t ≡ (pos 1, lock p i t)
  unfolding mutex_trylock
  trylock_free i e = rw (e, mutex_trylock)

  trylock_held : (i r : ℕ) → holder t i ≡ some r → mutex_trylock p i t ≡ (pos 0, t)
  unfolding mutex_trylock
  trylock_held i r e = rw (e, mutex_trylock)

  take_right : take_right_stick p t ≡ mutex_trylock p (right_index p) t
  unfolding take_right_stick
  take_right = rw inside

  take_left : take_left_stick p t ≡ mutex_trylock p p t
  unfolding take_left_stick
  take_left = rw inside

  put_right : put_right_stick p t ≡ (pos 0, unlock (right_index p) t)
  unfolding put_right_stick mutex_unlock
  put_right = rw inside

  put_left : put_left_stick p t ≡ (pos 0, unlock p t)
  unfolding put_left_stick mutex_unlock
  put_left = rw inside

eat_eq :
    (p elapsed : ℕ) (t : Table)
    → p < philosophers_number
    → eat p elapsed t ≡ unlock (right_index p) (unlock p (feed p elapsed t))
unfolding eat
eat_eq p elapsed t h =
    ap (λ r. (put_right_stick p r.1).1) (put_left p (feed p elapsed t) h)
    ∙ ap (λ r. r.1) (put_right p (unlock p (feed p elapsed t)) h)

-- What a round does, by the two sticks. If the right one is free, the philosopher locks it, takes
-- that for a failure, and goes back to thinking with the stick still locked. If the right one is
-- locked and the left one free, he locks the left one, unlocks the right one, whoever holds it, and
-- keeps the left one. He eats exactly if both are locked, and then unlocks both.
pub round_lem :
    (p elapsed : ℕ) (t : Table)
    → p < philosophers_number
    → round p elapsed t ≡ by_holders p elapsed t (holder t (right_index p)) (holder t p)
unfolding round
round_lem p elapsed t h = elim (Option-cases (holder t (right_index p))) [
  | inl free ↦ rw (take_right p t h, trylock_free p t h (right_index p) free, free)
  | inr (r, held) ↦ elim (Option-cases (holder t p)) [
    | inl left_free ↦ rw (
      take_right p t h,
      trylock_held p t h (right_index p) r held,
      take_left p t h,
      trylock_free p t h p left_free,
      put_right p (lock p p t) h,
      held,
      left_free,
    )
    | inr (l, left_held) ↦ rw (
      take_right p t h,
      trylock_held p t h (right_index p) r held,
      take_left p t h,
      trylock_held p t h p l left_held,
      eat_eq p elapsed t h,
      held,
      left_held,
    )
  ]
]

by_holders_eats :
    (p elapsed : ℕ) (t : Table) (r l : Option ℕ)
    → ((by_holders p elapsed t r l).0 ≡ eats) ↔ ((r ≢ none) × (l ≢ none))
by_holders_eats p elapsed t none l = ground arith
by_holders_eats p elapsed t (some r) none = ground arith
by_holders_eats p elapsed t (some r) (some l) = ground arith

-- A philosopher eats exactly in the rounds that find both sticks locked, by himself or by others.
pub eats_iff :
    (p elapsed : ℕ) (t : Table)
    → p < philosophers_number
    → ((round p elapsed t).0 ≡ eats) ↔ ((holder t (right_index p) ≢ none) × (holder t p ≢ none))
eats_iff p elapsed t h = rw (round_lem p elapsed t h) (by_holders_eats p elapsed t _ _)
