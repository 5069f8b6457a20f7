-- ===== src/Philosophers/Solo.antt =====
-- A philosopher who is alone at the table: his first four rounds from free sticks.
use linux_c_homeworks.Prelude.{
  ℕ, zero, suc, ◌+◌, ◌<◌, ◌≡◌, refl, List, [], ◌∷◌, none, replicate, arith, set, get_or, ◌/◌,
}
use linux_c_homeworks.Philosophers.{
  Table, philosophers_number, Outcome, thinks, thinks_and_puts_right, eats, round, eat,
  mutex_trylock, mutex_unlock, take_left_stick, take_right_stick, put_left_stick, put_right_stick,
}

-- Rounds of one philosopher, one for each time that a meal of the round would take.
pub rounds_of : ℕ → List ℕ → Table → List Outcome × Table
rounds_of p [] t = ([], t)
rounds_of p (elapsed ∷ times) t =
    let (outcome, t') = round p elapsed t in
    let (outcomes, last) = rounds_of p times t' in (outcome ∷ outcomes, last)

abbrev pub free_table : List ℕ → Table
free_table eat_time = record { sticks = replicate philosophers_number none; eat_time = eat_time }

-- Alone, with all sticks free, a philosopher takes his right stick and thinks; finds it locked by
-- himself, swaps it for the left one and thinks; takes the right one again and thinks; and only in
-- the fourth round, when both are locked, he eats. Then all sticks are free again, and only the time
-- of the fourth round, divided by 1000, is added to what he has eaten.
pub solo :
    (p a b c d : ℕ) (eat_time : List ℕ)
    → p < philosophers_number
    → rounds_of p (a ∷ b ∷ c ∷ d ∷ []) (free_table eat_time) ≡ (
      thinks ∷ thinks_and_puts_right ∷ thinks ∷ eats ∷ [],
      free_table (set eat_time p (get_or eat_time p 0 + d / 1000)),
    )
unfolding rounds_of round eat mutex_trylock mutex_unlock take_left_stick take_right_stick
    put_left_stick put_right_stick
solo zero a b c d eat_time h = refl
solo (suc zero) a b c d eat_time h = refl
solo (suc (suc zero)) a b c d eat_time h = refl
solo (suc (suc (suc zero))) a b c d eat_time h = refl
solo (suc (suc (suc (suc zero)))) a b c d eat_time h = refl
solo (suc (suc (suc (suc (suc p))))) a b c d eat_time h = absurd (omega arith)
