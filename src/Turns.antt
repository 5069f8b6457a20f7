-- ===== src/Turns.antt =====
-- Threads that print in turn: linux_c_development/homework11/1_2_3/1_2_3.c (three threads) and
-- homework11/tic_tac/tic_tac.c (two). Thread i of the model is fn_thread<i + 1>; a step is what one
-- thread does between two calls that another thread can notice.
pub mod Fair
pub mod Reached
pub mod Progress
mod Tests
use linux_c_homeworks.Prelude.{
  ℕ, zero, suc, ◌+◌, ◌≡◌, ◌<◌, Bool, true, false, Option, none, some, List, [], ◌∷◌, ltb, ◌==◌, not,
  if◌then◌else◌,
}

abbrev pub count_times : ℕ
count_times = 5

-- Where a thread is: before pthread_mutex_lock; at the test of turn, with the mutex; in
-- pthread_cond_wait; in there, woken, and waiting for the mutex; after the assignment to turn; and
-- after the broadcast.
pub data Place : Type 0 where
  top testing asleep waking printed signalled : Place

pub record Thread : Type 0 where
  pub place : Place
  pub count_thread : ℕ

-- `mtx` is the thread that has the mutex; `out` the numbers that the threads printed, the latest
-- first.
pub record System : Type 0 where
  pub turn : ℕ
  pub threads : ℕ → Thread
  pub mtx : Option ℕ
  pub out : List ℕ

abbrev pub put : (ℕ → Thread) → ℕ → Thread → ℕ → Thread
put threads i t j = if j == i then t else threads j

abbrev pub woken : Place → Place
woken asleep = waking
woken top = top
woken testing = testing
woken waking = waking
woken printed = printed
woken signalled = signalled

-- pthread_cond_broadcast. With two threads pthread_cond_signal does the same: the one that calls it
-- does not wait, so at most one does.
abbrev pub broadcast : (ℕ → Thread) → ℕ → Thread
broadcast threads j = record (threads j) { place = woken (threads j).place }

abbrev pub go : ℕ → Place → System → System
go i place s = record s { threads = put s.threads i (record (s.threads i) { place = place }) }

-- What thread i can do at a place, when `next (i + 1)` is the turn that it passes on to; `none` if it
-- has to wait or has returned.
pub act : (ℕ → ℕ) → ℕ → Place → System → Option System
act next i top s =
    if not (ltb (s.threads i).count_thread count_times)
    then none
    else elim s.mtx [ none ↦ some (record (go i testing s) { mtx = some i }) | some owner ↦ none ]
act next i testing s =
    if not (s.turn == i + 1)
    then some (record (go i asleep s) { mtx = none })
    else some (record (go i printed s) { turn = next (i + 1); out = (i + 1) ∷ s.out })
act next i asleep s = none
act next i waking s = elim s.mtx [
  | none ↦ some (record (go i testing s) { mtx = some i })
  | some owner ↦ none
]
act next i printed s = some (go i signalled (record s { threads = broadcast s.threads }))
act next i signalled s = some (record s {
  mtx = none;
  threads = put s.threads i (record { place = top; count_thread = (s.threads i).count_thread + 1 });
})

pub run_thread : (ℕ → ℕ) → ℕ → System → Option System
run_thread next i s = act next i (s.threads i).place s

-- A thread runs, or pthread_cond_wait returns though nobody has called pthread_cond_broadcast.
pub data Step (next : ℕ → ℕ) (s : System) : System → Type 0 where
  runs : (i : ℕ) (t : System) → run_thread next i s ≡ some t → Step next s t
  wakes_up : (i : ℕ) → (s.threads i).place ≡ asleep → Step next s (go i waking s)

-- Before the first thread runs; n threads are created.
abbrev pub started : ℕ → System
started n = record {
  turn = 1;
  threads = λ i. record { place = top; count_thread = if ltb i n then 0 else count_times };
  mtx = none;
  out = [];
}

pub data Reach (n : ℕ) (next : ℕ → ℕ) : System → Type 0 where
  start : Reach n next (started n)
  step : {s t : System} → Reach n next s → Step next s t → Reach n next t

-- fn_thread1, fn_thread2 and fn_thread3 of 1_2_3.c set turn to 2, 3 and 1.
abbrev pub next_of_three : ℕ → ℕ
next_of_three (suc zero) = 2
next_of_three (suc (suc zero)) = 3
next_of_three _ = 1

-- fn_thread1 and fn_thread2 of tic_tac.c set turn to 2 and 1.
abbrev pub next_of_two : ℕ → ℕ
next_of_two (suc zero) = 2
next_of_two _ = 1
