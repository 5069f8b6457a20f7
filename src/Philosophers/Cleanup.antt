-- ===== src/Philosophers/Cleanup.antt =====
-- philosophers_cleanup: the threads are stopped and the mutexes destroyed one after the other, while the
-- later threads go on.
use linux_c_homeworks.Prelude.{
  ℕ, zero, suc, ◌≡◌, Bool, false, ltb, leb, ◌==◌, ◌&&◌, not, if◌then◌else◌, arith,
}
use linux_c_homeworks.Philosophers.{philosophers_number, right_index}

-- Which threads run and which mutexes can be used.
pub record Life : Type 0 where
  pub is_running : ℕ → Bool
  pub is_ready : ℕ → Bool

abbrev pub all_run : Life
all_run = record {
  is_running = λ i. ltb i philosophers_number;
  is_ready = λ i. ltb i philosophers_number;
}

-- The body of the loop; kthread_stop waits until the thread has returned.
pub stop_one : ℕ → Life → Life
stop_one i l = record {
  is_running = λ j. if j == i then false else l.is_running j;
  is_ready = λ j. if j == i then false else l.is_ready j;
}

-- The first rounds of the loop.
pub cleanup_rounds : ℕ → Life → Life
cleanup_rounds zero l = l
cleanup_rounds (suc i) l = stop_one i (cleanup_rounds i l)

pub philosophers_cleanup : Life → Life
philosophers_cleanup = cleanup_rounds philosophers_number

-- A thread that runs, one of whose sticks has been destroyed.
abbrev pub is_in_danger : Life → ℕ → Bool
is_in_danger l i = l.is_running i && not (l.is_ready i && l.is_ready (right_index i))

rounds_lem :
    (n j : ℕ)
    → ((cleanup_rounds n all_run).is_running j ≡ (leb n j && ltb j philosophers_number))
      × ((cleanup_rounds n all_run).is_ready j ≡ (leb n j && ltb j philosophers_number))
unfolding cleanup_rounds stop_one
rounds_lem zero j = ground arith
rounds_lem (suc n) j = let (a, b) = rounds_lem n j in ground arith

-- In the unloading, after any number of rounds, the only thread that still runs with a stick that has
-- been destroyed is the last one, from the second round on to its own; in the end no thread runs and
-- no mutex is left.
pub cleanup_lem :
    ((n i : ℕ) → is_in_danger (cleanup_rounds n all_run) i ≡ ((i == 4) && leb 2 n && leb n 4))
    × ((i : ℕ)
        → ((philosophers_cleanup all_run).is_running i ≡ false)
          × ((philosophers_cleanup all_run).is_ready i ≡ false))
unfolding philosophers_cleanup
cleanup_lem = (
  λ n i.
      let (run, _) = rounds_lem n i in
      let (_, left) = rounds_lem n i in
      let (_, right) = rounds_lem n (right_index i) in ground arith,
  λ i. let (a, b) = rounds_lem 5 i in ground arith,
)
