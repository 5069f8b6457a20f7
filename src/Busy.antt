-- ===== src/Busy.antt =====
-- linux_kernel_development/homework10/tic_tac.c: two kernel threads that print in turn, each waiting
-- for its turn in a loop around schedule() before it locks the mutex. Thread 0 of the model is
-- tic_thread_func, thread 1 is tac_thread_func; what they print is written 1 and 2, as `turn`.
pub mod Fair
pub mod Progress
pub mod Init
mod Tests
use linux_c_homeworks.Prelude.{
  ℕ, zero, suc, ◌+◌, ◌≡◌, ◌<◌, Bool, true, false, Option, none, some, List, [], ◌∷◌, ltb, ◌==◌, not,
  if◌then◌else◌,
}
use linux_c_homeworks.Prelude.Int.{ℤ, pos, negsuc}
use linux_c_homeworks.Chardev.{Pointer, is_null, minus_enosys}

abbrev pub count_times : ℕ
count_times = 10

-- At the test of turn; past it, before mutex_lock; with the mutex, before printk; and after the
-- assignment to turn, before mutex_unlock.
pub data Place : Type 0 where
  spinning passed locked printed : Place

pub record Thread : Type 0 where
  pub place : Place
  pub counter : ℕ

-- `out` is what the threads printed, the latest first.
pub record System : Type 0 where
  pub turn : ℕ
  pub threads : ℕ → Thread
  pub mtx : Option ℕ
  pub out : List ℕ

abbrev pub put : (ℕ → Thread) → ℕ → Thread → ℕ → Thread
put threads i t j = if j == i then t else threads j

abbrev pub go : ℕ → Place → System → System
go i place s = record s { threads = put s.threads i (record (s.threads i) { place = place }) }

-- The turn that thread i sets.
abbrev pub next_turn : ℕ → ℕ
next_turn zero = 2
next_turn (suc i) = 1

-- One step of thread i at a place: `none` if it has to wait for the mutex or has returned. A test of
-- turn that fails leaves everything as it is.
pub act : ℕ → Place → System → Option System
act i spinning s =
    if not (ltb (s.threads i).counter count_times)
    then none
    else if not (s.turn == i + 1)
    then some s
    else some (go i passed s)
act i passed s = elim s.mtx [
  | none ↦ some (record (go i locked s) { mtx = some i })
  | some owner ↦ none
]
act i locked s = some (record (go i printed s) { turn = next_turn i; out = (i + 1) ∷ s.out })
act i printed s = some (record s {
  mtx = none;
  threads = put s.threads i (record { place = spinning; counter = (s.threads i).counter + 1 });
})

pub run_thread : ℕ → System → Option System
run_thread i s = act i (s.threads i).place s

abbrev pub started : System
started = record {
  turn = 1;
  threads = λ i. record { place = spinning; counter = if ltb i 2 then 0 else count_times };
  mtx = none;
  out = [];
}

pub data Reach : System → Type 0 where
  start : Reach started
  runs : {s : System} (i : ℕ) (t : System) → Reach s → run_thread i s ≡ some t → Reach t

-- What tictac_init leaves: its code, whether the mutex can be used, and which threads run.
pub record Started : Type 0 where
  pub code : ℤ
  pub mutex_ready : Bool
  pub tic_runs : Bool
  pub tac_runs : Bool

-- The part after the first thread runs.
pub start_tac : Pointer → Started
start_tac tac_thread =
    if is_null tac_thread
    then record { code = minus_enosys; mutex_ready = false; tic_runs = true; tac_runs = false }
    else record { code = pos 0; mutex_ready = true; tic_runs = true; tac_runs = true }

pub tictac_init : Pointer → Pointer → Started
tictac_init tic_thread tac_thread =
    if is_null tic_thread
    then record { code = minus_enosys; mutex_ready = false; tic_runs = false; tac_runs = false }
    else start_tac tac_thread
