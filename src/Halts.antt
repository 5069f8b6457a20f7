-- ===== src/Halts.antt =====
-- linux_c_development/homework11/mutex/mutex3.c: two threads that count together up to ten, one of
-- which sleeps on a condition variable while the other one counts. Thread 1 is functionCount1 and
-- thread 2 functionCount2. Each test of `count` is a read of its own.
pub mod Bounds
pub mod Order
mod Tests
use linux_c_homeworks.Prelude.{
  ℕ, zero, suc, ◌+◌, ◌≡◌, Bool, true, false, Option, none, some, List, [], ◌∷◌, ◌==◌, ltb, leb,
  if◌then◌else◌,
}

abbrev pub count_done : ℕ
count_done = 10

abbrev pub count_halt_1 : ℕ
count_halt_1 = 2

abbrev pub count_halt_2 : ℕ
count_halt_2 = 5

-- Thread 1 before its first printf; thread 2 at the two tests that its counting hangs on; both before
-- they lock count_mutex, at `count`, and before they unlock it; before they lock condition_mutex; at the
-- two tests of their second part; thread 1 before pthread_cond_wait, asleep in it, and woken without
-- the mutex yet; thread 2 before pthread_cond_signal; both before they unlock condition_mutex, at the
-- last test, and returned.
pub data Place : Type 0 where
  starting wanting_low wanting_high count_lock counting count_unlock cond_lock : Place
  low_test high_test to_wait asleep woken signalling cond_unlock done_test returned : Place

-- A mutex is 0 when it is free, and else the thread that has it. `out` is who counted, the latest first.
pub record System : Type 0 where
  pub count : ℕ
  pub count_mutex : ℕ
  pub condition_mutex : ℕ
  pub first : Place
  pub second : Place
  pub out : List ℕ

abbrev pub first_goes : Place → System → System
first_goes place s = record s { first = place }

abbrev pub second_goes : Place → System → System
second_goes place s = record s { second = place }

-- One step of functionCount1 at a place: `none` where it has to wait, or has returned.
pub first_act : Place → System → Option System
first_act starting s = some (first_goes count_lock s)
first_act wanting_low s = none
first_act wanting_high s = none
first_act count_lock s =
    if s.count_mutex == 0 then some (record s { count_mutex = 1; first = counting }) else none
first_act counting s =
    some (record s { count = s.count + 1; out = 1 ∷ s.out; first = count_unlock })
first_act count_unlock s = some (record s { count_mutex = 0; first = cond_lock })
first_act cond_lock s =
    if s.condition_mutex == 0
    then some (record s { condition_mutex = 1; first = low_test })
    else none
first_act low_test s =
    some (first_goes (if leb count_halt_1 s.count then high_test else cond_unlock) s)
first_act high_test s =
    some (first_goes (if leb s.count count_halt_2 then to_wait else cond_unlock) s)
first_act to_wait s = some (record s { condition_mutex = 0; first = asleep })
first_act asleep s = none
first_act woken s =
    if s.condition_mutex == 0
    then some (record s { condition_mutex = 1; first = cond_unlock })
    else none
first_act signalling s = none
first_act cond_unlock s = some (record s { condition_mutex = 0; first = done_test })
first_act done_test s =
    some (first_goes (if leb count_done s.count then returned else count_lock) s)
first_act returned s = none

-- The effect of pthread_cond_signal on thread 1.
abbrev pub wake : Place → Place
wake place = elim place [ asleep ↦ woken | other ↦ other ]

-- One step of functionCount2 at a place.
pub second_act : Place → System → Option System
second_act starting s = none
second_act wanting_low s =
    some (second_goes (if leb count_halt_1 s.count then wanting_high else cond_lock) s)
second_act wanting_high s =
    some (second_goes (if leb s.count count_halt_2 then count_lock else cond_lock) s)
second_act count_lock s =
    if s.count_mutex == 0 then some (record s { count_mutex = 2; second = counting }) else none
second_act counting s =
    some (record s { count = s.count + 1; out = 2 ∷ s.out; second = count_unlock })
second_act count_unlock s = some (record s { count_mutex = 0; second = cond_lock })
second_act cond_lock s =
    if s.condition_mutex == 0
    then some (record s { condition_mutex = 2; second = low_test })
    else none
second_act low_test s =
    some (second_goes (if ltb s.count count_halt_1 then signalling else high_test) s)
second_act high_test s =
    some (second_goes (if ltb count_halt_2 s.count then signalling else cond_unlock) s)
second_act to_wait s = none
second_act asleep s = none
second_act woken s = none
second_act signalling s = some (record s { first = wake s.first; second = cond_unlock })
second_act cond_unlock s = some (record s { condition_mutex = 0; second = done_test })
second_act done_test s =
    some (second_goes (if leb count_done s.count then returned else wanting_low) s)
second_act returned s = none

abbrev pub started : System
started = record {
  count = 0;
  count_mutex = 0;
  condition_mutex = 0;
  first = starting;
  second = wanting_low;
  out = [];
}

-- POSIX lets pthread_cond_wait return without a signal; `spurious` says whether it does here.
pub data Reach (spurious : Bool) : System → Type 0 where
  start : Reach spurious started
  first_runs :
      {s : System} (t : System) → Reach spurious s → first_act s.first s ≡ some t → Reach spurious t
  second_runs :
      {s : System} (t : System)
      → Reach spurious s
      → second_act s.second s ≡ some t
      → Reach spurious t
  wakes :
      {s : System}
      → Reach spurious s
      → spurious ≡ true
      → s.first ≡ asleep
      → Reach spurious (first_goes woken s)
