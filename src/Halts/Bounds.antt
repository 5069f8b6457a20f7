-- ===== src/Halts/Bounds.antt =====
-- The two mutexes, how far the count can go, and that the threads do not stop before they return.
use linux_c_homeworks.Prelude.{
  ℕ, ◌+◌, ◌≤◌, ◌≡◌, refl, Bool, true, false, Option, none, some, ◌==◌, ◌&&◌, ◌||◌, not,
  if◌then◌else◌, arith,
}
use linux_c_homeworks.Halts.{
  Place, starting, wanting_low, wanting_high, count_lock, counting, count_unlock, cond_lock,
  low_test, high_test, to_wait, asleep, woken, signalling, cond_unlock, done_test, returned, System,
  first_goes, first_act, second_act, count_done, count_halt_1, Reach, start, first_runs,
  second_runs, wakes,
}

abbrev pub has_count : Place → Bool
has_count place = elim place [ counting ↦ true | count_unlock ↦ true | _ ↦ false ]

abbrev pub has_condition : Place → Bool
has_condition place = elim place [
  | low_test ↦ true
  | high_test ↦ true
  | to_wait ↦ true
  | signalling ↦ true
  | cond_unlock ↦ true
  | _ ↦ false
]

-- Past the last test before `count`.
abbrev pub may_count : Place → Bool
may_count place = elim place [ count_lock ↦ true | counting ↦ true | _ ↦ false ]

-- Thread 1 has found the count between the two bounds.
abbrev pub goes_to_sleep : Place → Bool
goes_to_sleep place = elim place [ to_wait ↦ true | asleep ↦ true | _ ↦ false ]

-- Places that only thread 2 has, and that only thread 1 has.
abbrev pub is_counter_1 : Place → Bool
is_counter_1 place = elim place [
  | wanting_low ↦ true
  | wanting_high ↦ true
  | signalling ↦ true
  | _ ↦ false
]

abbrev pub is_counter_2 : Place → Bool
is_counter_2 place = elim place [
  | starting ↦ true
  | to_wait ↦ true
  | asleep ↦ true
  | woken ↦ true
  | _ ↦ false
]

abbrev pub is_asleep : Place → Bool
is_asleep place = elim place [ asleep ↦ true | _ ↦ false ]

abbrev pub is_starting : Place → Bool
is_starting place = elim place [ starting ↦ true | _ ↦ false ]

abbrev pub has_returned : Place → Bool
has_returned place = elim place [ returned ↦ true | _ ↦ false ]

abbrev pub is_locking_count : Place → Bool
is_locking_count place = elim place [ count_lock ↦ true | _ ↦ false ]

abbrev pub is_locking_condition : Place → Bool
is_locking_condition place = elim place [ cond_lock ↦ true | woken ↦ true | _ ↦ false ]

abbrev pub is_wanting : Place → Bool
is_wanting place = elim place [ wanting_high ↦ true | _ ↦ false ]

abbrev pub one_if : Bool → ℕ
one_if b = if b then 1 else 0

pub record IsBounded (s : System) : Type 0 where
  pub first_count : has_count s.first ≡ (s.count_mutex == 1)
  pub second_count : has_count s.second ≡ (s.count_mutex == 2)
  pub count_owner : s.count_mutex ≤ 2
  pub first_condition : has_condition s.first ≡ (s.condition_mutex == 1)
  pub second_condition : has_condition s.second ≡ (s.condition_mutex == 2)
  pub condition_owner : s.condition_mutex ≤ 2
  pub first_place : is_counter_1 s.first ≡ false
  pub second_place : is_counter_2 s.second ≡ false
  pub bound : s.count + one_if (may_count s.first) + one_if (may_count s.second) ≤ 11
  pub begins : is_starting s.first ≡ true → s.count ≡ 0
  pub second_seen : (may_count s.second || is_wanting s.second) ≡ true → count_halt_1 ≤ s.count
  pub sleeps : goes_to_sleep s.first ≡ true → s.count + one_if (may_count s.second) ≤ 6
  pub first_done : has_returned s.first ≡ true → count_done ≤ s.count
  pub second_done : has_returned s.second ≡ true → count_done ≤ s.count

first_act-IsBounded :
    (s t : System) (place : Place)
    → IsBounded s
    → s.first ≡ place
    → first_act place s ≡ some t
    → IsBounded t
unfolding first_act
first_act-IsBounded s t starting f e run = ground arith
first_act-IsBounded s t wanting_low f e run = absurd (cc run)
first_act-IsBounded s t wanting_high f e run = absurd (cc run)
first_act-IsBounded s t count_lock f e run = ground arith
first_act-IsBounded s t counting f e run = ground arith
first_act-IsBounded s t count_unlock f e run = ground arith
first_act-IsBounded s t cond_lock f e run = ground arith
first_act-IsBounded s t low_test f e run = ground arith
first_act-IsBounded s t high_test f e run = ground arith
first_act-IsBounded s t to_wait f e run = ground arith
first_act-IsBounded s t asleep f e run = absurd (cc run)
first_act-IsBounded s t woken f e run = ground arith
first_act-IsBounded s t signalling f e run = absurd (cc run)
first_act-IsBounded s t cond_unlock f e run = ground arith
first_act-IsBounded s t done_test f e run = ground arith
first_act-IsBounded s t returned f e run = absurd (cc run)

second_act-IsBounded :
    (s t : System) (place : Place)
    → IsBounded s
    → s.second ≡ place
    → second_act place s ≡ some t
    → IsBounded t
unfolding second_act
second_act-IsBounded s t starting f e run = absurd (cc run)
second_act-IsBounded s t wanting_low f e run = ground arith
second_act-IsBounded s t wanting_high f e run = ground arith
second_act-IsBounded s t count_lock f e run = ground arith
second_act-IsBounded s t counting f e run = ground arith
second_act-IsBounded s t count_unlock f e run = ground arith
second_act-IsBounded s t cond_lock f e run = ground arith
second_act-IsBounded s t low_test f e run = ground arith
second_act-IsBounded s t high_test f e run = ground arith
second_act-IsBounded s t to_wait f e run = absurd (cc run)
second_act-IsBounded s t asleep f e run = absurd (cc run)
second_act-IsBounded s t woken f e run = absurd (cc run)
second_act-IsBounded s t signalling f e run = ground arith
second_act-IsBounded s t cond_unlock f e run = ground arith
second_act-IsBounded s t done_test f e run = ground arith
second_act-IsBounded s t returned f e run = absurd (cc run)

wakes-IsBounded : (s : System) → IsBounded s → s.first ≡ asleep → IsBounded (first_goes woken s)
wakes-IsBounded s f e = ground arith

pub Reach-IsBounded : {spurious : Bool} {s : System} → Reach spurious s → IsBounded s
Reach-IsBounded start = ground arith
Reach-IsBounded (first_runs {s} t r run) =
    first_act-IsBounded s t s.first (Reach-IsBounded r) refl run
Reach-IsBounded (second_runs {s} t r run) =
    second_act-IsBounded s t s.second (Reach-IsBounded r) refl run
Reach-IsBounded (wakes {s} r allowed e) = wakes-IsBounded s (Reach-IsBounded r) e

abbrev pub goes : Option System → Bool
goes none = false
goes (some t) = true

first_goes_on :
    (s : System) (place : Place)
    → goes (first_act place s)
      ≡ not (
          is_counter_1 place
          || is_asleep place
          || has_returned place
          || (is_locking_count place && not (s.count_mutex == 0))
          || (is_locking_condition place && not (s.condition_mutex == 0)))
unfolding first_act
first_goes_on s starting = ground arith
first_goes_on s wanting_low = ground arith
first_goes_on s wanting_high = ground arith
first_goes_on s count_lock = ground arith
first_goes_on s counting = ground arith
first_goes_on s count_unlock = ground arith
first_goes_on s cond_lock = ground arith
first_goes_on s low_test = ground arith
first_goes_on s high_test = ground arith
first_goes_on s to_wait = ground arith
first_goes_on s asleep = ground arith
first_goes_on s woken = ground arith
first_goes_on s signalling = ground arith
first_goes_on s cond_unlock = ground arith
first_goes_on s done_test = ground arith
first_goes_on s returned = ground arith

second_goes_on :
    (s : System) (place : Place)
    → is_counter_2 place ≡ false
    → goes (second_act place s)
      ≡ not (
          has_returned place
          || (is_locking_count place && not (s.count_mutex == 0))
          || (is_locking_condition place && not (s.condition_mutex == 0)))
unfolding second_act
second_goes_on s starting h = ground arith
second_goes_on s wanting_low h = ground arith
second_goes_on s wanting_high h = ground arith
second_goes_on s count_lock h = ground arith
second_goes_on s counting h = ground arith
second_goes_on s count_unlock h = ground arith
second_goes_on s cond_lock h = ground arith
second_goes_on s low_test h = ground arith
second_goes_on s high_test h = ground arith
second_goes_on s to_wait h = ground arith
second_goes_on s asleep h = ground arith
second_goes_on s woken h = ground arith
second_goes_on s signalling h = ground arith
second_goes_on s cond_unlock h = ground arith
second_goes_on s done_test h = ground arith
second_goes_on s returned h = ground arith

module _ {spurious : Bool} {s : System} (r : Reach spurious s) where
  -- Whether or not pthread_cond_wait returns without a signal, the count is at most 11 in every state
  -- that can be reached, and 10 or 11 once a thread has returned.
  pub count_bounds :
      (s.count ≤ 11)
      × ((has_returned s.first || has_returned s.second) ≡ true → count_done ≤ s.count)
  count_bounds = let f = Reach-IsBounded r in (ground arith, λ e. ground arith)

  -- In every state that can be reached, unless both threads have returned, one of them can go on: the
  -- one that sleeps is never left alone.
  pub halts_never_stuck :
      (goes (first_act s.first s) || goes (second_act s.second s))
      ≡ not (has_returned s.first && has_returned s.second)
  halts_never_stuck =
      let f = Reach-IsBounded r in
      rw (first_goes_on s s.first, second_goes_on s s.second f.second_place) (ground arith)
