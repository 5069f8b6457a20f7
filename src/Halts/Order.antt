-- ===== src/Halts/Order.antt =====
-- Who counts when: the order that the comment in the source gives.
use linux_c_homeworks.Prelude.{
  ℕ, zero, suc, ◌+◌, ◌≤◌, ◌<◌, ◌≡◌, refl, Bool, true, false, some, List, [], ◌∷◌, ◌||◌, ltb, leb,
  if◌then◌else◌, arith,
}
use linux_c_homeworks.Halts.{
  Place, starting, wanting_low, wanting_high, count_lock, counting, count_unlock, cond_lock,
  low_test, high_test, to_wait, asleep, woken, signalling, cond_unlock, done_test, returned, System,
  first_act, second_act, count_done, count_halt_1, count_halt_2, Reach, start, first_runs,
  second_runs, wakes,
}
use linux_c_homeworks.Halts.Bounds.{may_count, is_asleep, has_returned, IsBounded, Reach-IsBounded}

-- The thread that counts from n to n + 1.
abbrev pub who : ℕ → ℕ
who n = if ltb n count_halt_1 then 1 else if leb n count_halt_2 then 2 else 1

abbrev pub in_order : ℕ → List ℕ
in_order zero = []
in_order (suc n) = who n ∷ in_order n

-- Past the test for the lower bound, and not past the sleep.
abbrev pub tests_high : Place → Bool
tests_high place = elim place [ high_test ↦ true | to_wait ↦ true | asleep ↦ true | _ ↦ false ]

-- Thread 1 where the next it does is to count.
abbrev pub is_released : Place → Bool
is_released place = elim place [
  | woken ↦ true
  | cond_unlock ↦ true
  | done_test ↦ true
  | starting ↦ true
  | count_lock ↦ true
  | counting ↦ true
  | _ ↦ false
]

abbrev pub is_signalling : Place → Bool
is_signalling place = elim place [ signalling ↦ true | _ ↦ false ]

pub record IsOrdered (s : System) : Type 0 where
  pub order : s.out ≡ in_order s.count
  pub first_turn : is_released s.first ≡ true → who s.count ≡ 1
  pub few : may_count s.first ≡ true → s.count < count_done
  pub second_turn : may_count s.second ≡ true → who s.count ≡ 2
  pub first_low : tests_high s.first ≡ true → count_halt_1 ≤ s.count
  pub signal : is_signalling s.second ≡ true → is_asleep s.first ≡ true → count_halt_2 < s.count
  pub top : s.count ≤ count_done

next : (n : ℕ) → in_order (n + 1) ≡ who n ∷ in_order n
next n = let e : n + 1 ≡ suc n = omega arith in rw e refl

first_act-IsOrdered :
    (s t : System) (place : Place)
    → IsBounded s
    → IsOrdered s
    → s.first ≡ place
    → first_act place s ≡ some t
    → IsOrdered t
unfolding first_act
first_act-IsOrdered s t starting f g e run = ground arith
first_act-IsOrdered s t wanting_low f g e run = absurd (cc run)
first_act-IsOrdered s t wanting_high f g e run = absurd (cc run)
first_act-IsOrdered s t count_lock f g e run = ground arith
first_act-IsOrdered s t counting f g e run = ground (arith, next s.count)
first_act-IsOrdered s t count_unlock f g e run = ground arith
first_act-IsOrdered s t cond_lock f g e run = ground arith
first_act-IsOrdered s t low_test f g e run = ground arith
first_act-IsOrdered s t high_test f g e run = ground arith
first_act-IsOrdered s t to_wait f g e run = ground arith
first_act-IsOrdered s t asleep f g e run = absurd (cc run)
first_act-IsOrdered s t woken f g e run = ground arith
first_act-IsOrdered s t signalling f g e run = absurd (cc run)
first_act-IsOrdered s t cond_unlock f g e run = ground arith
first_act-IsOrdered s t done_test f g e run = ground arith
first_act-IsOrdered s t returned f g e run = absurd (cc run)

second_act-IsOrdered :
    (s t : System) (place : Place)
    → IsBounded s
    → IsOrdered s
    → s.second ≡ place
    → second_act place s ≡ some t
    → IsOrdered t
unfolding second_act
second_act-IsOrdered s t starting f g e run = absurd (cc run)
second_act-IsOrdered s t wanting_low f g e run = ground arith
second_act-IsOrdered s t wanting_high f g e run = ground arith
second_act-IsOrdered s t count_lock f g e run = ground arith
second_act-IsOrdered s t counting f g e run = ground (arith, next s.count)
second_act-IsOrdered s t count_unlock f g e run = ground arith
second_act-IsOrdered s t cond_lock f g e run = ground arith
second_act-IsOrdered s t low_test f g e run = ground arith
second_act-IsOrdered s t high_test f g e run = ground arith
second_act-IsOrdered s t to_wait f g e run = absurd (cc run)
second_act-IsOrdered s t asleep f g e run = absurd (cc run)
second_act-IsOrdered s t woken f g e run = absurd (cc run)
second_act-IsOrdered s t signalling f g e run = ground arith
second_act-IsOrdered s t cond_unlock f g e run = ground arith
second_act-IsOrdered s t done_test f g e run = ground arith
second_act-IsOrdered s t returned f g e run = absurd (cc run)

pub Reach-IsOrdered : {s : System} → Reach false s → IsOrdered s
Reach-IsOrdered start = ground arith
Reach-IsOrdered (first_runs {s} t r run) =
    first_act-IsOrdered s t s.first (Reach-IsBounded r) (Reach-IsOrdered r) refl run
Reach-IsOrdered (second_runs {s} t r run) =
    second_act-IsOrdered s t s.second (Reach-IsBounded r) (Reach-IsOrdered r) refl run
Reach-IsOrdered (wakes {s} r allowed e) = absurd (cc allowed)

-- If pthread_cond_wait returns on a signal only, then in every state that can be reached the numbers
-- 1 and 2 have been counted by thread 1, 3 to 6 by thread 2 and those from 7 on by thread 1; the count
-- is at most 10, and 10 once a thread has returned.
pub order_lem :
    {s : System}
    → Reach false s
    → (s.out ≡ in_order s.count)
      × (s.count ≤ count_done)
      × ((has_returned s.first || has_returned s.second) ≡ true → s.count ≡ count_done)
order_lem r =
    let f = Reach-IsOrdered r in let g = Reach-IsBounded r in (f.order, f.top, λ e. ground arith)
