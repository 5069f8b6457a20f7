-- ===== src/Turns/Fair.antt =====
-- The invariant of the threads that print in turn: the order of what they print, the mutex, and that
-- no wake-up is lost; each step by itself.
use linux_c_homeworks.Prelude.{
  ℕ, zero, suc, ◌+◌, ◌-◌, ◌≤◌, ◌<◌, ◌≡◌, ◌≢◌, refl, Bool, true, false, Option, none, some, List, [],
  ◌∷◌, ltb, ◌==◌, if◌then◌else◌, arith, ap, sym,
}
use linux_c_homeworks.Turns.{
  count_times, Place, top, testing, asleep, waking, printed, signalled, Thread, System, put,
  broadcast, go, started,
}

-- The numbers 1 to r, the latest first, on top of what was printed before.
abbrev pub count_down : ℕ → List ℕ → List ℕ
count_down zero base = base
count_down (suc r) base = suc r ∷ count_down r base

-- What q rounds of n threads print.
abbrev pub rounds_out : ℕ → ℕ → List ℕ
rounds_out n zero = []
rounds_out n (suc q) = count_down n (rounds_out n q)

-- Between locking and unlocking the mutex.
abbrev pub is_inside : Place → Bool
is_inside top = false
is_inside testing = true
is_inside asleep = false
is_inside waking = false
is_inside printed = true
is_inside signalled = true

abbrev pub is_top : Place → Bool
is_top top = true
is_top testing = false
is_top asleep = false
is_top waking = false
is_top printed = false
is_top signalled = false

abbrev pub owns : Option ℕ → ℕ → Bool
owns none i = false
owns (some j) i = i == j

abbrev pub is_printed : Place → Bool
is_printed top = false
is_printed testing = false
is_printed asleep = false
is_printed waking = false
is_printed printed = true
is_printed signalled = false

-- Whether the thread that has the mutex is about to call pthread_cond_broadcast.
abbrev pub broadcast_due : Option ℕ → (ℕ → Thread) → Bool
broadcast_due none threads = false
broadcast_due (some j) threads = is_printed (threads j).place

-- How many numbers a thread has printed.
abbrev pub has_printed : Place → ℕ → ℕ
has_printed top c = c
has_printed testing c = c
has_printed asleep c = c
has_printed waking c = c
has_printed printed c = c + 1
has_printed signalled c = c + 1

abbrev pub weight : Thread → ℕ
weight t = has_printed t.place t.count_thread

-- In round q, the threads before the one whose turn it is have printed once more than the others.
pub record IsFair (n : ℕ) (s : System) (q : ℕ) : Type 0 where
  pub turn_low : 1 ≤ s.turn
  pub turn_high : s.turn ≤ n
  pub shares : (i : ℕ) → i < n → weight (s.threads i) ≡ (if ltb (i + 1) s.turn then q + 1 else q)
  pub inside : (i : ℕ) → is_inside (s.threads i).place ≡ owns s.mtx i
  pub counts :
      (i : ℕ)
      → (s.threads i).count_thread + (if is_top (s.threads i).place then 0 else 1) ≤ count_times
  pub awake :
      (i : ℕ) → (s.threads i).place ≡ asleep → s.turn ≡ i + 1 → broadcast_due s.mtx s.threads ≡ true
  pub ordered : s.out ≡ count_down (s.turn - 1) (rounds_out n q)

more_printed :
    (turn i : ℕ) (out base : List ℕ)
    → turn ≡ i + 1
    → out ≡ count_down (turn - 1) base
    → (i + 1) ∷ out ≡ count_down (i + 1) base
more_printed turn i out base mine e =
    let e₁ : turn - 1 ≡ i = omega arith in
    let e₂ : i + 1 ≡ suc i = omega arith in rw (e₂) (ap (λ xs. suc i ∷ xs) (rw (e₁) at e))

module _ (n : ℕ) where
  pub started-IsFair : 0 < n → IsFair n (started n) 0
  started-IsFair h = record {
    turn_low = omega arith;
    turn_high = omega arith;
    shares = λ i k. ground arith;
    inside = λ i. refl;
    counts = λ i. ground arith;
    awake = λ i e t. absurd (cc e);
    ordered = refl;
  }

  pub locks :
      (s : System) (q i : ℕ)
      → IsFair n s q
      → s.mtx ≡ none
      → is_inside (s.threads i).place ≡ false
      → (s.threads i).count_thread < count_times
      → weight (s.threads i) ≡ (s.threads i).count_thread
      → IsFair n (record (go i testing s) { mtx = some i }) q
  locks s q i f free out room w = record {
    turn_low = f.turn_low;
    turn_high = f.turn_high;
    shares = λ j k. ground (arith, f.shares j k, w);
    inside = λ j. ground (arith, f.inside j, free);
    counts = λ j. ground (arith, f.counts j, room);
    awake = λ j e t. ground (arith, f.awake j, free);
    ordered = f.ordered;
  }

  pub waits :
      (s : System) (q i : ℕ)
      → IsFair n s q
      → (s.threads i).place ≡ testing
      → s.turn ≢ i + 1
      → IsFair n (record (go i asleep s) { mtx = none }) q
  waits s q i f e other = record {
    turn_low = f.turn_low;
    turn_high = f.turn_high;
    shares = λ j k. ground (arith, f.shares j k, e);
    inside = λ j. ground (arith, f.inside j, f.inside i, e);
    counts = λ j. ground (arith, f.counts j, e);
    awake = λ j a t. ground (arith, f.awake j, f.inside i, e, other);
    ordered = f.ordered;
  }

  pub prints_within :
      (s : System) (q i : ℕ)
      → IsFair n s q
      → (s.threads i).place ≡ testing
      → s.turn ≡ i + 1
      → i + 1 < n
      → IsFair n (record (go i printed s) { turn = i + 1 + 1; out = (i + 1) ∷ s.out }) q
  prints_within s q i f e mine more = record {
    turn_low = omega arith;
    turn_high = omega arith;
    shares = λ j k. ground (arith, f.shares j k, e);
    inside = λ j. ground (arith, f.inside j, f.inside i, e);
    counts = λ j. ground (arith, f.counts j, e);
    awake = λ j a t. ground (arith, f.inside i, e);
    ordered =
        let e' : i + 1 + 1 - 1 ≡ i + 1 = omega arith in
        rw (e') (more_printed s.turn i s.out (rounds_out n q) mine f.ordered);
  }

  pub prints_last :
      (s : System) (q i : ℕ)
      → IsFair n s q
      → (s.threads i).place ≡ testing
      → s.turn ≡ i + 1
      → i + 1 ≡ n
      → IsFair n (record (go i printed s) { turn = 1; out = (i + 1) ∷ s.out }) (q + 1)
  prints_last s q i f e mine last = record {
    turn_low = omega arith;
    turn_high = omega arith;
    shares = λ j k. ground (arith, f.shares j k, e);
    inside = λ j. ground (arith, f.inside j, f.inside i, e);
    counts = λ j. ground (arith, f.counts j, e);
    awake = λ j a t. ground (arith, f.inside i, e);
    ordered =
        let e' : q + 1 ≡ suc q = omega arith in
        rw (e', sym last) (more_printed s.turn i s.out (rounds_out n q) mine f.ordered);
  }

  pub broadcasts :
      (s : System) (q i : ℕ)
      → IsFair n s q
      → (s.threads i).place ≡ printed
      → IsFair n (go i signalled (record s { threads = broadcast s.threads })) q
  broadcasts s q i f e = record {
    turn_low = f.turn_low;
    turn_high = f.turn_high;
    shares = λ j k. ground (arith, f.shares j k, e);
    inside = λ j. ground (arith, f.inside j, f.inside i, e);
    counts = λ j. ground (arith, f.counts j, e);
    awake = λ j a t. ground arith;
    ordered = f.ordered;
  }

  pub unlocks :
      (s : System) (q i : ℕ)
      → IsFair n s q
      → (s.threads i).place ≡ signalled
      → IsFair n
          (record s {
            mtx = none;
            threads =
                put s.threads i
                  (record { place = top; count_thread = (s.threads i).count_thread + 1 });
          })
          q
  unlocks s q i f e = record {
    turn_low = f.turn_low;
    turn_high = f.turn_high;
    shares = λ j k. ground (arith, f.shares j k, e);
    inside = λ j. ground (arith, f.inside j, f.inside i, e);
    counts = λ j. ground (arith, f.counts j, f.counts i, e);
    awake = λ j a t. ground (arith, f.awake j, f.inside i, e);
    ordered = f.ordered;
  }

  pub wakes :
      (s : System) (q i : ℕ)
      → IsFair n s q
      → (s.threads i).place ≡ asleep
      → IsFair n (go i waking s) q
  wakes s q i f e = record {
    turn_low = f.turn_low;
    turn_high = f.turn_high;
    shares = λ j k. ground (arith, f.shares j k, e);
    inside = λ j. ground (arith, f.inside j, e);
    counts = λ j. ground (arith, f.counts j, e);
    awake = λ j a t. ground (arith, f.awake j, e);
    ordered = f.ordered;
  }
