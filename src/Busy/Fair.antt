-- ===== src/Busy/Fair.antt =====
-- The invariant of the two kernel threads, and that every step keeps it.
use linux_c_homeworks.Prelude.{
  ℕ, zero, suc, ◌+◌, ◌≤◌, ◌<◌, ◌≡◌, refl, ap, Bool, true, false, Option, none, some, List, [], ◌∷◌,
  ltb, ◌==◌, if◌then◌else◌, arith, Bool-cases, Option-cases, inl, inr, ◌⊎◌,
}
use mathlib.Core.Path.{subst}
use linux_c_homeworks.Busy.{
  count_times, Place, spinning, passed, locked, printed, Thread, System, put, go, act, run_thread,
  started, Reach, start, runs,
}

abbrev pub has_mutex : Place → Bool
has_mutex spinning = false
has_mutex passed = false
has_mutex locked = true
has_mutex printed = true

abbrev pub owns : Option ℕ → ℕ → Bool
owns none i = false
owns (some j) i = i == j

-- Past the test of turn and before the assignment to it.
abbrev pub expects_turn : Place → Bool
expects_turn spinning = false
expects_turn passed = true
expects_turn locked = true
expects_turn printed = false

abbrev pub is_spinning : Place → Bool
is_spinning spinning = true
is_spinning passed = false
is_spinning locked = false
is_spinning printed = false

-- How many lines a thread has printed.
abbrev pub lines_of : Place → ℕ → ℕ
lines_of spinning c = c
lines_of passed c = c
lines_of locked c = c
lines_of printed c = c + 1

abbrev pub lines : Thread → ℕ
lines t = lines_of t.place t.counter

-- The lines 1, 2, 1, 2, ..., the latest first: q times both.
abbrev pub pairs : ℕ → List ℕ
pairs zero = []
pairs (suc q) = 2 ∷ 1 ∷ pairs q

abbrev pub printed_so_far : ℕ → ℕ → List ℕ
printed_so_far turn q = if turn == 1 then pairs q else 1 ∷ pairs q

-- q times both threads have printed; at turn 2 thread 0 once more.
pub record IsFair (s : System) (q : ℕ) : Type 0 where
  pub turns : (s.turn ≡ 1) ⊎ (s.turn ≡ 2)
  pub tic_lines : lines (s.threads 0) ≡ (if s.turn == 1 then q else q + 1)
  pub tac_lines : lines (s.threads 1) ≡ q
  pub mutex : (i : ℕ) → has_mutex (s.threads i).place ≡ owns s.mtx i
  pub expected : (i : ℕ) → expects_turn (s.threads i).place ≡ true → s.turn ≡ i + 1
  pub counts :
      (i : ℕ)
      → (s.threads i).counter + (if is_spinning (s.threads i).place then 0 else 1) ≤ count_times
  pub ordered : s.out ≡ printed_so_far s.turn q

started-IsFair : IsFair started 0
started-IsFair = record {
  turns = inl refl;
  tic_lines = refl;
  tac_lines = refl;
  mutex = λ i. refl;
  expected = λ i e. absurd (cc e);
  counts = λ i. ground arith;
  ordered = refl;
}

passes :
    (s : System) (q i : ℕ)
    → IsFair s q
    → (s.threads i).place ≡ spinning
    → s.turn ≡ i + 1
    → (s.threads i).counter < count_times
    → IsFair (go i passed s) q
passes s q i f e mine room = record {
  turns = f.turns;
  tic_lines = ground (arith, f.tic_lines, e);
  tac_lines = ground (arith, f.tac_lines, e);
  mutex = λ j. ground (arith, f.mutex j, e);
  expected = λ j x. ground (arith, f.expected j, mine);
  counts = λ j. ground (arith, f.counts j, room);
  ordered = f.ordered;
}

locks :
    (s : System) (q i : ℕ)
    → IsFair s q
    → (s.threads i).place ≡ passed
    → s.mtx ≡ none
    → IsFair (record (go i locked s) { mtx = some i }) q
locks s q i f e free = record {
  turns = f.turns;
  tic_lines = ground (arith, f.tic_lines, e);
  tac_lines = ground (arith, f.tac_lines, e);
  mutex = λ j. ground (arith, f.mutex j, e, free);
  expected = λ j x. ground (arith, f.expected j, f.expected i, e);
  counts = λ j. ground (arith, f.counts j, e);
  ordered = f.ordered;
}

unlocks :
    (s : System) (q i : ℕ)
    → IsFair s q
    → (s.threads i).place ≡ printed
    → IsFair
        (record s {
          mtx = none;
          threads =
              put s.threads i (record { place = spinning; counter = (s.threads i).counter + 1 });
        })
        q
unlocks s q i f e = record {
  turns = f.turns;
  tic_lines = ground (arith, f.tic_lines, e);
  tac_lines = ground (arith, f.tac_lines, e);
  mutex = λ j. ground (arith, f.mutex j, f.mutex i, e);
  expected = λ j x. ground (arith, f.expected j, e);
  counts = λ j. ground (arith, f.counts j, f.counts i, e);
  ordered = f.ordered;
}

tic :
    (s : System) (q : ℕ)
    → IsFair s q
    → (s.threads 0).place ≡ locked
    → IsFair (record (go 0 printed s) { turn = 2; out = 1 ∷ s.out }) q
tic s q f e = record {
  turns = inr refl;
  tic_lines = ground (arith, f.tic_lines, f.expected 0, e);
  tac_lines = ground (arith, f.tac_lines);
  mutex = λ j. ground (arith, f.mutex j, f.mutex 0, e);
  expected = λ j x. ground (arith, f.expected j, f.expected 0, e);
  counts = λ j. ground (arith, f.counts j, e);
  ordered =
      (let mine : s.turn ≡ 1 = f.expected 0 (rw e refl) in
        ap (λ xs. 1 ∷ xs) (rw mine at f.ordered));
}

tac :
    (s : System) (q : ℕ)
    → IsFair s q
    → (s.threads 1).place ≡ locked
    → IsFair (record (go 1 printed s) { turn = 1; out = 2 ∷ s.out }) (q + 1)
tac s q f e = record {
  turns = inl refl;
  tic_lines = ground (arith, f.tic_lines, f.expected 1, e);
  tac_lines = ground (arith, f.tac_lines, e);
  mutex = λ j. ground (arith, f.mutex j, f.mutex 1, e);
  expected = λ j x. ground (arith, f.expected j, f.expected 1, e);
  counts = λ j. ground (arith, f.counts j, e);
  ordered =
      (let mine : s.turn ≡ 2 = f.expected 1 (rw e refl) in
        let next : q + 1 ≡ suc q = omega arith in
        rw next (ap (λ xs. 2 ∷ xs) (rw mine at f.ordered)));
}

abbrev pub Fair : System → Type 0
Fair s = (q : ℕ) × IsFair s q

becomes : (t u : System) → Fair t → some t ≡ some u → Fair u
becomes t u f e = let e' : t ≡ u = cc e in subst Fair e' f

act-Fair :
    (s t : System) (q i : ℕ) (place : Place)
    → IsFair s q
    → (s.threads i).place ≡ place
    → act i place s ≡ some t
    → Fair t
unfolding act
act-Fair s t q i spinning f e run = elim (Bool-cases (ltb (s.threads i).counter count_times)) [
  | inl room ↦ elim (Bool-cases (s.turn == i + 1)) [
    | inl mine ↦
        becomes (go i passed s) t (q, passes s q i f e (ground arith) (ground arith))
          (rw (room, mine, act) at run)
    | inr other ↦ becomes s t (q, f) (rw (room, other, act) at run)
  ]
  | inr over ↦ absurd (cc (rw (over, act) at run))
]
act-Fair s t q i passed f e run = elim (Option-cases s.mtx) [
  | inl free ↦
      becomes (record (go i locked s) { mtx = some i }) t (q, locks s q i f e free)
        (rw (free, act) at run)
  | inr (j, held) ↦ absurd (cc (rw (held, act) at run))
]
act-Fair s t q zero locked f e run = becomes _ t (q, tic s q f e) run
act-Fair s t q (suc zero) locked f e run = becomes _ t (q + 1, tac s q f e) run
act-Fair s t q (suc (suc i)) locked f e run =
    absurd (ground (arith, f.expected (suc (suc i)), f.turns, e))
act-Fair s t q i printed f e run = becomes _ t (q, unlocks s q i f e) run

pub Reach-Fair : {s : System} → Reach s → Fair s
unfolding run_thread
Reach-Fair start = (0, started-IsFair)
Reach-Fair (runs {s} i t r run) =
    let (q, f) = Reach-Fair r in act-Fair s t q i (s.threads i).place f refl run
