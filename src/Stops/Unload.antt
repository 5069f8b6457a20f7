-- ===== src/Stops/Unload.antt =====
-- How far the thread counts, what it prints, and when the module is unloaded too late.
use linux_c_homeworks.Prelude.{
  ℕ, zero, suc, ◌+◌, ◌%◌, ◌≤◌, ◌<◌, ◌≡◌, refl, ap, ◌∙◌, true, false, List, [], ◌∷◌, ◌++◌, leb, ltb,
  ◌==◌, if◌then◌else◌, arith, Bool-cases, inl, inr,
}
use mathlib.Core.List.{append_assoc, append-nil}
use linux_c_homeworks.Chardev.{valid}
use linux_c_homeworks.Stops.{steps, Counted, thread_loop, thread_func, stop_kthread_cleanup}

-- The multiples of ten among n numbers from c on.
pub tens : ℕ → ℕ → List ℕ
tens zero c = []
tens (suc n) c = let rest = tens n (c + 1) in if c % 10 == 0 then c ∷ rest else rest

tens_append :
    (printed : List ℕ) (n c : ℕ)
    → (if c % 10 == 0 then printed ++ (c ∷ []) else printed) ++ tens n (c + 1)
      ≡ printed ++ tens (suc n) c
unfolding tens
tens_append printed n c = elim (Bool-cases (c % 10 == 0)) [
  | inl ten ↦ rw (ten, tens) (append_assoc printed (c ∷ []) (tens n (c + 1)))
  | inr other ↦ rw (other, tens) refl
]

tens_none : (printed : List ℕ) (c : ℕ) → printed ++ tens 0 c ≡ printed
unfolding tens
tens_none printed c = append-nil printed

-- What the loop leaves after n rounds from c on.
abbrev pub after : ℕ → ℕ → List ℕ → Counted
after n c printed = record { printed = printed ++ tens n c; counter = c + n }

after_round :
    (n c : ℕ) (printed : List ℕ)
    → after n (c + 1) (if c % 10 == 0 then printed ++ (c ∷ []) else printed)
      ≡ after (suc n) c printed
after_round n c printed =
    let e : c + 1 + n ≡ c + suc n = omega arith in rw (tens_append printed n c, e) refl

first_round :
    (c : ℕ) (printed : List ℕ)
    → ◌≡◌ {A = Counted}
        (record { printed = if c % 10 == 0 then printed ++ (c ∷ []) else printed; counter = c + 1 })
        (after 1 c printed)
first_round c printed =
    let e : c + 1 + 0 ≡ c + 1 = omega arith in
    rw e at (rw (tens_none _ (c + 1)) at (after_round 0 c printed))

all_rounds :
    (rounds reached c : ℕ) (printed : List ℕ)
    → c + rounds ≤ reached
    → thread_loop rounds (λ k. ltb reached k) c printed ≡ after rounds c printed
unfolding thread_loop
all_rounds zero reached c printed h =
    let e : c + 0 ≡ c = omega arith in rw (tens_none printed c, e) refl
all_rounds (suc rounds) reached c printed h =
    let goes_on : ltb reached (c + 1) ≡ false = ground arith in
    rw (goes_on, thread_loop)
      (all_rounds rounds reached (c + 1) _ (omega arith) ∙ after_round rounds c printed)

until_stop :
    (rounds n reached c : ℕ) (printed : List ℕ)
    → c + n ≡ reached
    → suc n ≤ rounds
    → thread_loop rounds (λ k. ltb reached k) c printed ≡ after (suc n) c printed
unfolding thread_loop
until_stop zero n reached c printed h small = absurd (omega arith)
until_stop (suc rounds) zero reached c printed h small =
    let stops : ltb reached (c + 1) ≡ true = ground arith in
    rw (stops, thread_loop) (first_round c printed)
until_stop (suc rounds) (suc n) reached c printed h small =
    let goes_on : ltb reached (c + 1) ≡ false = ground arith in
    rw (goes_on, thread_loop)
      (until_stop rounds n reached (c + 1) _ (omega arith) (omega arith)
        ∙ after_round (suc n) c printed)

-- The module is unloaded when the thread has counted to `reached`. Before the hundredth step the thread
-- makes one more, prints the multiples of ten that it has passed, and returns; later it has made its
-- hundred steps and has returned by itself, and the unloading stops a thread that is gone.
pub unload_lem :
    (reached : ℕ)
    → (reached < steps
        → ((stop_kthread_cleanup valid reached).counted ≡ after (reached + 1) 0 [])
          × ((stop_kthread_cleanup valid reached).is_misused ≡ false))
      × (steps ≤ reached
          → ((stop_kthread_cleanup valid reached).counted ≡ after steps 0 [])
            × ((stop_kthread_cleanup valid reached).is_misused ≡ true))
unfolding stop_kthread_cleanup thread_func
unload_lem reached = (
  λ early.
      let next : suc reached ≡ reached + 1 = omega arith in
      let counted = rw next at (until_stop 100 reached reached 0 [] (omega arith) (omega arith)) in
      (counted, ap (λ c. leb c.counter reached) counted ∙ ground arith),
  λ late.
      let counted = all_rounds 100 reached 0 [] (omega arith) in
      (counted, ap (λ c. leb c.counter reached) counted ∙ ground arith),
)
