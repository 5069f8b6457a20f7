-- ===== src/Halves/Tests.antt =====
-- The array of main: one thread after the other, and a schedule that loses what one of them adds.
use linux_c_homeworks.Prelude.{
  ℕ, zero, suc, ◌+◌, ◌%◌, ◌^◌, ◌≡◌, refl, true, none, some, ltb, arith, Bool-cases, Option-cases,
  inl, inr,
}
use linux_c_homeworks.Halves.{
  array_half_size, System, sum_of_array, started, IsAlone, Reach, start, runs,
}
use linux_c_homeworks.Halves.Apart.{sum_from, halves_lem}

runs_for : (ℕ → ℕ) → ℕ → ℕ → System → System
runs_for array n zero s = s
runs_for array n (suc k) s = elim (sum_of_array array n s) [
  | none ↦ s
  | some t ↦ runs_for array n k t
]

stays-IsAlone :
    (array : ℕ → ℕ) (n : ℕ) (s t : System)
    → IsAlone n s
    → sum_of_array array n s ≡ some t
    → IsAlone n t
unfolding sum_of_array
stays-IsAlone array n s t alone run m other =
    elim (Bool-cases (ltb (s.threads n).i array_half_size)) [
      | inl more ↦ elim (Option-cases (s.threads n).loaded) [
        | inl e ↦ ground (arith, alone m other, rw (more, e, sum_of_array) at run)
        | inr (v, e) ↦ ground (arith, alone m other, rw (more, e, sum_of_array) at run)
      ]
      | inr over ↦ absurd (cc (rw (over, sum_of_array) at run))
    ]

runs_for-Reach :
    (array : ℕ → ℕ) (n k : ℕ) (s : System)
    → IsAlone n s
    → Reach array true s
    → Reach array true (runs_for array n k s)
unfolding runs_for
runs_for-Reach array n zero s alone r = r
runs_for-Reach array n (suc k) s alone r = elim (Option-cases (sum_of_array array n s)) [
  | inl stuck ↦ rw (stuck, runs_for) r
  | inr (t, run) ↦
      rw (run, runs_for)
        (runs_for-Reach array n k t (stays-IsAlone array n s t alone run)
          (runs n t r (λ e. alone) run))
]

abbrev numbers : ℕ → ℕ
numbers i = i + 1

abbrev half : System
half = runs_for numbers 0 8 started

abbrev whole : System
whole = runs_for numbers 1 8 half

half-IsAlone : IsAlone 1 half
unfolding runs_for sum_of_array
half-IsAlone zero e = refl
half-IsAlone (suc zero) e = absurd (cc e)
half-IsAlone (suc (suc m)) e = ground arith

whole-Reach : Reach numbers true whole
whole-Reach =
    runs_for-Reach numbers 1 8 half half-IsAlone
      (runs_for-Reach numbers 0 8 started (λ m e. refl) start)

sum_36 : whole.array_sum ≡ 36
unfolding runs_for sum_of_array
sum_36 = refl

-- Thread 0 reads 0; thread 1 adds 5, 6, 7 and 8; thread 0 stores 1.
lost : (runs_for numbers 0 1 (runs_for numbers 1 8 (runs_for numbers 0 1 started))).array_sum ≡ 1
unfolding runs_for sum_of_array
lost = refl

both_done : ((whole.threads 0).i ≡ 4) × ((whole.threads 1).i ≡ 4)
unfolding runs_for sum_of_array
both_done = (refl, refl)

halves_lem_example : whole.array_sum ≡ sum_from numbers 0 8 % 2 ^ 32
halves_lem_example = let (first, second) = both_done in halves_lem whole-Reach first second
