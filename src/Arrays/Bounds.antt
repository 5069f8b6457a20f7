-- ===== src/Arrays/Bounds.antt =====
-- The index arithmetic of sort_array: every index is in range, and the minimum is the minimum.
use linux_c_homeworks.Prelude.{
  ℕ, zero, suc, ◌+◌, ◌-◌, ◌≤◌, ◌<◌, ◌≡◌, refl, ◌∙◌, Bool-cases, inl, inr, List, arith, length,
  length-set, ◌==◌, not, true, false, dec_lt,
}
use linux_c_homeworks.Prelude.Int.{ℤ, ◌≤ℤ◌, ltb_ℤ}
use linux_c_homeworks.Arrays.{at, min_scan, sort_step, sort_loop}

-- The scan from j over `rounds` elements returns its start or an index that it has looked at.
pub min_scan_range :
    (xs : List ℤ) (rounds j m : ℕ)
    → m < j
    → (m ≤ min_scan xs rounds j m) × (min_scan xs rounds j m < j + rounds)
unfolding min_scan
min_scan_range xs zero j m h = omega arith
min_scan_range xs (suc rounds) j m h = elim (Bool-cases (ltb_ℤ (at xs j) (at xs m))) [
  | inl less ↦ rw less (omega (arith, min_scan_range xs rounds (j + 1) j (omega arith)))
  | inr not_less ↦ rw not_less (omega (arith, min_scan_range xs rounds (j + 1) m (omega arith)))
]

-- The element at r is no larger than the one at m and the `rounds` elements from j on.
abbrev pub Least : List ℤ → ℕ → ℕ → ℕ → ℕ → Type 0
Least xs rounds j m r =
    (at xs r ≤ℤ at xs m) × ((k : ℕ) → j ≤ k → k < j + rounds → at xs r ≤ℤ at xs k)

module _ (xs : List ℤ) (rounds j m r : ℕ) where
  Least-of_less :
      ltb_ℤ (at xs j) (at xs m) ≡ true → Least xs rounds (j + 1) j r → Least xs (suc rounds) j m r
  Least-of_less less (h, later) = (
    ground arith,
    λ k p q. elim (dec_lt j k) [
      | yes below ↦ later k (omega arith) (omega arith)
      | no here ↦ let e : k ≡ j = omega arith in rw e h
    ],
  )

  Least-of_not_less :
      ltb_ℤ (at xs j) (at xs m) ≡ false → Least xs rounds (j + 1) m r → Least xs (suc rounds) j m r
  Least-of_not_less not_less (h, later) = (
    h,
    λ k p q. elim (dec_lt j k) [
      | yes below ↦ later k (omega arith) (omega arith)
      | no here ↦ let e : k ≡ j = omega arith in rw e (ground arith)
    ],
  )

-- The scan returns the least of its start and the elements that it has looked at.
pub min_scan-Least : (xs : List ℤ) (rounds j m : ℕ) → Least xs rounds j m (min_scan xs rounds j m)
unfolding min_scan
min_scan-Least xs zero j m = (omega arith, λ k p q. absurd (omega arith))
min_scan-Least xs (suc rounds) j m = elim (Bool-cases (ltb_ℤ (at xs j) (at xs m))) [
  | inl less ↦ rw less (Least-of_less xs rounds j m _ less (min_scan-Least xs rounds (j + 1) j))
  | inr not_less ↦
      rw not_less (Least-of_not_less xs rounds j m _ not_less (min_scan-Least xs rounds (j + 1) m))
]

pub length-sort_step : (xs : List ℤ) (len i : ℕ) → length (sort_step xs len i) ≡ length xs
unfolding sort_step
length-sort_step xs len i = elim (Bool-cases (not (min_scan xs (len - (i + 1)) (i + 1) i == i))) [
  | inl moved ↦ rw moved (length-set _ _ _ ∙ length-set xs i _)
  | inr stayed ↦ rw stayed
]

pub length-sort_loop :
    (rounds : ℕ) (xs : List ℤ) (len i : ℕ) → length (sort_loop rounds xs len i) ≡ length xs
unfolding sort_loop
length-sort_loop zero xs len i = refl
length-sort_loop (suc rounds) xs len i =
    length-sort_loop rounds (sort_step xs len i) len (i + 1) ∙ length-sort_step xs len i
