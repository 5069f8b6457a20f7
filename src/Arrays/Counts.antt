-- ===== src/Arrays/Counts.antt =====
-- sort_array rearranges the array: every value occurs as often after it as before.
use linux_c_homeworks.Prelude.{
  ℕ, zero, suc, ◌+◌, ◌-◌, ◌≤◌, ◌<◌, ◌≡◌, ◌≢◌, refl, ◌∙◌, not, Bool-cases, inl, inr, List, [], ◌∷◌,
  arith, ◌==◌, if◌then◌else◌, length, set, get_or-set_ne, length-set,
}
use linux_c_homeworks.Prelude.Int.{ℤ, pos, eqb_ℤ}
use linux_c_homeworks.Arrays.{at, swap, min_scan, sort_step, sort_loop}
use linux_c_homeworks.Arrays.Bounds.{min_scan_range, length-sort_step}

abbrev pub occurs : ℤ → ℤ → ℕ
occurs v x = if eqb_ℤ x v then 1 else 0

pub count : ℤ → List ℤ → ℕ
count v [] = 0
count v (x ∷ xs) = occurs v x + count v xs

count-set :
    (v : ℤ) (xs : List ℤ) (i : ℕ) (a : ℤ)
    → i < length xs
    → count v (set xs i a) + occurs v (at xs i) ≡ count v xs + occurs v a
unfolding count
count-set v [] i a h = absurd (omega arith)
count-set v (x ∷ xs) zero a h = omega arith
count-set v (x ∷ xs) (suc i) a h = omega (arith, count-set v xs i a (omega arith))

count-swap :
    (v : ℤ) (xs : List ℤ) (i m : ℕ)
    → i < length xs
    → m < length xs
    → i ≢ m
    → count v (swap xs i m) ≡ count v xs
count-swap v xs i m hi hm apart = omega (arith, first, second')
  where
    first : count v (set xs i (at xs m)) + occurs v (at xs i) ≡ count v xs + occurs v (at xs m)
    first = count-set v xs i (at xs m) hi

    second :
        count v (swap xs i m) + occurs v (at (set xs i (at xs m)) m)
        ≡ count v (set xs i (at xs m)) + occurs v (at xs i)
    second = count-set v _ m (at xs i) (omega (arith, length-set xs i (at xs m)))

    second' :
        count v (swap xs i m) + occurs v (at xs m)
        ≡ count v (set xs i (at xs m)) + occurs v (at xs i)
    second' = rw (get_or-set_ne xs i m (at xs m) (pos 0) apart) at second

pub count-sort_step :
    (v : ℤ) (xs : List ℤ) (len i : ℕ)
    → len ≤ length xs
    → i < len
    → count v (sort_step xs len i) ≡ count v xs
unfolding sort_step
count-sort_step v xs len i h hi =
    elim (Bool-cases (not (min_scan xs (len - (i + 1)) (i + 1) i == i))) [
      | inl moved ↦
          rw moved
            (count-swap v xs i _ (omega arith) (omega (arith, range)) (λ e. ground (arith, e)))
      | inr stayed ↦ rw stayed
    ]
  where
    range :
        (i ≤ min_scan xs (len - (i + 1)) (i + 1) i)
        × (min_scan xs (len - (i + 1)) (i + 1) i < i + 1 + (len - (i + 1)))
    range = min_scan_range xs (len - (i + 1)) (i + 1) i (omega arith)

pub count-sort_loop :
    (v : ℤ) (rounds : ℕ) (xs : List ℤ) (len i : ℕ)
    → len ≤ length xs
    → i + rounds < len
    → count v (sort_loop rounds xs len i) ≡ count v xs
unfolding sort_loop
count-sort_loop v zero xs len i h hi = refl
count-sort_loop v (suc rounds) xs len i h hi =
    count-sort_loop v rounds (sort_step xs len i) len (i + 1)
      (omega (arith, length-sort_step xs len i)) (omega arith)
    ∙ count-sort_step v xs len i h (omega arith)
