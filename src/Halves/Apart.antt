-- ===== src/Halves/Apart.antt =====
-- The sum of the two threads where they do not come between each other's read and store.
use linux_c_homeworks.Prelude.{
  ℕ, zero, suc, ◌+◌, ◌*◌, ◌%◌, ◌^◌, ◌≤◌, ◌<◌, ◌≡◌, refl, ap, true, false, none, some, ltb, ◌==◌,
  arith, Bool-cases, Option-cases, inl, inr,
}
use mathlib.Core.Path.{subst}
use linux_c_homeworks.Halves.{
  array_half_size, System, put, element, sum_of_array, started, is_loaded, IsAlone, Reach, start,
  runs,
}

-- The sum of n elements from one on.
pub sum_from : (ℕ → ℕ) → ℕ → ℕ → ℕ
sum_from array base zero = 0
sum_from array base (suc n) = sum_from array base n + array (base + n)

pub record IsSum (array : ℕ → ℕ) (s : System) : Type 0 where
  pub sum :
      s.array_sum ≡ (sum_from array 0 (s.threads 0).i + sum_from array 4 (s.threads 1).i) % 2 ^ 32
  pub bounded : (n : ℕ) → (s.threads n).i ≤ array_half_size
  pub others : (n : ℕ) → ltb n 2 ≡ false → (s.threads n).i ≡ array_half_size
  pub current : (n v : ℕ) → (s.threads n).loaded ≡ some v → v ≡ s.array_sum
  pub one :
      (m n : ℕ)
      → (m == n) ≡ false
      → is_loaded (s.threads n) ≡ true
      → is_loaded (s.threads m) ≡ false

started-IsSum : (array : ℕ → ℕ) → IsSum array started
unfolding sum_from
started-IsSum array = record {
  sum = refl;
  bounded = λ n. ground arith;
  others = λ n h. ground arith;
  current = λ n v h. absurd (cc h);
  one = λ m n h l. absurd (cc l);
}

loads :
    (array : ℕ → ℕ) (s : System) (n : ℕ)
    → IsSum array s
    → IsAlone n s
    → (s.threads n).loaded ≡ none
    → IsSum array (record s {
      threads = put s.threads n (record (s.threads n) { loaded = some s.array_sum });
    })
loads array s n f alone e = record {
  sum = ground (arith, f.sum);
  bounded = λ m. ground (arith, f.bounded m, f.bounded n);
  others = λ m h. ground (arith, f.others m h);
  current = λ m v h. ground (arith, f.current m v, h);
  one = λ m k h l. ground (arith, f.one m k h, alone m, alone k, l);
}

next_sum :
    (array : ℕ → ℕ) (base n : ℕ)
    → sum_from array base (n + 1) ≡ sum_from array base n + array (base + n)
unfolding sum_from
next_sum array base n = let e : n + 1 ≡ suc n = omega arith in rw e refl

stores_sum :
    (array : ℕ → ℕ) (s : System) (n v : ℕ)
    → IsSum array s
    → v ≡ s.array_sum
    → (s.threads n).i < array_half_size
    → (v + element array n (s.threads n).i) % 2 ^ 32
      ≡ (sum_from array 0 (put s.threads n (record { i = (s.threads n).i + 1; loaded = none }) 0).i
          + sum_from array 4
              (put s.threads n (record { i = (s.threads n).i + 1; loaded = none }) 1).i)
        % 2 ^ 32
stores_sum array s zero v f e more =
    let place : 0 * 4 + (s.threads 0).i ≡ 0 + (s.threads 0).i = omega arith in
    omega (arith, f.sum, next_sum array 0 (s.threads 0).i, ap array place)
stores_sum array s (suc zero) v f e more =
    let place : 1 * 4 + (s.threads 1).i ≡ 4 + (s.threads 1).i = omega arith in
    omega (arith, f.sum, next_sum array 4 (s.threads 1).i, ap array place)
stores_sum array s (suc (suc n)) v f e more = absurd (ground (arith, f.others (suc (suc n))))

stores :
    (array : ℕ → ℕ) (s : System) (n v : ℕ)
    → IsSum array s
    → (s.threads n).loaded ≡ some v
    → (s.threads n).i < array_half_size
    → IsSum array (record {
      array_sum = (v + element array n (s.threads n).i) % 2 ^ 32;
      threads = put s.threads n (record { i = (s.threads n).i + 1; loaded = none });
    })
stores array s n v f e more = record {
  sum = stores_sum array s n v f (f.current n v e) more;
  bounded = λ m. ground (arith, f.bounded m);
  others = λ m h. ground (arith, f.others m h);
  current = λ m w h. ground (arith, f.one m n, e, h);
  one = λ m k h l. ground (arith, f.one m k h, f.one k n, e, l);
}

becomes : (array : ℕ → ℕ) (t u : System) → IsSum array t → some t ≡ some u → IsSum array u
becomes array t u f e = let e' : t ≡ u = cc e in subst (IsSum array) e' f

sum_of_array-IsSum :
    (array : ℕ → ℕ) (s t : System) (n : ℕ)
    → IsSum array s
    → IsAlone n s
    → sum_of_array array n s ≡ some t
    → IsSum array t
unfolding sum_of_array
sum_of_array-IsSum array s t n f alone run =
    elim (Bool-cases (ltb (s.threads n).i array_half_size)) [
      | inl more ↦ elim (Option-cases (s.threads n).loaded) [
        | inl e ↦
            becomes array
              (record s {
                threads = put s.threads n (record (s.threads n) { loaded = some s.array_sum });
              })
              t (loads array s n f alone e) (rw (more, e, sum_of_array) at run)
        | inr (v, e) ↦
            becomes array
              (record {
                array_sum = (v + element array n (s.threads n).i) % 2 ^ 32;
                threads = put s.threads n (record { i = (s.threads n).i + 1; loaded = none });
              })
              t (stores array s n v f e (ground arith)) (rw (more, e, sum_of_array) at run)
      ]
      | inr over ↦ absurd (cc (rw (over, sum_of_array) at run))
    ]

Reach-IsSum : {array : ℕ → ℕ} {s : System} → Reach array true s → IsSum array s
Reach-IsSum {array} start = started-IsSum array
Reach-IsSum {array} (runs {s} n t r apart run) =
    sum_of_array-IsSum array s t n (Reach-IsSum r) (apart refl) run

sum_split : (array : ℕ → ℕ) → sum_from array 0 8 ≡ sum_from array 0 4 + sum_from array 4 4
unfolding sum_from
sum_split array = omega arith

-- If no thread reads the sum while the other one stands between its read and its store, then at the end
-- of both loops the sum is that of the eight elements, as an unsigned number of 32 bits.
pub halves_lem :
    {array : ℕ → ℕ} {s : System}
    → Reach array true s
    → (s.threads 0).i ≡ array_half_size
    → (s.threads 1).i ≡ array_half_size
    → s.array_sum ≡ sum_from array 0 8 % 2 ^ 32
halves_lem {array} r first second =
    let f = Reach-IsSum r in rw (sum_split array) (rw (first, second) at f.sum)
