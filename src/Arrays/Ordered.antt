-- ===== src/Arrays/Ordered.antt =====
-- sort_array leaves its first `len` elements in ascending order, and the memory after them alone.
use linux_c_homeworks.Prelude.{
  ℕ, zero, suc, ◌+◌, ◌-◌, ◌≤◌, ◌<◌, ◌≡◌, refl, ap, ◌∙◌, not, Bool-cases, inl, inr, List, arith,
  ◌==◌, length, set, get_or-set_ne, get_or-set_self, length-set, dec_lt, ℕ_discrete, some,
}
use linux_c_homeworks.Prelude.Int.{ℤ, pos, ◌≤ℤ◌}
use linux_c_homeworks.Arrays.{at, swap, min_scan, sort_step, sort_loop, sort_array}
use linux_c_homeworks.Arrays.Bounds.{
  Least, min_scan_range, min_scan-Least, length-sort_step, length-sort_loop,
}
use linux_c_homeworks.Arrays.Counts.{count, count-sort_loop}

-- The elements before i are in their final places.
abbrev pub Front : List ℤ → ℕ → ℕ → Type 0
Front xs len i = (a b : ℕ) → a < i → a ≤ b → b < len → at xs a ≤ℤ at xs b

-- Where the element at k of the new array stood in the old one.
record Moved (xs ys : List ℤ) (len i k : ℕ) : Type 0 where
  from : ℕ
  same : at ys k ≡ at xs from
  before : k < i → from ≡ k
  after : i ≤ k → i ≤ from
  inside : k < len → from < len
  outside : len ≤ k → from ≡ k

Moved-from :
    {xs ys : List ℤ} {len i k : ℕ} (place : Moved xs ys len i k) (a : ℕ)
    → a < i
    → a ≤ k
    → a ≤ place.from
Moved-from {i} {k} place a p q = elim (dec_lt k i) [
  | yes old ↦ omega (arith, place.before old)
  | no new ↦ omega (arith, place.after (omega arith))
]

module _ (xs : List ℤ) (len i m : ℕ) (h : len ≤ length xs) (hi : i ≤ m) (hm : m < len) where
  at-swap_low : at (swap xs i m) i ≡ at xs m
  at-swap_low = elim (ℕ_discrete m i) [
    | yes e ↦ rw e (
        get_or-set_self (set xs i (at xs i)) i (at xs i) (pos 0)
          (omega (arith, length-set xs i (at xs i))))
    | no apart ↦
        get_or-set_ne (set xs i (at xs m)) m i (at xs i) (pos 0) apart
        ∙ get_or-set_self xs i (at xs m) (pos 0) (omega arith)
  ]

  swap-Moved : (k : ℕ) → Moved xs (swap xs i m) len i k
  swap-Moved k = elim (ℕ_discrete m k) [
    | yes e ↦ record {
      from = i;
      same = rw (← e) (
          get_or-set_self (set xs i (at xs m)) m (at xs i) (pos 0)
            (omega (arith, length-set xs i (at xs m))));
      before = λ p. absurd (omega arith);
      after = λ p. omega arith;
      inside = λ p. omega arith;
      outside = λ p. absurd (omega arith);
    }
    | no not_m ↦ elim (ℕ_discrete i k) [
      | yes e ↦ record {
        from = m;
        same = rw (← e) at-swap_low;
        before = λ p. absurd (omega arith);
        after = λ p. omega arith;
        inside = λ p. omega arith;
        outside = λ p. absurd (omega arith);
      }
      | no not_i ↦ record {
        from = k;
        same =
            get_or-set_ne (set xs i (at xs m)) m k (at xs i) (pos 0) not_m
            ∙ get_or-set_ne xs i k (at xs m) (pos 0) not_i;
        before = λ p. refl;
        after = λ p. p;
        inside = λ p. p;
        outside = λ p. refl;
      }
    ]
  ]

stay-Moved : (xs : List ℤ) (len i k : ℕ) → Moved xs xs len i k
stay-Moved xs len i k = record {
  from = k;
  same = refl;
  before = λ p. refl;
  after = λ p. p;
  inside = λ p. p;
  outside = λ p. refl;
}

module _ (xs : List ℤ) (len i : ℕ) (h : len ≤ length xs) (hi : i < len) where
  abbrev chosen : ℕ
  chosen = min_scan xs (len - (i + 1)) (i + 1) i

  chosen_range : (i ≤ chosen) × (chosen < len)
  chosen_range = omega (arith, min_scan_range xs (len - (i + 1)) (i + 1) i (omega arith))

  sort_step-Moved : (k : ℕ) → Moved xs (sort_step xs len i) len i k
  unfolding sort_step
  sort_step-Moved k = elim (Bool-cases (not (chosen == i))) [
    | inl moved ↦ rw moved (swap-Moved xs len i chosen h chosen_range.0 chosen_range.1 k)
    | inr stayed ↦ rw stayed (stay-Moved xs len i k)
  ]

  at-sort_step : at (sort_step xs len i) i ≡ at xs chosen
  unfolding sort_step
  at-sort_step = elim (Bool-cases (not (chosen == i))) [
    | inl moved ↦ rw moved (at-swap_low xs len i chosen h chosen_range.0 chosen_range.1)
    | inr stayed ↦ rw stayed (ap (at xs) (ground arith))
  ]

  chosen_least : (k : ℕ) → i ≤ k → k < len → at xs chosen ≤ℤ at xs k
  chosen_least k p q = elim (ℕ_discrete i k) [
    | yes e ↦ rw (← e) least.0
    | no apart ↦ least.1 k (omega arith) (omega arith)
  ]
    where
      least : Least xs (len - (i + 1)) (i + 1) i chosen
      least = min_scan-Least xs (len - (i + 1)) (i + 1) i

  sort_step-Front : Front xs len i → Front (sort_step xs len i) len (i + 1)
  sort_step-Front front a b p q r = elim (dec_lt a i) [
    | yes old ↦
        rw (old_place.same, old_place.before old, new_place.same)
          (front a new_place.from old (Moved-from new_place a old q) (new_place.inside r))
    | no last ↦
        let e : a ≡ i = omega arith in
        rw (e, at-sort_step, new_place.same)
          (chosen_least new_place.from (new_place.after (omega arith)) (new_place.inside r))
  ]
    where
      old_place : Moved xs (sort_step xs len i) len i a
      old_place = sort_step-Moved a

      new_place : Moved xs (sort_step xs len i) len i b
      new_place = sort_step-Moved b

sort_loop-Front :
    (rounds : ℕ) (xs : List ℤ) (len i : ℕ)
    → len ≤ length xs
    → i + rounds < len
    → Front xs len i
    → Front (sort_loop rounds xs len i) len (i + rounds)
unfolding sort_loop
sort_loop-Front zero xs len i h p front a b q r s = front a b (omega arith) r s
sort_loop-Front (suc rounds) xs len i h p front a b q r s =
    sort_loop-Front rounds (sort_step xs len i) len (i + 1)
      (omega (arith, length-sort_step xs len i)) (omega arith)
      (sort_step-Front xs len i h (omega arith) front) a b (omega arith) r s

sort_loop_rest :
    (rounds : ℕ) (xs : List ℤ) (len i : ℕ)
    → len ≤ length xs
    → i + rounds < len
    → (k : ℕ) → len ≤ k
    → at (sort_loop rounds xs len i) k ≡ at xs k
unfolding sort_loop
sort_loop_rest zero xs len i h p k q = refl
sort_loop_rest (suc rounds) xs len i h p k q =
    sort_loop_rest rounds (sort_step xs len i) len (i + 1)
      (omega (arith, length-sort_step xs len i)) (omega arith) k q
    ∙ place.same
    ∙ ap (at xs) (place.outside q)
  where
    place : Moved xs (sort_step xs len i) len i k
    place = sort_step-Moved xs len i h (omega arith) k

-- Every element of the first `len` is no larger than those after it.
abbrev pub IsAscending : List ℤ → ℕ → Type 0
IsAscending ys len = (a b : ℕ) → a ≤ b → b < len → at ys a ≤ℤ at ys b

-- What a sort of the first `len` elements of xs makes of the memory.
pub record Sorts (xs ys : List ℤ) (len : ℕ) : Type 0 where
  pub ascending : IsAscending ys len
  pub same_values : (v : ℤ) → count v ys ≡ count v xs
  pub same_length : length ys ≡ length xs
  pub rest : (k : ℕ) → len ≤ k → at ys k ≡ at xs k

pub sort_loop-Sorts :
    (xs : List ℤ) (len : ℕ)
    → 0 < len
    → len ≤ length xs
    → Sorts xs (sort_loop (len - 1) xs len 0) len
sort_loop-Sorts xs len h l = record {
  ascending = λ a b p q. elim (dec_lt a b) [
    | yes apart ↦
        sort_loop-Front (len - 1) xs len 0 l (omega arith) (λ _ _ r. absurd (omega arith)) a b
          (omega arith) p q
    | no here ↦ let e : a ≡ b = omega arith in rw e (omega arith)
  ];
  same_values = λ v. count-sort_loop v (len - 1) xs len 0 l (omega arith);
  same_length = length-sort_loop (len - 1) xs len 0;
  rest = sort_loop_rest (len - 1) xs len 0 l (omega arith);
}

-- An array of at least `len` elements, `len` not 0: sort_array returns 0, and the memory after it
-- is ascending in its first `len` elements, holds every value as often as before, and is unchanged
-- after the first `len` elements.
pub sort_array-Sorts :
    (xs : List ℤ) (len : ℕ)
    → 0 < len
    → len ≤ length xs
    → (ys : List ℤ) × ((sort_array (some xs) len).array ≡ some ys)
      × ((sort_array (some xs) len).ret ≡ pos 0)
      × Sorts xs ys len
unfolding sort_array
sort_array-Sorts xs len h l =
    (sort_loop (len - 1) xs len 0, ground arith, ground arith, sort_loop-Sorts xs len h l)
