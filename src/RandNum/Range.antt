-- ===== src/RandNum/Range.antt =====
-- Where the numbers of rand_num_get and rand_init lie.
use linux_c_homeworks.Prelude.{
  ℕ, ◌+◌, ◌-◌, ◌%◌, ◌^◌, ◌≤◌, ◌<◌, ◌≡◌, ◌↔◌, ◌⊎◌, inl, inr, refl, true, false, none, some, arith,
  ◌==◌, dec_lt,
}
use native.Mathlib.Nat.{mod-lt, mod-eq_of_lt}
use linux_c_homeworks.Prelude.Int.{ℤ, pos, negsuc, pos_part, neg_part, ◌≤ℤ◌, ◌<ℤ◌, leb_ℤ}
use linux_c_homeworks.Prelude.Words.{IsInt, u32, i32}
use linux_c_homeworks.RandNum.{
  returns, divide_error, range, minus_einval, rand_num_get, sleep_for_rand_seconds, rand_init,
}

-- The whole range of `int`.
abbrev pub IsFull : ℤ → ℤ → Type 0
IsFull low upper = (neg_part low ≡ 2 ^ 31) × (pos_part upper ≡ 2 ^ 31 - 1)

-- The distance of two limits in order is their range less 1, unless the range wraps to 0.
pub range_lem :
    (low upper : ℤ)
    → IsInt low
    → IsInt upper
    → low <ℤ upper
    → (range low upper ≡ 0) × IsFull low upper
      ⊎ (range low upper + pos_part low + neg_part upper ≡ pos_part upper + neg_part low + 1)
range_lem (pos l) (pos u) hl hu h = inr (omega arith)
range_lem (pos l) (negsuc u) hl hu h = absurd (omega arith)
range_lem (negsuc l) (pos u) hl hu h = elim (dec_lt (u + l + 2) (2 ^ 32)) [
  | yes fits ↦ inr (omega arith)
  | no full ↦ inl (omega arith)
]
range_lem (negsuc l) (negsuc u) hl hu h = inr (omega arith)

in_range :
    (low upper : ℤ) (d : ℕ)
    → IsInt low
    → IsInt upper
    → d + pos_part low + neg_part upper ≤ pos_part upper + neg_part low
    → (low ≤ℤ i32 ((u32 low + d) % 2 ^ 32)) × (i32 ((u32 low + d) % 2 ^ 32) ≤ℤ upper)
in_range (pos l) (pos u) d hl hu h = ground arith
in_range (pos l) (negsuc u) d hl hu h = ground arith
in_range (negsuc l) (pos u) d hl hu h = ground arith
in_range (negsuc l) (negsuc u) d hl hu h = ground arith

one_sign : (z : ℤ) → (pos_part z ≡ 0) ⊎ (neg_part z ≡ 0)
one_sign (pos n) = inr refl
one_sign (negsuc n) = inl refl

pub in_order : (low upper : ℤ) → low <ℤ upper → leb_ℤ upper low ≡ false
in_order low upper h = ground arith

pub ne_zero : (n : ℕ) → 0 < n → (n == 0) ≡ false
ne_zero n h = ground arith

module _ (random_value : ℕ) (low upper : ℤ) (hl : IsInt low) (hu : IsInt upper) where
  -- The distance drawn, and that it stays within the limits.
  draw_fits :
      range low upper + pos_part low + neg_part upper ≡ pos_part upper + neg_part low + 1
      → low <ℤ upper
      → random_value % range low upper + pos_part low + neg_part upper
        ≤ pos_part upper + neg_part low
  draw_fits e h = omega (arith, e, mod-lt random_value {m = range low upper} (omega arith))

  -- For limits in order that are not the whole range of `int`, rand_num_get returns 0 and writes a
  -- number that, read as an `int`, is between the limits, both included.
  pub rand_num_get_bounds :
      low <ℤ upper
      → ¬ IsFull low upper
      → (v : ℕ) × (rand_num_get false random_value low upper ≡ returns (pos 0) (some v))
        × (low ≤ℤ i32 v)
        × (i32 v ≤ℤ upper)
  unfolding rand_num_get
  rand_num_get_bounds h not_full = elim (range_lem low upper hl hu h) [
    | inl full ↦ absurd (not_full full.1)
    | inr e ↦ (
      (u32 low + random_value % range low upper) % 2 ^ 32,
      rw (in_order low upper h, ne_zero (range low upper) (omega (arith, e))),
      (in_range low upper (random_value % range low upper) hl hu (draw_fits e h)).0,
      (in_range low upper (random_value % range low upper) hl hu (draw_fits e h)).1,
    )
  ]

  -- For limits in order rand_num_get divides by 0 exactly when they are the least and the
  -- greatest `int`.
  pub rand_num_get-divide_error :
      low <ℤ upper → (rand_num_get false random_value low upper ≡ divide_error) ↔ IsFull low upper
  unfolding rand_num_get
  rand_num_get-divide_error h = elim (range_lem low upper hl hu h) [
    | inl full ↦ (λ _. full.1, λ _. rw (in_order low upper h, full.0))
    | inr e ↦ (
      λ fault.
          absurd
            (cc (rw (in_order low upper h, ne_zero (range low upper) (omega (arith, e))) at fault)),
      λ full. absurd (omega (arith, e, full.0, full.1, one_sign low, one_sign upper)),
    )
  ]

pub rand_num_get_rejected :
    (r : ℕ) (low high : ℤ) → high ≤ℤ low → rand_num_get false r low high ≡ returns minus_einval none
unfolding rand_num_get
rand_num_get_rejected r low high h = let e : leb_ℤ high low ≡ true = ground arith in rw e

-- What sleep_for_rand_seconds waits: one to four seconds, in milliseconds.
pub sleep_for_rand_seconds_bounds :
    (random_value : ℕ)
    → (1000 ≤ sleep_for_rand_seconds random_value) × (sleep_for_rand_seconds random_value ≤ 4000)
unfolding sleep_for_rand_seconds rand_num_get
sleep_for_rand_seconds_bounds random_value = omega arith

rand_init_eq :
    (random_value m_low m_high : ℕ)
    → IsInt (pos m_low)
    → IsInt (pos m_high)
    → 0 < m_high
    → rand_init random_value (pos m_low) (pos m_high) ≡ some (m_low + random_value % m_high)
unfolding rand_init
rand_init_eq random_value m_low m_high hl hh h = rw (
  mod-eq_of_lt {n = m_high} {m = 2 ^ 32} (omega arith),
  ne_zero m_high h,
  mod-eq_of_lt {n = m_low} {m = 2 ^ 32} (omega arith),
  mod-eq_of_lt {n = m_low + random_value % m_high} {m = 2 ^ 32}
      (omega (arith, mod-lt random_value h)),
)

-- rand_init of homework2/task2 with limits that are not negative, the high one not 0: the number
-- that it prints is at least m_low and below m_low + m_high.
pub rand_init_bounds :
    (random_value m_low m_high : ℕ)
    → IsInt (pos m_low)
    → IsInt (pos m_high)
    → 0 < m_high
    → (v : ℕ) × (rand_init random_value (pos m_low) (pos m_high) ≡ some v)
      × (m_low ≤ v)
      × (v < m_low + m_high)
rand_init_bounds random_value m_low m_high hl hh h = (
  m_low + random_value % m_high,
  rand_init_eq random_value m_low m_high hl hh h,
  omega arith,
  omega (arith, mod-lt random_value h),
)

-- So the message "from m_low to m_high" is wrong for any m_low above 1: a number above m_high
-- is drawn.
pub rand_init_above :
    (m_low m_high : ℕ)
    → IsInt (pos m_low)
    → IsInt (pos m_high)
    → 1 < m_low
    → 0 < m_high
    → (random_value : ℕ) × (v : ℕ) × (random_value < 2 ^ 32)
      × (rand_init random_value (pos m_low) (pos m_high) ≡ some v)
      × (m_high < v)
rand_init_above m_low m_high hl hh low high = (
  m_high - 1,
  m_low + (m_high - 1) % m_high,
  omega arith,
  rand_init_eq (m_high - 1) m_low m_high hl hh high,
  omega (arith, mod-eq_of_lt {n = m_high - 1} {m = m_high} (omega arith)),
)
