-- ===== src/RandNum/Reach.antt =====
-- Every number between the limits can be drawn.
use linux_c_homeworks.Prelude.{ℕ, ◌+◌, ◌-◌, ◌%◌, ◌^◌, ◌<◌, ◌≡◌, false, some, inl, inr, arith}
use native.Mathlib.Nat.{mod-eq_of_lt}
use linux_c_homeworks.Prelude.Int.{ℤ, pos, negsuc, pos_part, neg_part, ◌≤ℤ◌, ◌<ℤ◌}
use linux_c_homeworks.Prelude.Words.{IsInt, u32}
use linux_c_homeworks.RandNum.{returns, range, rand_num_get}
use linux_c_homeworks.RandNum.Range.{IsFull, range_lem, in_order, ne_zero}

-- How far z lies above low.
abbrev distance : ℤ → ℤ → ℕ
distance low z = pos_part z + neg_part low - (pos_part low + neg_part z)

u32-distance :
    (low z : ℤ) → IsInt low → IsInt z → low ≤ℤ z → (u32 low + distance low z) % 2 ^ 32 ≡ u32 z
u32-distance (pos l) (pos n) hl hz h = omega arith
u32-distance (pos l) (negsuc n) hl hz h = absurd (omega arith)
u32-distance (negsuc l) (pos n) hl hz h = omega arith
u32-distance (negsuc l) (negsuc n) hl hz h = omega arith

-- For limits in order that are not the whole range of `int`, every `int` between them is what
-- rand_num_get writes for some 32-bit random number.
pub rand_num_get_reaches :
    (low upper z : ℤ)
    → IsInt low
    → IsInt upper
    → IsInt z
    → low <ℤ upper
    → ¬ IsFull low upper
    → low ≤ℤ z
    → z ≤ℤ upper
    → (random_value : ℕ) × (random_value < 2 ^ 32)
      × (rand_num_get false random_value low upper ≡ returns (pos 0) (some (u32 z)))
unfolding rand_num_get
rand_num_get_reaches low upper z hl hu hz h not_full above below =
    elim (range_lem low upper hl hu h) [
      | inl full ↦ absurd (not_full full.1)
      | inr e ↦ (
        distance low z,
        omega (arith, e),
        rw (
          in_order low upper h,
          ne_zero (range low upper) (omega (arith, e)),
          mod-eq_of_lt {n = distance low z} {m = range low upper} (omega (arith, e)),
          u32-distance low z hl hz above,
        ),
      )
    ]
