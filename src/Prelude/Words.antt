-- ===== src/Prelude/Words.antt =====
-- The machine integers of the target (LP64): `int` is a signed 32-bit number, `size_t` an unsigned
-- 64-bit one. A value is kept as the number it stands for; a conversion wraps as the compiler's does.
use linux_c_homeworks.Prelude.{ℕ, ◌-◌, ◌%◌, ◌^◌, ◌≤◌, ◌<◌, ◌≡◌, arith, ltb, if◌then◌else◌}
use linux_c_homeworks.Prelude.Int.{ℤ, pos, negsuc, pos_part, neg_part}

-- The value of an `int` lies in this range.
abbrev pub IsInt : ℤ → Type 0
IsInt z = (pos_part z < 2 ^ 31) × (neg_part z ≤ 2 ^ 31)

-- (uint32_t) z
abbrev pub u32 : ℤ → ℕ
u32 (pos n) = n % 2 ^ 32
u32 (negsuc n) = 2 ^ 32 - 1 - n % 2 ^ 32

-- (size_t) z
abbrev pub u64 : ℤ → ℕ
u64 (pos n) = n % 2 ^ 64
u64 (negsuc n) = 2 ^ 64 - 1 - n % 2 ^ 64

-- the `int` with the bit pattern w
abbrev pub i32 : ℕ → ℤ
i32 w = if ltb (w % 2 ^ 32) (2 ^ 31) then pos (w % 2 ^ 32) else negsuc (2 ^ 32 - 1 - w % 2 ^ 32)

-- the `ssize_t` with the bit pattern w
abbrev pub i64 : ℕ → ℤ
i64 w = if ltb (w % 2 ^ 64) (2 ^ 63) then pos (w % 2 ^ 64) else negsuc (2 ^ 64 - 1 - w % 2 ^ 64)

pub i32-u32 : (z : ℤ) → IsInt z → i32 (u32 z) ≡ z
i32-u32 (pos n) h = ground arith
i32-u32 (negsuc n) h = ground arith
