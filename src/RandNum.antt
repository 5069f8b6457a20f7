-- ===== src/RandNum.antt =====
-- Random numbers in a range: rand_num_get of linux_kernel_development/homework3 (rand_num.c, twice the
-- same) and of homework9/module_device/module_device_main.c, with its user there, and rand_init of
-- homework2/task2. What get_random_bytes draws is an argument, a number below 2 ^ 32.
pub mod Range
pub mod Reach
mod Tests
use linux_c_homeworks.Prelude.{
  ℕ, ◌+◌, ◌-◌, ◌*◌, ◌%◌, ◌^◌, Bool, true, false, Option, none, some, ◌==◌, if◌then◌else◌,
}
use linux_c_homeworks.Prelude.Int.{ℤ, pos, negsuc, leb_ℤ}
use linux_c_homeworks.Prelude.Words.{u32}

abbrev pub minus_einval : ℤ
minus_einval = negsuc 21

-- A call returns a code, having written to its output or not, or divides by 0.
pub data RandCall : Type 0 where
  returns : ℤ → Option ℕ → RandCall
  divide_error : RandCall

-- uint32_t range = upper_limit - low_limit + 1, where the compiler wraps.
abbrev pub range : ℤ → ℤ → ℕ
range low_limit upper_limit = (u32 upper_limit + 2 ^ 32 - u32 low_limit + 1) % 2 ^ 32

pub rand_num_get : Bool → ℕ → ℤ → ℤ → RandCall
rand_num_get true random_value low_limit upper_limit = returns minus_einval none
rand_num_get false random_value low_limit upper_limit =
    if leb_ℤ upper_limit low_limit
    then returns minus_einval none
    else if range low_limit upper_limit == 0
    then divide_error
    else returns (pos 0)
        (some ((u32 low_limit + random_value % range low_limit upper_limit) % 2 ^ 32))

-- The value of a variable that is 0 before a call of rand_num_get for it.
abbrev pub written_or_zero : RandCall → ℕ
written_or_zero (returns _ (some v)) = v
written_or_zero _ = 0

-- The argument of msleep in sleep_for_rand_seconds (homework9), between the boundaries 1 and 4.
pub sleep_for_rand_seconds : ℕ → ℕ
sleep_for_rand_seconds random_value =
    written_or_zero (rand_num_get false random_value (pos 1) (pos 4)) * 1000 % 2 ^ 32

-- rand_init of homework2/task2: the number that it prints, none if it divides by 0.
pub rand_init : ℕ → ℤ → ℤ → Option ℕ
rand_init random_value m_low m_high =
    if u32 m_high == 0 then none else some ((u32 m_low + random_value % u32 m_high) % 2 ^ 32)
