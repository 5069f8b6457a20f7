-- ===== src/Halves.antt =====
-- linux_c_development/homework10/array_sum/array_sum.c: two threads that add the halves of an array to one
-- sum, with nothing that keeps them apart. `array_sum += array[i]` reads the sum in one step and stores
-- it in another; the sum is an unsigned number of 32 bits.
pub mod Apart
mod Tests
use linux_c_homeworks.Prelude.{
  ℕ, zero, suc, ◌+◌, ◌*◌, ◌%◌, ◌^◌, ◌<◌, ◌≡◌, Bool, true, false, Option, none, some, ltb, ◌==◌,
  if◌then◌else◌,
}

abbrev pub array_half_size : ℕ
array_half_size = 4

-- The i of the loop, and the sum that has been read and not stored yet.
pub record Thread : Type 0 where
  pub i : ℕ
  pub loaded : Option ℕ

-- Thread 0 has the first half of the array, thread 1 the second one.
pub record System : Type 0 where
  pub array_sum : ℕ
  pub threads : ℕ → Thread

abbrev pub put : (ℕ → Thread) → ℕ → Thread → ℕ → Thread
put threads n t j = if j == n then t else threads j

-- The element that a thread is to add; an int as the machine word that is added.
abbrev pub element : (ℕ → ℕ) → ℕ → ℕ → ℕ
element array n i = array (n * array_half_size + i)

-- One step of thread n: it reads the sum, or adds and stores; `none` at the end of its loop.
pub sum_of_array : (ℕ → ℕ) → ℕ → System → Option System
sum_of_array array n s =
    if ltb (s.threads n).i array_half_size
    then elim (s.threads n).loaded [
      | none ↦ some (record s {
        threads = put s.threads n (record (s.threads n) { loaded = some s.array_sum });
      })
      | some sum ↦ some (record {
        array_sum = (sum + element array n (s.threads n).i) % 2 ^ 32;
        threads = put s.threads n (record { i = (s.threads n).i + 1; loaded = none });
      })
    ]
    else none

abbrev pub started : System
started = record {
  array_sum = 0;
  threads = λ n. record { i = if ltb n 2 then 0 else array_half_size; loaded = none };
}

abbrev pub is_loaded : Thread → Bool
is_loaded t = elim t.loaded [ none ↦ false | some sum ↦ true ]

-- Whether a thread other than n stands between its read and its store.
abbrev pub IsAlone : ℕ → System → Type 0
IsAlone n s = (m : ℕ) → (m == n) ≡ false → is_loaded (s.threads m) ≡ false

pub data Reach (array : ℕ → ℕ) (apart : Bool) : System → Type 0 where
  start : Reach array apart started
  runs :
      {s : System} (n : ℕ) (t : System)
      → Reach array apart s
      → (apart ≡ true → IsAlone n s)
      → sum_of_array array n s ≡ some t
      → Reach array apart t
