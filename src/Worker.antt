-- ===== src/Worker.antt =====
-- linux_kernel_development/homework9/module_device/module_device_main.c: thread_func, which fills
-- nums_array with random numbers, and generate_random_numbers; with module_device_init before it and
-- node_write beside it, as far as they change what the thread uses. `nums_array` is the number of
-- `int`s in the block, `none` for NULL. What kmalloc and get_random_bytes answer is an argument.
pub mod Bounds
pub mod Course
mod Tests
use linux_c_homeworks.Prelude.{
  ℕ, zero, suc, ◌+◌, ◌*◌, ◌/◌, ◌%◌, ◌^◌, ◌≡◌, Bool, true, false, Option, none, some, List, [], ◌∷◌,
  ltb, leb, ◌==◌, ◌||◌, not, if◌then◌else◌, replicate, set, length,
}
use linux_c_homeworks.Prelude.Int.{ℤ, pos, negsuc, eqb_ℤ}
use linux_c_homeworks.Prelude.Words.{u32, u64, i32}

pub record Shared : Type 0 where
  pub nums_array : Option (List ℤ)
  pub rand_nums_amount : ℤ
  pub rand_nums_amount_current : ℤ
  pub mutex_locked : Bool

-- sizeof(int) * rand_nums_amount, in size_t.
abbrev pub bytes_for : ℤ → ℕ
bytes_for amount = u64 amount * 4 % 2 ^ 64

abbrev pub block : ℤ → List ℤ
block amount = replicate (bytes_for amount / 4) (pos 0)

abbrev pub rounds_for : ℤ → ℕ
rounds_for (pos n) = n
rounds_for (negsuc n) = 0

-- The loop of generate_random_numbers; `none` is a write outside the block.
pub generate_loop : (ℕ → ℕ) → ℕ → ℕ → List ℤ → Option (List ℤ)
generate_loop draw zero i nums = some nums
generate_loop draw (suc rounds) i nums = elim (ltb i (length nums)) [
  | true ↦ generate_loop draw rounds (i + 1) (set nums i (i32 (draw i)))
  | false ↦ none
]

-- generate_random_numbers, whose amount is an `int`.
pub generate_random_numbers : (ℕ → ℕ) → List ℤ → ℤ → Option (List ℤ)
generate_random_numbers draw nums nums_amount = generate_loop draw (rounds_for nums_amount) 0 nums

-- The end of a round: the thread goes on, or stops with the mutex locked, or has accessed memory
-- that is not its own.
pub data Outcome : Type 0 where
  goes_on stops : Shared → Outcome
  out_of_bounds : Outcome

abbrev pub generate_in : (ℕ → ℕ) → Shared → Option (List ℤ) → Outcome
generate_in draw s none = out_of_bounds
generate_in draw s (some nums) =
    elim (generate_random_numbers draw nums (i32 (u32 s.rand_nums_amount))) [
      | none ↦ out_of_bounds
      | some nums' ↦ goes_on (record s { nums_array = some nums'; mutex_locked = false })
    ]

-- The body of the loop of thread_func from lock_writing_mutex on, which returns when no one else has
-- the mutex.
pub thread_round : (ℕ → ℕ) → Bool → Shared → Outcome
thread_round draw kmalloc_works s =
    if eqb_ℤ s.rand_nums_amount_current s.rand_nums_amount
    then generate_in draw s s.nums_array
    else if kmalloc_works
    then generate_in draw (record s { rand_nums_amount_current = s.rand_nums_amount })
        (some (block s.rand_nums_amount))
    else stops (record s {
      nums_array = none;
      rand_nums_amount_current = s.rand_nums_amount;
      mutex_locked = true;
    })

-- The start of thread_func.
abbrev pub thread_start : Shared → Shared
thread_start s = record s { rand_nums_amount_current = s.rand_nums_amount }

-- What module_device_init leaves, after it has registered the device.
abbrev pub init_array : ℤ → Shared
init_array amount = record {
  nums_array = some (block amount);
  rand_nums_amount = amount;
  rand_nums_amount_current = pos 0;
  mutex_locked = false;
}

-- node_write stores a number while it has the mutex.
abbrev pub store_amount : ℤ → Shared → Shared
store_amount amount s = record s { rand_nums_amount = amount }

-- The thread and the writers: after module_device_init has made the block the thread starts, and rounds
-- of the thread and writes come in any order. `running` says whether the thread has started; `early`
-- admits writes before it has, which the device, registered already, does not refuse.
pub data Reach (early : Bool) : Bool → Shared → Type 0 where
  start : (amount : ℤ) → Reach early false (init_array amount)
  stored :
      {running : Bool} {s : Shared} (amount : ℤ)
      → Reach early running s
      → (early || running) ≡ true
      → Reach early running (store_amount amount s)
  starts : {s : Shared} → Reach early false s → Reach early true (thread_start s)
  filled :
      {s t : Shared} (draw : ℕ → ℕ) (kmalloc_works : Bool)
      → Reach early true s
      → thread_round draw kmalloc_works s ≡ goes_on t
      → Reach early true t
