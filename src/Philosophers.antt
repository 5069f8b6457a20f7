-- ===== src/Philosophers.antt =====
-- linux_kernel_development/homework11/philosophers/philosophers.c: five threads and five mutexes, the
-- sticks. A call of one of the four stick functions is one step, since it makes one call of the mutex
-- interface; the answers of the kernel and the clock are arguments.
pub mod Sticks
pub mod Solo
pub mod Start
pub mod Cleanup
mod Tests
use linux_c_homeworks.Prelude.{
  ℕ, zero, suc, ◌+◌, ◌-◌, ◌/◌, Bool, true, false, Option, none, some, List, [], ◌∷◌, ltb, leb, ◌==◌,
  if◌then◌else◌, get_or, set, replicate, not,
}
use linux_c_homeworks.Prelude.Int.{ℤ, pos, negsuc, leb_ℤ, eqb_ℤ}
use linux_c_homeworks.Chardev.{Pointer, is_null}

abbrev pub philosophers_number : ℕ
philosophers_number = 5

abbrev pub minus_einval : ℤ
minus_einval = negsuc 21

-- For each stick the philosopher who has locked it, and how long each has eaten.
pub record Table : Type 0 where
  pub sticks : List (Option ℕ)
  pub eat_time : List ℕ

-- mutex_trylock returns 1 if it locks the mutex, and 0 if the mutex is locked.
pub mutex_trylock : ℕ → ℕ → Table → ℤ × Table
mutex_trylock owner i t = elim (get_or t.sticks i none) [
  | none ↦ (pos 1, record t { sticks = set t.sticks i (some owner) })
  | some other ↦ (pos 0, t)
]

pub mutex_unlock : ℕ → Table → Table
mutex_unlock i t = record t { sticks = set t.sticks i none }

-- `if(phil_id == (PHILOSOPHERS_NUMBER - 1)) phil_id = 0;` and then sticks[phil_id + 1].
abbrev pub right_index : ℕ → ℕ
right_index phil_id = (if phil_id == (philosophers_number - 1) then 0 else phil_id) + 1

pub put_left_stick : ℕ → Table → ℤ × Table
put_left_stick phil_id t =
    if leb philosophers_number phil_id then (minus_einval, t) else (pos 0, mutex_unlock phil_id t)

pub put_right_stick : ℕ → Table → ℤ × Table
put_right_stick phil_id t =
    if leb philosophers_number phil_id
    then (minus_einval, t)
    else (pos 0, mutex_unlock (right_index phil_id) t)

pub take_left_stick : ℕ → Table → ℤ × Table
take_left_stick phil_id t =
    if leb philosophers_number phil_id then (minus_einval, t) else mutex_trylock phil_id phil_id t

pub take_right_stick : ℕ → Table → ℤ × Table
take_right_stick phil_id t =
    if leb philosophers_number phil_id
    then (minus_einval, t)
    else mutex_trylock phil_id (right_index phil_id) t

-- What a round of the loop in thread_func reports.
pub data Outcome : Type 0 where
  thinks thinks_and_puts_right eats : Outcome

-- The end of a round, after both calls returned 0; `elapsed` is in nanoseconds.
pub eat : ℕ → ℕ → Table → Table
eat philosopher_id elapsed t =
    let fed = record t {
      eat_time =
          set t.eat_time philosopher_id (get_or t.eat_time philosopher_id 0 + elapsed / 1000);
    } in
    (put_right_stick philosopher_id (put_left_stick philosopher_id fed).1).1

-- The body of the loop in thread_func.
pub round : ℕ → ℕ → Table → Outcome × Table
round philosopher_id elapsed t =
    let (right, t₁) = take_right_stick philosopher_id t in
    let (left, t₂) = take_left_stick philosopher_id t₁ in
    if not (eqb_ℤ right (pos 0))
    then (thinks, t₁)
    else if not (eqb_ℤ left (pos 0))
    then (thinks_and_puts_right, (put_right_stick philosopher_id t₂).1)
    else (eats, eat philosopher_id elapsed t₂)

-- philosophers_init: how many mutexes are initialised and how many threads run after it, and its
-- code. For each i the length that snprintf returns and the pointer that kthread_create returns are
-- given; the loop has `rounds` values of i left.
pub record Started : Type 0 where
  pub code : ℤ
  pub mutexes : ℕ
  pub threads : ℕ

pub init_loop : (ℕ → ℤ) → (ℕ → Pointer) → ℕ → ℕ → Started
init_loop name_length kthread_create zero i = record { code = pos 0; mutexes = i; threads = i }
init_loop name_length kthread_create (suc rounds) i =
    let rest = init_loop name_length kthread_create rounds (i + 1) in
    if leb_ℤ (name_length i) (pos 0)
    then record { code = minus_einval; mutexes = i; threads = i }
    else if is_null (kthread_create i)
    then record { code = negsuc 37; mutexes = i; threads = i }
    else rest

pub philosophers_init : (ℕ → ℤ) → (ℕ → Pointer) → Started
philosophers_init name_length kthread_create =
    init_loop name_length kthread_create philosophers_number 0
