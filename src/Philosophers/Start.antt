-- ===== src/Philosophers/Start.antt =====
-- How philosophers_init ends.
use linux_c_homeworks.Prelude.{ℕ, zero, suc, ◌+◌, ◌≡◌, refl, arith, if◌then◌else◌, ◌||◌}
use linux_c_homeworks.Prelude.Int.{ℤ, pos, leb_ℤ}
use linux_c_homeworks.Chardev.{Pointer, is_null}
use linux_c_homeworks.Philosophers.{philosophers_number, init_loop, philosophers_init}

-- The number of steps from i on, of `rounds`, before one that fails.
abbrev pub first_failure : (ℕ → ℤ) → (ℕ → Pointer) → ℕ → ℕ → ℕ
first_failure len thread zero i = i
first_failure len thread (suc rounds) i =
    if leb_ℤ (len i) (pos 0) || is_null (thread i)
    then i
    else first_failure len thread rounds (i + 1)

init_loop_count :
    (len : ℕ → ℤ) (thread : ℕ → Pointer) (rounds i : ℕ)
    → ((init_loop len thread rounds i).threads ≡ first_failure len thread rounds i)
      × ((init_loop len thread rounds i).mutexes ≡ first_failure len thread rounds i)
unfolding init_loop
init_loop_count len thread zero i = (refl, refl)
init_loop_count len thread (suc rounds) i =
    ground (arith, init_loop_count len thread rounds (i + 1))

init_loop_ok :
    (len : ℕ → ℤ) (thread : ℕ → Pointer) (rounds i : ℕ)
    → (init_loop len thread rounds i).code ≡ pos 0
    → (init_loop len thread rounds i).threads ≡ i + rounds
unfolding init_loop
init_loop_ok len thread zero i h = omega arith
init_loop_ok len thread (suc rounds) i h = ground (arith, init_loop_ok len thread rounds (i + 1))

-- philosophers_init returns 0 only if all five threads run. In every case the threads before the
-- first step that fails have been started, with their mutexes, and still run when the function
-- returns its error.
pub philosophers_init_lem :
    (len : ℕ → ℤ) (thread : ℕ → Pointer)
    → ((philosophers_init len thread).code ≡ pos 0
        → (philosophers_init len thread).threads ≡ philosophers_number)
      × ((philosophers_init len thread).threads ≡ first_failure len thread philosophers_number 0)
      × ((philosophers_init len thread).mutexes ≡ first_failure len thread philosophers_number 0)
unfolding philosophers_init
philosophers_init_lem len thread =
    let (running, made) = init_loop_count len thread philosophers_number 0 in
    (init_loop_ok len thread philosophers_number 0, running, made)
