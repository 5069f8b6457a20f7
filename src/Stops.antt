-- ===== src/Stops.antt =====
-- linux_kernel_development/homework8/stop_kthread/stop_kthread.c: a thread that counts a hundred steps, or
-- fewer when the module is unloaded before.
pub mod Unload
mod Tests
use linux_c_homeworks.Prelude.{
  ℕ, zero, suc, ◌+◌, ◌%◌, ◌≡◌, Bool, true, false, List, [], ◌∷◌, ◌++◌, leb, ltb, ◌==◌,
  if◌then◌else◌,
}
use linux_c_homeworks.Prelude.Int.{ℤ, pos, negsuc}
use linux_c_homeworks.Chardev.{Pointer, is_null, minus_enosys}

abbrev pub steps : ℕ
steps = 100

-- What a thread has printed, and how many steps it has made.
pub record Counted : Type 0 where
  pub printed : List ℕ
  pub counter : ℕ

-- The loop of thread_func with `rounds` left; `should_stop c` is what kthread_should_stop() returns when
-- the counter has become c.
pub thread_loop : ℕ → (ℕ → Bool) → ℕ → List ℕ → Counted
thread_loop zero should_stop counter printed = record { printed = printed; counter = counter }
thread_loop (suc rounds) should_stop counter printed =
    let next = if counter % 10 == 0 then printed ++ (counter ∷ []) else printed in
    let rest = thread_loop rounds should_stop (counter + 1) next in
    if should_stop (counter + 1) then record { printed = next; counter = counter + 1 } else rest

pub thread_func : (ℕ → Bool) → Counted
thread_func should_stop = thread_loop steps should_stop 0 []

-- The code of stop_kthread_init, by what kthread_run returns.
pub stop_kthread_init : Pointer → ℤ
stop_kthread_init thread = if is_null thread then minus_enosys else pos 0

-- stop_kthread_cleanup, when the counter stands at `reached` or the thread has returned before: what
-- the thread has done in the end, and whether kthread_stop was called for a thread that was gone: one
-- that ended with no step after `reached`. The thread sees the request at the next test.
pub record Unloaded : Type 0 where
  pub counted : Counted
  pub is_misused : Bool

pub stop_kthread_cleanup : Pointer → ℕ → Unloaded
stop_kthread_cleanup thread reached =
    if is_null thread
    then record { counted = record { printed = []; counter = 0 }; is_misused = false }
    else (let counted = thread_func (λ c. ltb reached c) in
        record { counted = counted; is_misused = leb counted.counter reached })
