-- ===== src/Stops/Tests.antt =====
-- The module unloaded at step 25, and after the thread has returned.
use linux_c_homeworks.Prelude.{◌≤◌, ◌<◌, ◌≡◌, refl, true, false, [], ◌∷◌}
use linux_c_homeworks.Chardev.{valid}
use linux_c_homeworks.Stops.{steps, thread_loop, thread_func, stop_kthread_cleanup}
use linux_c_homeworks.Stops.Unload.{after, unload_lem}

three_tens : (stop_kthread_cleanup valid 25).counted.printed ≡ 0 ∷ 10 ∷ 20 ∷ []
unfolding stop_kthread_cleanup thread_func thread_loop
three_tens = refl

unload_lem_example :
    (25 < steps
      → ((stop_kthread_cleanup valid 25).counted ≡ after 26 0 [])
        × ((stop_kthread_cleanup valid 25).is_misused ≡ false))
    × (steps ≤ 25
        → ((stop_kthread_cleanup valid 25).counted ≡ after steps 0 [])
          × ((stop_kthread_cleanup valid 25).is_misused ≡ true))
unload_lem_example = unload_lem 25
