-- ===== src/Busy/Init.antt =====
-- What tictac_init leaves behind.
use linux_c_homeworks.Prelude.{◌≡◌, arith, ◌&&◌, not}
use linux_c_homeworks.Prelude.Int.{pos, eqb_ℤ}
use linux_c_homeworks.Chardev.{Pointer, is_null}
use linux_c_homeworks.Busy.{start_tac, tictac_init}

-- tictac_init returns 0 exactly if both threads run. If only the second one cannot be created, it
-- returns its error with the first one running and the mutex, which that thread locks, destroyed.
pub tictac_init_lem :
    (tic_thread tac_thread : Pointer)
    → (eqb_ℤ (tictac_init tic_thread tac_thread).code (pos 0) ≡ (
        (tictac_init tic_thread tac_thread).tic_runs
        && (tictac_init tic_thread tac_thread).tac_runs))
      × (((tictac_init tic_thread tac_thread).tic_runs
            && not (tictac_init tic_thread tac_thread).mutex_ready)
          ≡ (not (is_null tic_thread) && is_null tac_thread))
unfolding tictac_init start_tac
tictac_init_lem tic_thread tac_thread = ground arith
