-- ===== src/Locks/Tests.antt =====
-- A lock of another process at the beginning of the file, and a failure with no lock in the way.
use linux_c_homeworks.Prelude.{◌≡◌, refl, Option, none, some, List, [], ◌∷◌}
use linux_c_homeworks.Locks.{
  wrlck, unlck, Flock, Test, unlocked, blocked, writes, lock_loop, main, original_loop,
  original_main, moved, tested,
}
use linux_c_homeworks.Locks.Course.{last_type, last_end, any_past, Agrees, locks_lem}

abbrev other : Flock
other = record { l_type = wrlck; l_start = 0; l_len = 64 }

writes_behind :
    main (some (blocked other) ∷ []) ≡ writes (record { l_type = wrlck; l_start = 64; l_len = 64 })
unfolding main lock_loop moved tested
writes_behind = refl

-- The program writes without a lock.
no_lock : main (some unlocked ∷ []) ≡ writes (record { l_type = unlck; l_start = 0; l_len = 64 })
unfolding main lock_loop moved tested
no_lock = refl

third : (original_main (some (blocked other) ∷ none ∷ [])).l_start ≡ 128
unfolding original_main original_loop
third = refl

-- A lock up to the end of the file does not move the program on: it tries the same place again.
to_the_end :
    main (some (blocked (record { l_type = wrlck; l_start = 0; l_len = 0 })) ∷ [])
    ≡ writes (record { l_type = wrlck; l_start = 0; l_len = 0 })
unfolding main lock_loop moved tested
to_the_end = refl

abbrev two : List (Option Test)
two = some (blocked other) ∷ some unlocked ∷ []

locks_lem_example : Agrees (last_type two wrlck) (last_end two 0) (any_past two) (main two)
locks_lem_example = locks_lem two
