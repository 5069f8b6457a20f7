-- ===== src/Locks.antt =====
-- linux_c_development/homework4/testlocks.c and testlocks_original.c: a program looks for a part of a file
-- that it can lock, and writes there. What fcntl finds is an argument: F_GETLK either says that nothing is
-- in the way, in l_type alone, or overwrites the whole structure with the lock that is.
pub mod Course
mod Tests
use linux_c_homeworks.Prelude.{
  ℕ, zero, suc, ◌+◌, ◌*◌, ◌≤◌, ◌≡◌, Bool, true, false, Option, none, some, List, [], ◌∷◌, ltb,
  if◌then◌else◌,
}

pub data LockType : Type 0 where
  wrlck rdlck unlck : LockType

-- struct flock, of which l_whence is always SEEK_SET; an l_len of 0 means up to the end of the file.
pub record Flock : Type 0 where
  pub l_type : LockType
  pub l_start : ℕ
  pub l_len : ℕ

-- What F_GETLK answers.
pub data Test : Type 0 where
  unlocked : Test
  blocked : Flock → Test

-- What F_GETLK leaves in the structure; an error leaves it as it is.
pub tested : Option Test → Flock → Flock
tested none fi = fi
tested (some unlocked) fi = record fi { l_type = unlck }
tested (some (blocked other)) fi = other

abbrev pub region : Flock
region = record { l_type = wrlck; l_start = 0; l_len = 64 }

abbrev pub boundary : ℕ
boundary = 1024 * 1024

-- The program gives up with 1, or F_SETLKW succeeds with this structure and the program writes at
-- l_start.
pub data Outcome : Type 0 where
  gives_up : Outcome
  writes : Flock → Outcome

-- `fi.l_start += fi.l_len`
pub moved : Flock → Flock
moved fi = record fi { l_start = fi.l_start + fi.l_len }

-- The loop of testlocks.c, in which F_SETLKW fails once for each answer of F_GETLK; `none` is an error
-- of F_GETLK.
pub lock_loop : List (Option Test) → Flock → Outcome
lock_loop [] fi = writes fi
lock_loop (none ∷ answers) fi = gives_up
lock_loop (some unlocked ∷ answers) fi = lock_loop answers (tested (some unlocked) fi)
lock_loop (some (blocked other) ∷ answers) fi =
    let rest = lock_loop answers (moved (tested (some (blocked other)) fi)) in
    if ltb boundary (moved (tested (some (blocked other)) fi)).l_start then gives_up else rest

pub main : List (Option Test) → Outcome
main answers = lock_loop answers region

-- The loop of testlocks_original.c, and where it writes; no boundary.
pub original_loop : List (Option Test) → ℕ → Flock → Flock
original_loop [] off fi = fi
original_loop (answer ∷ answers) off fi =
    original_loop answers (off + 64) (record (tested answer fi) { l_start = off + 64 })

pub original_main : List (Option Test) → Flock
original_main answers = original_loop answers 0 region
