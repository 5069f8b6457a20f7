-- ===== src/Locks/Course.antt =====
-- Where the programs write, and what they have locked.
use linux_c_homeworks.Prelude.{
  ℕ, ◌+◌, ◌*◌, ◌≤◌, ◌||◌, ◌≡◌, refl, ◌∙◌, Bool, true, false, Option, none, some, List, [], ◌∷◌, ltb,
  arith, length, Bool-cases, inl, inr,
}
use linux_c_homeworks.Locks.{
  LockType, wrlck, unlck, Flock, Test, unlocked, blocked, tested, region, boundary, Outcome,
  gives_up, writes, moved, lock_loop, main, original_loop, original_main,
}

-- The kind of lock that the answers leave, when it was t before them.
pub last_type : List (Option Test) → LockType → LockType
last_type [] t = t
last_type (none ∷ answers) t = last_type answers t
last_type (some unlocked ∷ answers) t = last_type answers unlck
last_type (some (blocked other) ∷ answers) t = last_type answers other.l_type

-- Where the last lock that the answers name ends, by its l_start and l_len, or else `start`.
pub last_end : List (Option Test) → ℕ → ℕ
last_end [] start = start
last_end (none ∷ answers) start = last_end answers start
last_end (some unlocked ∷ answers) start = last_end answers start
last_end (some (blocked other) ∷ answers) start = last_end answers (other.l_start + other.l_len)

-- Whether an answer is an error, or a lock with l_start + l_len behind the boundary. A lock up to the end
-- of the file has the l_len 0.
pub is_past : Option Test → Bool
is_past none = true
is_past (some unlocked) = false
is_past (some (blocked other)) = ltb boundary (other.l_start + other.l_len)

pub any_past : List (Option Test) → Bool
any_past [] = false
any_past (answer ∷ answers) = is_past answer || any_past answers

-- How the program ends, by the kind of lock and the place that the answers leave and whether one of them
-- is_past.
pub Agrees : LockType → ℕ → Bool → Outcome → Type 0
Agrees t place past gives_up = past ≡ true
Agrees t place past (writes fi) =
    (past ≡ false) × (fi.l_type ≡ t) × (fi.l_start ≡ place) × (fi.l_start ≤ boundary)

loop_lem :
    (answers : List (Option Test)) (fi : Flock)
    → fi.l_start ≤ boundary
    → Agrees
        (last_type answers fi.l_type)
        (last_end answers fi.l_start)
        (any_past answers)
        (lock_loop answers fi)
unfolding lock_loop last_type last_end any_past is_past Agrees moved tested
loop_lem [] fi h = (refl, refl, refl, h)
loop_lem (none ∷ answers) fi h = refl
loop_lem (some unlocked ∷ answers) fi h = loop_lem answers _ h
loop_lem (some (blocked other) ∷ answers) fi h =
    elim (Bool-cases (ltb boundary (other.l_start + other.l_len))) [
      | inl past ↦ rw past refl
      | inr near ↦ rw near (loop_lem answers _ (ground arith))
    ]

-- Once its file is open, testlocks.c gives up exactly when F_GETLK has failed or has named a lock whose l_start + l_len is
-- greater than 1048576. Otherwise it writes at an offset of at most 1048576: at l_start + l_len of the last
-- lock that F_GETLK has named, or at 0 if it has named none. What it has asked for there is a lock of the
-- kind that the last answer of F_GETLK has left: after an answer that nothing is in the way, no lock at
-- all.
pub locks_lem :
    (answers : List (Option Test))
    → Agrees (last_type answers wrlck) (last_end answers 0) (any_past answers) (main answers)
unfolding main
locks_lem answers = loop_lem answers region (omega arith)

original_loop_lem :
    (answers : List (Option Test)) (off : ℕ) (fi : Flock)
    → fi.l_start ≡ off
    → ((original_loop answers off fi).l_start ≡ off + length answers * 64)
      × ((original_loop answers off fi).l_type ≡ last_type answers fi.l_type)
unfolding original_loop last_type tested
original_loop_lem [] off fi h = (h ∙ omega arith, refl)
original_loop_lem (none ∷ answers) off fi h =
    let (a, b) = original_loop_lem answers (off + 64) _ refl in (a ∙ omega arith, b)
original_loop_lem (some unlocked ∷ answers) off fi h =
    let (a, b) = original_loop_lem answers (off + 64) _ refl in (a ∙ omega arith, b)
original_loop_lem (some (blocked other) ∷ answers) off fi h =
    let (a, b) = original_loop_lem answers (off + 64) _ refl in (a ∙ omega arith, b)

-- testlocks_original.c writes 64 bytes further for each failure, however far that is, with the same kind
-- of lock.
pub original_lem :
    (answers : List (Option Test))
    → ((original_main answers).l_start ≡ length answers * 64)
      × ((original_main answers).l_type ≡ last_type answers wrlck)
unfolding original_main
original_lem answers = let (a, b) = original_loop_lem answers 0 region refl in (a ∙ omega arith, b)
