-- ===== src/Users/Closing.antt =====
-- When the functions of homework5/main.c fail, and when they leave the device open.
use linux_c_homeworks.Prelude.{
  ℕ, ◌+◌, ◌<◌, ◌-◌, ◌≡◌, refl, Bool, true, false, some, List, [], ◌∷◌, ◌==◌, ◌&&◌, ◌||◌, not,
  length, drop, if◌then◌else◌, arith, Bool-cases, inl, inr,
}
use linux_c_homeworks.Prelude.Int.{pos, ltb_ℤ, eqb_ℤ}
use linux_c_homeworks.RandNum.{minus_einval}
use linux_c_homeworks.Chardev.{Pointer, valid, is_null}
use linux_c_homeworks.Radio.{printed}
use linux_c_homeworks.Radio.Message.{has_zero, with_text, printed_whole}
use linux_c_homeworks.Users.{
  Device, Call, opens, fails, reads, writes, closes, maps, unmaps, Outcome, close_device, transfer,
  refused, checked, open_device, after_read, read_from_device, write_to_device, msg, write_radio,
  read_second, main,
}

abbrev pub answers_all : Device → Bool
answers_all d =
    not (ltb_ℤ d.opened (pos 0)) && not (ltb_ℤ d.moved (pos 0)) && not (ltb_ℤ d.closed (pos 0))

-- How many files are open after a list of calls, with n open before it.
abbrev pub left_open : ℕ → List Call → ℕ
left_open n [] = n
left_open n (opens ∷ calls) = left_open (n + 1) calls
left_open n (fails ∷ calls) = left_open n calls
left_open n (reads ∷ calls) = left_open n calls
left_open n (writes ∷ calls) = left_open n calls
left_open n (closes ∷ calls) = left_open (n - 1) calls
left_open n (maps ∷ calls) = left_open n calls
left_open n (unmaps ∷ calls) = left_open n calls

abbrev pub are_given : Pointer → Pointer → ℕ → Bool
are_given path pointer buf_len = not (is_null path || is_null pointer || (buf_len == 0))

-- What a function of the two returns, and how many files it leaves open.
abbrev pub IsAnswered : Device → Bool → Outcome → Type 0
IsAnswered d given o =
    (eqb_ℤ o.code (pos 0) ≡ (given && answers_all d))
    × (ltb_ℤ o.code (pos 0) ≡ not (given && answers_all d))
    × (left_open 0 o.calls
        ≡ (if given && not (ltb_ℤ d.opened (pos 0)) && ltb_ℤ d.moved (pos 0) then 1 else 0))

-- The guards let through what is given, and refuse the rest.
pub checked_lem :
    (path pointer : Pointer) (buf_len : ℕ) (rest : Outcome)
    → checked path pointer buf_len rest
      ≡ (if are_given path pointer buf_len then rest else refused minus_einval [])
unfolding checked
checked_lem path pointer buf_len rest = ground arith

transfer_lem :
    (d : Device) (call : Call) (buffer : List ℕ)
    → left_open 1 (call ∷ []) ≡ 1
    → left_open 1 (call ∷ closes ∷ []) ≡ 0
    → IsAnswered d true (open_device d (transfer d call buffer))
unfolding open_device transfer close_device refused
transfer_lem d call buffer keeps ends = elim (Bool-cases (ltb_ℤ d.opened (pos 0))) [
  | inl bad ↦ rw (bad, open_device) (ground arith, ground arith, refl)
  | inr good ↦ elim (Bool-cases (ltb_ℤ d.moved (pos 0))) [
    | inl bad ↦ rw (good, bad, open_device, transfer) (ground arith, ground arith, keeps)
    | inr moved ↦ elim (Bool-cases (ltb_ℤ d.closed (pos 0))) [
      | inl bad ↦
          rw (good, moved, bad, open_device, transfer, close_device)
            (ground arith, ground arith, ends)
      | inr closed ↦
          rw (good, moved, closed, open_device, transfer, close_device) (refl, refl, ends)
    ]
  ]
]

guarded :
    (d : Device) (path pointer : Pointer) (buf_len : ℕ) (rest : Outcome)
    → IsAnswered d true rest
    → IsAnswered d (are_given path pointer buf_len) (checked path pointer buf_len rest)
unfolding refused
guarded d path pointer buf_len rest h = elim (Bool-cases (are_given path pointer buf_len)) [
  | inl given ↦ rw (checked_lem path pointer buf_len rest, given) h
  | inr missing ↦ rw (checked_lem path pointer buf_len rest, missing) (refl, refl, refl)
]

-- read_from_device and write_to_device return 0 exactly when the path and the buffer are not NULL, the
-- length is not 0 and open, read or write, and close all answer with no error, and else a negative code;
-- the file stays open exactly when it has been opened and the read or the write fails.
pub device_lem :
    (d : Device) (path pointer : Pointer) (buffer : List ℕ) (buf_len : ℕ)
    → IsAnswered d (are_given path pointer buf_len) (read_from_device d path pointer buffer buf_len)
      × IsAnswered d
          (are_given path pointer buf_len)
          (write_to_device d path pointer buffer buf_len)
unfolding read_from_device write_to_device
device_lem d path pointer buffer buf_len = (
  guarded d path pointer buf_len _ (transfer_lem d reads (after_read d buffer) refl refl),
  guarded d path pointer buf_len _ (transfer_lem d writes buffer refl refl),
)

-- The exit code of main is 0 exactly when no call to the three devices fails; it goes on to a device
-- only if none has failed at those before it.
pub users_main_lem :
    (radio_0 radio_1 radio_2 : Device) (buffer : List ℕ)
    → ((main radio_0 radio_1 radio_2 buffer).status
        ≡ (if answers_all radio_0 && answers_all radio_1 && answers_all radio_2 then 0 else 1))
      × (length (main radio_0 radio_1 radio_2 buffer).outcomes
          ≡ (if not (answers_all radio_0) then 1 else if not (answers_all radio_1) then 2 else 3))
unfolding main read_second write_radio
users_main_lem radio_0 radio_1 radio_2 buffer =
    let first = device_lem radio_0 valid valid buffer 256 in
    let second = device_lem radio_1 valid valid (after_read radio_0 buffer) 256 in
    let third = device_lem radio_2 valid valid msg 22 in
    (ground (arith, first, second, third), ground (arith, first, second, third))

-- What a read without a 0 prints is what it stored and then what the array held behind it, up to the
-- first 0 there, or past the end of the array if there is none.
pub read_shows :
    (d : Device) (buffer : List ℕ) (buf_len : ℕ)
    → 0 < buf_len
    → answers_all d ≡ true
    → has_zero d.stored ≡ false
    → (read_from_device d valid valid buffer buf_len).shown
      ≡ some (with_text d.stored (printed (drop (length d.stored) buffer)))
unfolding read_from_device open_device checked transfer close_device
read_shows d buffer buf_len h all_answer no_zero =
    let e = printed_whole d.stored (drop (length d.stored) buffer) no_zero in ground (arith, e)
