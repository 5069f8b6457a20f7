-- ===== src/Users.antt =====
-- The programs that use a device: linux_kernel_development/homework5/main.c, which reads two radios and
-- writes to a third, and linux_kernel_development/homework7/user_file/main.c, which maps one into its
-- memory. What the system answers for a device is an argument, and what is asked of it is written down.
pub mod Closing
pub mod Mapping
mod Tests
use linux_c_homeworks.Prelude.{
  ℕ, zero, suc, ◌+◌, ◌≡◌, Bool, true, false, Option, none, some, List, [], ◌∷◌, ◌++◌, ◌==◌, ◌||◌,
  length, take, drop, not, if◌then◌else◌,
}
use linux_c_homeworks.Prelude.Int.{ℤ, pos, negsuc, ltb_ℤ, eqb_ℤ}
use linux_c_homeworks.RandNum.{minus_einval}
use linux_c_homeworks.Chardev.{Pointer, null, valid, is_null, minus_eacces}
use linux_c_homeworks.Radio.{printed}

-- What the system returns for a device: from open, from read or write, and from close; the characters
-- that a read stores; and for a mapping, whether mmap works, the memory, and what munmap returns.
pub record Device : Type 0 where
  pub opened : ℤ
  pub moved : ℤ
  pub closed : ℤ
  pub stored : List ℕ
  pub is_mapped : Bool
  pub memory : List ℕ
  pub unmapped : ℤ

-- An open that works is `opens`, and one that fails is `fails`.
pub data Call : Type 0 where
  opens fails reads writes closes maps unmaps : Call

-- The code, what was asked of the system in order, and the text between the brackets that was
-- printed: `some none` where the array has no 0 and the text goes on behind it.
pub record Outcome : Type 0 where
  pub code : ℤ
  pub calls : List Call
  pub shown : Option (Option (List ℕ))

-- The calls and the text with which both functions end.
pub close_device : Device → Call → List ℕ → Outcome
close_device d call buffer =
    if ltb_ℤ d.closed (pos 0)
    then record {
      code = d.closed;
      calls = opens ∷ call ∷ closes ∷ [];
      shown = some (printed buffer);
    }
    else record { code = pos 0; calls = opens ∷ call ∷ closes ∷ []; shown = some (printed buffer) }

-- The part after open.
pub transfer : Device → Call → List ℕ → Outcome
transfer d call buffer =
    if ltb_ℤ d.moved (pos 0)
    then record { code = d.moved; calls = opens ∷ call ∷ []; shown = none }
    else close_device d call buffer

pub refused : ℤ → List Call → Outcome
refused code calls = record { code = code; calls = calls; shown = none }

-- The three tests with which each function begins, before the rest of it.
pub checked : Pointer → Pointer → ℕ → Outcome → Outcome
checked path pointer buf_len rest =
    if is_null path
    then refused minus_einval []
    else if is_null pointer
    then refused minus_einval []
    else if buf_len == 0
    then refused minus_einval []
    else rest

-- The call of open, before the part that uses the file.
pub open_device : Device → Outcome → Outcome
open_device d rest = if ltb_ℤ d.opened (pos 0) then refused d.opened (fails ∷ []) else rest

-- The array of the caller after the read: the characters stored, and what was behind them.
abbrev pub after_read : Device → List ℕ → List ℕ
after_read d buffer = d.stored ++ drop (length d.stored) buffer

pub read_from_device : Device → Pointer → Pointer → List ℕ → ℕ → Outcome
read_from_device d path pointer buffer buf_len =
    checked path pointer buf_len (open_device d (transfer d reads (after_read d buffer)))

pub write_to_device : Device → Pointer → Pointer → List ℕ → ℕ → Outcome
write_to_device d path pointer buffer buf_len =
    checked path pointer buf_len (open_device d (transfer d writes buffer))

-- "Blin blinskiy, Linux!" and its 0.
abbrev pub msg : List ℕ
msg =
    66 ∷ 108 ∷ 105 ∷ 110 ∷ 32 ∷ 98 ∷ 108 ∷ 105 ∷ 110 ∷ 115 ∷ 107 ∷ 105 ∷ 121 ∷ 44 ∷ 32 ∷ 76 ∷ 105
    ∷ 110 ∷ 117 ∷ 120 ∷ 33 ∷ 0 ∷ []

-- The exit code of main, and the outcomes of the calls that it made.
pub record Program : Type 0 where
  pub status : ℕ
  pub outcomes : List Outcome

pub write_radio : Device → Outcome → Outcome → Program
write_radio radio_2 first second =
    let third = write_to_device radio_2 valid valid msg (length msg) in
    record {
      status = if eqb_ℤ third.code (pos 0) then 0 else 1;
      outcomes = first ∷ second ∷ third ∷ [];
    }

pub read_second : Device → Device → Device → List ℕ → Outcome → Program
read_second radio_0 radio_1 radio_2 buffer first =
    let second = read_from_device radio_1 valid valid (after_read radio_0 buffer) 256 in
    if eqb_ℤ second.code (pos 0)
    then write_radio radio_2 first second
    else record { status = 1; outcomes = first ∷ second ∷ [] }

-- main of homework5/main.c; `buffer` is what its array holds at the start.
pub main : Device → Device → Device → List ℕ → Program
main radio_0 radio_1 radio_2 buffer =
    let first = read_from_device radio_0 valid valid buffer 256 in
    if eqb_ℤ first.code (pos 0)
    then read_second radio_0 radio_1 radio_2 buffer first
    else record { status = 1; outcomes = first ∷ [] }

-- The part of read_from_mmap after open.
pub map_device : Device → Outcome
map_device d =
    if not d.is_mapped then refused minus_eacces (opens ∷ maps ∷ closes ∷ []) else record {
      code = pos 0;
      calls = opens ∷ maps ∷ unmaps ∷ closes ∷ [];
      shown = some (printed d.memory);
    }

pub read_from_mmap : Device → Pointer → Pointer → ℕ → Outcome
read_from_mmap d path pointer buf_len = checked path pointer buf_len (open_device d (map_device d))

-- main of user_file/main.c.
pub mmap_main : Device → Program
mmap_main d =
    let outcome = read_from_mmap d valid valid 256 in
    record { status = if eqb_ℤ outcome.code (pos 0) then 0 else 1; outcomes = outcome ∷ [] }
