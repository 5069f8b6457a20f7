-- ===== src/Radio.antt =====
-- linux_kernel_development/homework4/radio: radio_main.c, radio_or.c and radio_write.c, a device that one
-- process at a time may open, and that logs what is written to it.
pub mod Message
pub mod Sharing
mod Tests
use linux_c_homeworks.Prelude.{
  ℕ, zero, suc, ◌+◌, ◌-◌, ◌≡◌, ◌⊎◌, Bool, true, false, Option, none, some, List, [], ◌∷◌, ◌++◌, ltb,
  ◌==◌, length, take, drop, if◌then◌else◌,
}
use linux_c_homeworks.Prelude.Int.{ℤ, pos, negsuc, ltb_ℤ}
use linux_c_homeworks.RandNum.{minus_einval}
use linux_c_homeworks.Reports.{minus_efault}
use linux_c_homeworks.Chardev.{Pointer, is_null}

abbrev pub minus_ebusy : ℤ
minus_ebusy = negsuc 15

-- The code of init_radio, and whether the device is registered; the argument is what register_chrdev
-- returns.
pub init_radio : ℤ → ℤ × Bool
init_radio radio_major = if ltb_ℤ radio_major (pos 0) then (radio_major, false) else (pos 0, true)

-- The two halves of radio_open: the test of radio_count, and the increment.
abbrev pub is_refused : ℕ → Bool
is_refused radio_count = ltb 0 radio_count

-- radio_open when no other call runs in between: the code and the new count.
pub radio_open : ℕ → ℤ × ℕ
radio_open radio_count =
    if is_refused radio_count then (minus_ebusy, radio_count) else (pos 0, radio_count + 1)

-- The new count; the only callers are processes that have the device open.
pub radio_release : ℕ → ℕ
radio_release radio_count = radio_count - 1

abbrev pub data_size : ℕ
data_size = 512

-- The characters before the first 0, at most n.
pub strnlen : ℕ → List ℕ → ℕ
strnlen zero cs = 0
strnlen (suc n) [] = 0
strnlen (suc n) (c ∷ cs) = if c == 0 then 0 else suc (strnlen n cs)

-- What printf("%s") prints of an array; `none` where there is no 0 in it and the text goes on behind it.
pub printed : List ℕ → Option (List ℕ)
printed [] = none
printed (c ∷ cs) =
    if c == 0 then some [] else elim (printed cs) [ none ↦ none | some text ↦ some (c ∷ text) ]

-- What a write leaves: its code, and the text in the log, `none` where nothing was logged.
pub record Written : Type 0 where
  pub code : ℤ
  pub logged : Option (Option (List ℕ))

-- After copy_from_user: `user` is the memory that the program may read from buf on, and `p` what the
-- array on the stack holds before.
pub log_message : List ℕ → List ℕ → ℕ → Written
log_message p user len =
    if ltb (length user) len
    then record { code = minus_efault; logged = none }
    else let filled = take len user ++ drop len p in
      record { code = pos (strnlen len filled); logged = some (printed filled) }

pub radio_write : List ℕ → Pointer → Pointer → Pointer → List ℕ → ℕ → Written
radio_write p file buf offset user len =
    if is_null file
    then record { code = minus_einval; logged = none }
    else if is_null buf
    then record { code = minus_einval; logged = none }
    else if is_null offset
    then record { code = minus_einval; logged = none }
    else if ltb data_size len
    then record { code = minus_einval; logged = none }
    else log_message p user len
