-- ===== src/Radio/Message.antt =====
-- What radio_write returns and logs.
use linux_c_homeworks.Prelude.{
  ℕ, zero, suc, ◌≤◌, ◌≡◌, refl, Bool, true, false, Option, none, some, List, [], ◌∷◌, ◌++◌, ltb,
  ◌==◌, ◌||◌, length, take, drop, arith, Option-cases, inl, inr, length-take-drop,
}
use linux_c_homeworks.Prelude.Int.{pos, ltb_ℤ}
use linux_c_homeworks.Chardev.{Pointer, valid, is_null}
use linux_c_homeworks.Radio.{data_size, strnlen, printed, log_message, radio_write}

-- Whether there is a 0 among the characters.
abbrev pub has_zero : List ℕ → Bool
has_zero [] = false
has_zero (c ∷ cs) = (c == 0) || has_zero cs

-- A text in front of what is printed.
abbrev pub with_text : List ℕ → Option (List ℕ) → Option (List ℕ)
with_text cs none = none
with_text cs (some text) = some (cs ++ text)

strnlen_whole :
    (message rest : List ℕ)
    → has_zero message ≡ false
    → strnlen (length message) (message ++ rest) ≡ length message
unfolding strnlen
strnlen_whole [] rest h = refl
strnlen_whole (c ∷ cs) rest h = let ih = strnlen_whole cs rest (ground arith) in ground (arith, ih)

strnlen-le : (n : ℕ) (cs : List ℕ) → strnlen n cs ≤ n
unfolding strnlen
strnlen-le zero cs = omega arith
strnlen-le (suc n) [] = omega arith
strnlen-le (suc n) (c ∷ cs) = ground (arith, strnlen-le n cs)

pub printed_whole :
    (message rest : List ℕ)
    → has_zero message ≡ false
    → printed (message ++ rest) ≡ with_text message (printed rest)
unfolding printed
printed_whole [] rest h = elim (Option-cases (printed rest)) [
  | inl past ↦ rw past refl
  | inr (text, ends) ↦ rw ends refl
]
printed_whole (c ∷ cs) rest h =
    let ih = printed_whole cs rest (ground arith) in
    let other : (c == 0) ≡ false = ground arith in
    elim (Option-cases (printed rest)) [
      | inl past ↦ rw (other, ih, past, printed) refl
      | inr (text, ends) ↦ rw (other, ih, ends, printed) refl
    ]

-- A write of at most 512 characters without a 0, which the program can read, returns their number;
-- what it logs is those characters and then what the array on the stack held behind them, up to the
-- first 0 there, or past the end of the array where it has none.
pub radio_write_lem :
    (p user : List ℕ) (len : ℕ)
    → len ≤ data_size
    → len ≤ length user
    → has_zero (take len user) ≡ false
    → radio_write p valid valid valid user len
      ≡ record { code = pos len; logged = some (with_text (take len user) (printed (drop len p))) }
unfolding radio_write log_message
radio_write_lem p user len small readable h =
    let all : length (take len user) ≡ len = length-take-drop len 0 user (omega arith) in
    let fits : ltb data_size len ≡ false = ground arith in
    let copied : ltb (length user) len ≡ false = ground arith in
    let kept = rw all at (strnlen_whole (take len user) (drop len p) h) in
    rw (fits, copied, radio_write, log_message, kept, printed_whole (take len user) (drop len p) h)
      refl

-- A write is refused, with nothing logged, when a pointer is NULL, when there are more than 512
-- characters, or when the program may not read that many; else it returns at most their number.
pub radio_write_code :
    (p : List ℕ) (file buf offset : Pointer) (user : List ℕ) (len : ℕ)
    → let refused =
        is_null file
        || is_null buf
        || is_null offset
        || ltb data_size len
        || ltb (length user) len in
      (ltb_ℤ (radio_write p file buf offset user len).code (pos 0) ≡ refused)
      × (ltb_ℤ (pos len) (radio_write p file buf offset user len).code ≡ false)
      × (refused ≡ true → (radio_write p file buf offset user len).logged ≡ none)
unfolding radio_write log_message
radio_write_code p file buf offset user len =
    let bound = strnlen-le len (take len user ++ drop len p) in
    (ground (arith, bound), ground (arith, bound), λ h. ground arith)
