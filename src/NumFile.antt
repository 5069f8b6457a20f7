-- ===== src/NumFile.antt =====
-- linux_c_development/homework3/array/main.c: the numbers of a file, separated by commas. `char_idx`
-- and `num_index` are not initialised there: their first values are arguments. A result `none` is an
-- access outside an array. Characters are bytes.
pub mod Bounds
pub mod Parse
mod Tests
use linux_c_homeworks.Prelude.{
  ℕ, zero, suc, ◌+◌, ◌-◌, ◌*◌, ◌^◌, Bool, true, false, Option, none, some, List, [], ◌∷◌, ◌++◌, ltb,
  leb, ◌==◌, ◌&&◌, ◌||◌, not, if◌then◌else◌, length, set, take, replicate,
}
use linux_c_homeworks.Prelude.Int.{ℤ, pos, negsuc, ltb_ℤ}
use linux_c_homeworks.Prelude.Words.{u32, i32}

abbrev pub num_chars_in_int64 : ℕ
num_chars_in_int64 = 21

pub record Parser : Type 0 where
  pub nums : List ℤ
  pub number : List ℕ
  pub char_idx : ℤ
  pub num_index : ℤ
  pub in_number : Bool

abbrev pub is_digit : ℕ → Bool
is_digit ch = leb 48 ch && leb ch 57

-- The digits at the start of a text.
pub digits_value : List ℕ → ℕ → ℕ
digits_value [] value = value
digits_value (c ∷ cs) value = if is_digit c then digits_value cs (value * 10 + (c - 48)) else value

abbrev pub minus : ℕ → ℤ
minus zero = pos 0
minus (suc n) = negsuc n

-- The number of a text of digits and '-', ended by a 0.
pub number_of : List ℕ → ℤ
number_of [] = pos 0
number_of (c ∷ cs) = if c == 45 then minus (digits_value cs 0) else pos (digits_value (c ∷ cs) 0)

-- The nearest number that a `long` holds.
abbrev pub to_long : ℤ → ℤ
to_long (pos n) = pos (if ltb n (2 ^ 63) then n else 2 ^ 63 - 1)
to_long (negsuc n) = negsuc (if ltb n (2 ^ 63) then n else 2 ^ 63 - 1)

-- atoi of such a text. C leaves it open what a number that no `int` holds gives; this is what strtol and
-- a conversion give.
pub atoi : List ℕ → ℤ
atoi cs = i32 (u32 (to_long (number_of cs)))

-- `array[i] = v`
abbrev pub write_at {ℓ} : {A : Type ℓ} → List A → ℤ → A → Option (List A)
write_at xs (negsuc n) v = none
write_at xs (pos i) v = if ltb i (length xs) then some (set xs i v) else none

abbrev pub increment : ℤ → ℤ
increment (pos n) = pos (n + 1)
increment (negsuc zero) = pos 0
increment (negsuc (suc n)) = negsuc n

-- The first part of the branch for a digit or '-'.
abbrev pub begin_number : Parser → Parser
begin_number p =
    if p.in_number
    then p
    else record p { in_number = true; char_idx = pos 0; number = replicate num_chars_in_int64 0 }

-- `number[char_idx++] = ch;` if there is room.
pub put_char : ℕ → Parser → Option Parser
put_char ch p =
    if ltb_ℤ p.char_idx (pos (num_chars_in_int64 - 1))
    then elim (write_at p.number p.char_idx ch) [
      | none ↦ none
      | some number ↦ some (record p { number = number; char_idx = increment p.char_idx })
    ]
    else some p

-- `nums[num_index++] = value;`
pub put_num : ℤ → Parser → Option Parser
put_num value p = elim (write_at p.nums p.num_index value) [
  | none ↦ none
  | some nums ↦ some (record p { nums = nums; num_index = increment p.num_index })
]

-- The branch for a comma.
pub end_number : Parser → Option Parser
end_number p = elim (write_at p.number p.char_idx 0) [
  | none ↦ none
  | some number ↦ put_num (atoi number) (record p { number = number; in_number = false })
]

-- The body of the loop.
pub take_char : ℕ → Parser → Option Parser
take_char ch p =
    if is_digit ch || ch == 45
    then put_char ch (begin_number p)
    else if ch == 44
    then end_number p
    else some p

-- The loop, over the bytes that read gives.
pub read_loop : List ℕ → Parser → Option Parser
read_loop [] p = some p
read_loop (ch ∷ chars) p = elim (take_char ch p) [
  | none ↦ if ltb_ℤ p.num_index (pos 10) then none else some p
  | some p' ↦ let rest = read_loop chars p' in if ltb_ℤ p.num_index (pos 10) then rest else some p
]

-- The copy of a number without its commas.
pub clean : List ℕ → List ℕ
clean [] = []
clean (c ∷ cs) = if c == 44 then clean cs else c ∷ clean cs

abbrev pub pos_value : ℤ → ℕ
pos_value (pos n) = n
pos_value (negsuc n) = 0

-- The last number of the file, after which no comma comes.
pub last_number : Parser → Option Parser
last_number p =
    if p.in_number && ltb_ℤ p.num_index (pos 10) && ltb_ℤ (pos 0) p.char_idx
    then elim (write_at p.number p.char_idx 0) [
      | none ↦ none
      | some number ↦
          put_num (atoi (clean (take (pos_value p.char_idx) number))) (record p { number = number })
    ]
    else some p

abbrev pub first_state : ℤ → ℤ → List ℕ → Parser
first_state char_idx num_index number = record {
  nums = replicate 7 (pos 0);
  number = number;
  char_idx = char_idx;
  num_index = num_index;
  in_number = false;
}

-- The numbers that main shows and sorts.
pub parse : ℤ → ℤ → List ℕ → List ℕ → Option (List ℤ)
parse char_idx num_index number chars =
    elim (read_loop chars (first_state char_idx num_index number)) [
      | none ↦ none
      | some p ↦ elim (last_number p) [ none ↦ none | some p' ↦ some p'.nums ]
    ]
