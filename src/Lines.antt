-- ===== src/Lines.antt =====
-- A line read from the terminal into a char array, three ways: FORM_MSG of
-- linux_c_development/homework8/chat/socket_server.c, SEND_MSG of
-- linux_c_development/homework6/chat/msgtypes.h, and the loops of the clients in
-- linux_c_development/homework6/example3 and homework7/random_numbers. The input is the list of the
-- characters to come; past its end getchar() returns EOF, which the array keeps as 255.
pub mod Stores
pub mod Buffers
pub mod Kept
mod Tests
use linux_c_homeworks.Prelude.{
  length, set, ℕ, zero, suc, ◌+◌, List, [], ◌∷◌, Bool, true, false, Option, none, some, ltb, ◌==◌,
  if◌then◌else◌,
}

abbrev pub newline : ℕ
newline = 10

abbrev pub eof : ℕ
eof = 255

-- A write past the end of the array has no meaning in C: `none`.
pub store : List ℕ → ℕ → ℕ → Option (List ℕ)
store buffer i c = if ltb i (length buffer) then some (set buffer i c) else none

-- Where a loop stopped: its index, the array, and the input that is left.
pub record Stop : Type 0 where
  pub index : ℕ
  pub buffer : List ℕ
  pub input : List ℕ

-- The loop of FORM_MSG, `n` rounds before i reaches its limit.
pub form_loop : ℕ → ℕ → List ℕ → List ℕ → Option Stop
form_loop zero i buffer input = some (record { index = i; buffer = buffer; input = input })
form_loop (suc n) i buffer [] = elim (store buffer i eof) [
  | none ↦ none
  | some next ↦ form_loop n (i + 1) next []
]
form_loop (suc n) i buffer (c ∷ input) = elim (c == newline) [
  | true ↦ some (record { index = i; buffer = buffer; input = input })
  | false ↦ elim (store buffer i c) [ none ↦ none | some next ↦ form_loop n (i + 1) next input ]
]

-- What FORM_MSG leaves: the array, msgsize as the index, and the input that is left.
pub form_end : Stop → Option Stop
form_end s = elim (store s.buffer s.index newline) [
  | none ↦ none
  | some kept ↦ elim (store kept (s.index + 1) 0) [
    | none ↦ none
    | some closed ↦ some (record { index = s.index + 1; buffer = closed; input = s.input })
  ]
]

abbrev pub buf_size : ℕ
buf_size = 256

pub form_msg : List ℕ → List ℕ → Option Stop
form_msg buffer input = elim (form_loop 255 0 buffer input) [ none ↦ none | some s ↦ form_end s ]

-- The loop of SEND_MSG, which stores the newline too and stays at it.
pub send_loop : ℕ → ℕ → List ℕ → List ℕ → Option Stop
send_loop zero i buffer input = some (record { index = i; buffer = buffer; input = input })
send_loop (suc n) i buffer [] = elim (store buffer i eof) [
  | none ↦ none
  | some next ↦ send_loop n (i + 1) next []
]
send_loop (suc n) i buffer (c ∷ input) = elim (store buffer i c) [
  | none ↦ none
  | some next ↦ elim (c == newline) [
    | true ↦ some (record { index = i; buffer = next; input = input })
    | false ↦ send_loop n (i + 1) next input
  ]
]

-- The 0 that ends the text.
pub close_text : Stop → Option Stop
close_text s = elim (store s.buffer s.index 0) [
  | none ↦ none
  | some closed ↦ some (record { index = s.index; buffer = closed; input = s.input })
]

pub send_msg : List ℕ → List ℕ → Option Stop
send_msg buffer input = elim (send_loop 511 0 buffer input) [ none ↦ none | some s ↦ close_text s ]

-- The loops of the clients, which keep the newline: the index goes on past it.
pub read_loop : ℕ → ℕ → List ℕ → List ℕ → Option Stop
read_loop zero i buffer input = some (record { index = i; buffer = buffer; input = input })
read_loop (suc n) i buffer [] = elim (store buffer i eof) [
  | none ↦ none
  | some next ↦ read_loop n (i + 1) next []
]
read_loop (suc n) i buffer (c ∷ input) = elim (store buffer i c) [
  | none ↦ none
  | some next ↦ elim (c == newline) [
    | true ↦ some (record { index = i + 1; buffer = next; input = input })
    | false ↦ read_loop n (i + 1) next input
  ]
]

-- The array has limit + 1 characters: MAXLEN is 512 or 64.
pub read_line : ℕ → List ℕ → List ℕ → Option Stop
read_line limit buffer input = elim (read_loop limit 0 buffer input) [
  | none ↦ none
  | some s ↦ close_text s
]
