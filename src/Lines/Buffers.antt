-- ===== src/Lines/Buffers.antt =====
-- What the three ways to read a line leave in the array, and when they write past its end.
use linux_c_homeworks.Prelude.{
  length, set, length-set, ℕ, zero, suc, ◌+◌, ◌≤◌, ◌≡◌, refl, ◌∙◌, List, [], ◌∷◌, true, false,
  Option, some, ◌==◌, arith, Bool-cases, inl, inr,
}
use linux_c_homeworks.Lines.{newline, eof, store, Stop, form_loop, read_loop}
use linux_c_homeworks.Lines.Stores.{lay, lay-nil, lay-set, store_inside}

-- The characters before the newline, at most n; past the end of the input, EOF.
unfoldable pub before_newline : ℕ → List ℕ → List ℕ
before_newline zero input = []
before_newline (suc n) [] = eof ∷ before_newline n []
before_newline (suc n) (c ∷ input) = elim (c == newline) [
  | true ↦ []
  | false ↦ c ∷ before_newline n input
]

-- What is left of the input.
unfoldable pub after_newline : ℕ → List ℕ → List ℕ
after_newline zero input = input
after_newline (suc n) [] = after_newline n []
after_newline (suc n) (c ∷ input) = elim (c == newline) [
  | true ↦ input
  | false ↦ after_newline n input
]

pub length-before_newline : (n : ℕ) (input : List ℕ) → length (before_newline n input) ≤ n
unfolding before_newline
length-before_newline zero input = omega arith
length-before_newline (suc n) [] = omega (arith, length-before_newline n [])
length-before_newline (suc n) (c ∷ input) = ground (arith, length-before_newline n input)

-- The state in which a loop stops that stores xs from i on.
abbrev pub stops : ℕ → List ℕ → List ℕ → List ℕ → Option Stop
stops i xs buffer input =
    some (record { index = i + length xs; buffer = lay i xs buffer; input = input })

pub stops_step :
    (i c : ℕ) (xs buffer input : List ℕ)
    → stops (i + 1) xs (set buffer i c) input ≡ stops i (c ∷ xs) buffer input
stops_step i c xs buffer input =
    let e : i + 1 + length xs ≡ i + length (c ∷ xs) = omega arith in
    rw (lay-set i c xs buffer, e) refl

pub stops_now :
    (i : ℕ) (buffer input : List ℕ)
    → some (record { index = i; buffer = buffer; input = input }) ≡ stops i [] buffer input
stops_now i buffer input = let e : i + 0 ≡ i = omega arith in rw (e, lay-nil i buffer) refl

pub room :
    (n i c : ℕ) (buffer : List ℕ) → i + suc n ≤ length buffer → i + 1 + n ≤ length (set buffer i c)
room n i c buffer h = omega (arith, length-set buffer i c)

pub inside :
    (n i c : ℕ) (buffer : List ℕ)
    → i + suc n ≤ length buffer
    → store buffer i c ≡ some (set buffer i c)
inside n i c buffer h = store_inside buffer i c (omega arith)

pub form_loop_lem :
    (n i : ℕ) (buffer input : List ℕ)
    → i + n ≤ length buffer
    → form_loop n i buffer input ≡ stops i (before_newline n input) buffer (after_newline n input)
unfolding form_loop before_newline after_newline
form_loop_lem zero i buffer input h = stops_now i buffer input
form_loop_lem (suc n) i buffer [] h =
    rw (inside n i eof buffer h, form_loop)
      (form_loop_lem n (i + 1) (set buffer i eof) [] (room n i eof buffer h)
        ∙ stops_step i eof (before_newline n []) buffer (after_newline n []))
form_loop_lem (suc n) i buffer (c ∷ input) h = elim (Bool-cases (c == newline)) [
  | inl ends ↦ rw (ends, form_loop, before_newline, after_newline) (stops_now i buffer input)
  | inr goes ↦
      rw (goes, inside n i c buffer h, form_loop, before_newline, after_newline)
        (form_loop_lem n (i + 1) (set buffer i c) input (room n i c buffer h)
          ∙ stops_step i c (before_newline n input) buffer (after_newline n input))
]

-- The line with its newline.
unfoldable pub through_newline : ℕ → List ℕ → List ℕ
through_newline zero input = []
through_newline (suc n) [] = eof ∷ through_newline n []
through_newline (suc n) (c ∷ input) = elim (c == newline) [
  | true ↦ c ∷ []
  | false ↦ c ∷ through_newline n input
]

pub length-through_newline : (n : ℕ) (input : List ℕ) → length (through_newline n input) ≤ n
unfolding through_newline
length-through_newline zero input = omega arith
length-through_newline (suc n) [] = omega (arith, length-through_newline n [])
length-through_newline (suc n) (c ∷ input) = ground (arith, length-through_newline n input)

pub read_loop_lem :
    (n i : ℕ) (buffer input : List ℕ)
    → i + n ≤ length buffer
    → read_loop n i buffer input ≡ stops i (through_newline n input) buffer (after_newline n input)
unfolding read_loop through_newline after_newline
read_loop_lem zero i buffer input h = stops_now i buffer input
read_loop_lem (suc n) i buffer [] h =
    rw (inside n i eof buffer h, read_loop)
      (read_loop_lem n (i + 1) (set buffer i eof) [] (room n i eof buffer h)
        ∙ stops_step i eof (through_newline n []) buffer (after_newline n []))
read_loop_lem (suc n) i buffer (c ∷ input) h = elim (Bool-cases (c == newline)) [
  | inl ends ↦
      rw (inside n i c buffer h, ends, read_loop, through_newline, after_newline)
        (stops_now (i + 1) (set buffer i c) input ∙ stops_step i c [] buffer input)
  | inr goes ↦
      rw (inside n i c buffer h, goes, read_loop, through_newline, after_newline)
        (read_loop_lem n (i + 1) (set buffer i c) input (room n i c buffer h)
          ∙ stops_step i c (through_newline n input) buffer (after_newline n input))
]
