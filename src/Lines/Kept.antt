-- ===== src/Lines/Kept.antt =====
-- What a whole line is in the array, with the characters that end it.
use linux_c_homeworks.Prelude.{
  ℕ, zero, suc, ◌+◌, ◌<◌, ◌≡◌, refl, ◌∙◌, List, [], ◌∷◌, ◌++◌, Option, none, some, ◌==◌,
  if◌then◌else◌, arith, Bool-cases, inl, inr, length, set, length-set, length-append,
}
use linux_c_homeworks.Lines.{
  newline, eof, Stop, form_loop, form_end, form_msg, buf_size, send_loop, close_text, send_msg,
  read_line,
}
use linux_c_homeworks.Lines.Stores.{
  lay, length-lay, lay-set, store_inside, store-lay, store_outside, set-set, lay-one,
}
use linux_c_homeworks.Lines.Buffers.{
  before_newline, after_newline, through_newline, length-before_newline, length-through_newline,
  inside, form_loop_lem, read_loop_lem,
}

-- The array after a text and the 0 that ends it.
abbrev pub holds : List ℕ → List ℕ → List ℕ
holds xs buffer = lay zero (xs ++ (0 ∷ [])) buffer

close_text_lem :
    (k : ℕ) (xs buffer input : List ℕ)
    → k ≡ length xs
    → length xs < length buffer
    → close_text (record { index = k; buffer = lay zero xs buffer; input = input })
      ≡ some (record { index = k; buffer = holds xs buffer; input = input })
unfolding close_text
close_text_lem k xs buffer input e h = rw (store-lay k 0 xs buffer e h, close_text) refl

abbrev pub closed_up : Option Stop → Option Stop
closed_up none = none
closed_up (some s) = close_text s

-- A 0 written at i, over what the loop may have stored there.
closes_at :
    (i : ℕ) (buffer kept input : List ℕ)
    → set kept i 0 ≡ set buffer i 0
    → i < length kept
    → close_text (record { index = i; buffer = kept; input = input })
      ≡ some (record { index = i; buffer = lay i (0 ∷ []) buffer; input = input })
unfolding close_text
closes_at i buffer kept input e h =
    rw (store_inside kept i 0 h, e, lay-one i 0 buffer, close_text) refl

sent_step :
    (i c : ℕ) (xs buffer input : List ℕ)
    → ◌≡◌ {A = Option Stop}
        (some (record {
          index = i + 1 + length xs;
          buffer = lay (i + 1) (xs ++ (0 ∷ [])) (set buffer i c);
          input = input;
        }))
        (some (record {
          index = i + length (c ∷ xs);
          buffer = lay i ((c ∷ xs) ++ (0 ∷ [])) buffer;
          input = input;
        }))
sent_step i c xs buffer input =
    let e : i + 1 + length xs ≡ i + length (c ∷ xs) = omega arith in
    rw (lay-set i c (xs ++ (0 ∷ [])) buffer, e) refl

abbrev pub form_up : Option Stop → Option Stop
form_up none = none
form_up (some s) = form_end s

send_loop_lem :
    (n i : ℕ) (buffer input : List ℕ)
    → i + n < length buffer
    → closed_up (send_loop n i buffer input)
      ≡ some (record {
        index = i + length (before_newline n input);
        buffer = lay i (before_newline n input ++ (0 ∷ [])) buffer;
        input = after_newline n input;
      })
unfolding send_loop before_newline after_newline
send_loop_lem zero i buffer input h =
    let e : i + 0 ≡ i = omega arith in rw e (closes_at i buffer buffer input refl (omega arith))
send_loop_lem (suc n) i buffer [] h =
    rw (inside n i eof buffer (omega arith), send_loop)
      (send_loop_lem n (i + 1) (set buffer i eof) [] (omega (arith, length-set buffer i eof))
        ∙ sent_step i eof (before_newline n []) buffer (after_newline n []))
send_loop_lem (suc n) i buffer (c ∷ input) h = elim (Bool-cases (c == newline)) [
  | inl ends ↦
      let e : i + 0 ≡ i = omega arith in
      rw (inside n i c buffer (omega arith), ends, send_loop, before_newline, after_newline, e)
        (closes_at i buffer (set buffer i c) input (set-set buffer i c 0)
          (omega (arith, length-set buffer i c)))
  | inr goes ↦
      rw (inside n i c buffer (omega arith), goes, send_loop, before_newline, after_newline)
        (send_loop_lem n (i + 1) (set buffer i c) input (omega (arith, length-set buffer i c))
          ∙ sent_step i c (before_newline n input) buffer (after_newline n input))
]

form_end_lem :
    (k : ℕ) (xs buffer input : List ℕ)
    → k ≡ length xs
    → length xs < length buffer
    → form_end (record { index = k; buffer = lay zero xs buffer; input = input }) ≡ (
        if k + 1 == length buffer
        then none
        else some (record {
          index = k + 1;
          buffer = lay zero ((xs ++ (newline ∷ [])) ++ (0 ∷ [])) buffer;
          input = input;
        }))
unfolding form_end
form_end_lem k xs buffer input e h =
    let line = xs ++ (newline ∷ []) in
    let next : k + 1 ≡ length line = omega (arith, length-append xs (newline ∷ [])) in
    elim (Bool-cases (k + 1 == length buffer)) [
      | inl full ↦
          let past =
            store_outside (lay zero line buffer) (k + 1) 0
              (ground (arith, length-lay zero line buffer)) in
          rw (store-lay k newline xs buffer e h, past, full, form_end) refl
      | inr fits ↦
          let last = store-lay (k + 1) 0 line buffer next (ground arith) in
          rw (store-lay k newline xs buffer e h, last, fits, form_end) refl
    ]

-- A loop that keeps the newline fills no more than `limit` characters, and the 0 follows the line,
-- always inside an array of limit + 1 characters; only the line is taken from the input.
pub read_line_lem :
    (limit : ℕ) (buffer input : List ℕ)
    → length buffer ≡ limit + 1
    → read_line limit buffer input
      ≡ some (record {
        index = length (through_newline limit input);
        buffer = holds (through_newline limit input) buffer;
        input = after_newline limit input;
      })
unfolding read_line
read_line_lem limit buffer input h =
    let line = through_newline limit input in
    let e : 0 + length line ≡ length line = omega arith in
    rw (read_loop_lem limit 0 buffer input (omega arith), read_line, e)
      (close_text_lem (length line) line buffer (after_newline limit input) refl
        (omega (arith, length-through_newline limit input)))

sends :
    (n : ℕ) (buffer input : List ℕ)
    → n < length buffer
    → closed_up (send_loop n 0 buffer input)
      ≡ some (record {
        index = length (before_newline n input);
        buffer = holds (before_newline n input) buffer;
        input = after_newline n input;
      })
sends n buffer input h =
    let line = before_newline n input in
    let e : 0 + length line ≡ length line = omega arith in
    rw e at (send_loop_lem n 0 buffer input (omega arith))

-- SEND_MSG in an array of 512 characters: the body is the text before the newline, or the first 511
-- characters of a longer line, with a 0 after it, and nothing is written past the array.
pub send_msg_lem :
    (buffer input : List ℕ)
    → length buffer ≡ 512
    → send_msg buffer input
      ≡ some (record {
        index = length (before_newline 511 input);
        buffer = holds (before_newline 511 input) buffer;
        input = after_newline 511 input;
      })
unfolding send_msg
send_msg_lem buffer input h = sends 511 buffer input (omega arith)

forms :
    (n : ℕ) (buffer input : List ℕ)
    → length buffer ≡ n + 1
    → form_up (form_loop n 0 buffer input) ≡ (
        if length (before_newline n input) == n
        then none
        else some (record {
          index = length (before_newline n input) + 1;
          buffer = lay zero ((before_newline n input ++ (newline ∷ [])) ++ (0 ∷ [])) buffer;
          input = after_newline n input;
        }))
forms n buffer input h =
    let line = before_newline n input in
    let e : 0 + length line ≡ length line = omega arith in
    let full : (length line + 1 == length buffer) ≡ (length line == n) = ground arith in
    rw (form_loop_lem n 0 buffer input (omega arith), e)
      (form_end_lem (length line) line buffer (after_newline n input) refl
          (omega (arith, length-before_newline n input))
        ∙ rw full refl)

-- FORM_MSG in an array of 256 characters: where the line has fewer than 255 characters the array holds
-- it, with a newline and a 0 after it; where it has 255 or more, the 0 is written past the array.
pub form_msg_lem :
    (buffer input : List ℕ)
    → length buffer ≡ buf_size
    → form_msg buffer input ≡ (
        if length (before_newline 255 input) == 255
        then none
        else some (record {
          index = length (before_newline 255 input) + 1;
          buffer = lay zero ((before_newline 255 input ++ (newline ∷ [])) ++ (0 ∷ [])) buffer;
          input = after_newline 255 input;
        }))
unfolding form_msg
form_msg_lem buffer input h = forms 255 buffer input (omega arith)
