-- ===== src/NumFile/Bounds.antt =====
-- The steps of the parser of homework3/array that stay within its arrays, and the one that does not.
use linux_c_homeworks.Prelude.{
  ℕ, ◌+◌, ◌-◌, ◌≤◌, ◌<◌, ◌≡◌, refl, ap, ◌∙◌, true, false, none, some, List, [], ◌∷◌, ltb, ◌==◌,
  ◌||◌, if◌then◌else◌, arith, length, set, replicate, length-set, length-replicate, Bool-cases, inl,
  inr,
}
use linux_c_homeworks.Prelude.Int.{ℤ, pos, ltb_ℤ}
use linux_c_homeworks.NumFile.{
  num_chars_in_int64, Parser, is_digit, atoi, write_at, increment, begin_number, put_char, put_num,
  end_number, take_char,
}

-- The indices are in range, with n numbers stored.
pub record InRange (p : Parser) (n c : ℕ) : Type 0 where
  pub seven : length p.nums ≡ 7
  pub chars : length p.number ≡ num_chars_in_int64
  pub next_num : p.num_index ≡ pos n
  pub next_char : p.char_idx ≡ pos c
  pub char_fits : c < num_chars_in_int64

pub write_at-in {ℓ} :
    {A : Type ℓ} (xs : List A) (z : ℤ) (i : ℕ) (v : A)
    → z ≡ pos i
    → i < length xs
    → write_at xs z v ≡ some (set xs i v)
write_at-in xs z i v e h =
    let inside : ltb i (length xs) ≡ true = ground arith in rw (e, inside) refl

write_at-out {ℓ} :
    {A : Type ℓ} (xs : List A) (z : ℤ) (i : ℕ) (v : A)
    → z ≡ pos i
    → length xs ≤ i
    → write_at xs z v ≡ none
write_at-out xs z i v e h =
    let outside : ltb i (length xs) ≡ false = ground arith in rw (e, outside) refl

-- Storing a number: there is room for seven.
pub put_num-InRange :
    (v : ℤ) (p : Parser) (n c : ℕ)
    → InRange p n c
    → n < 7
    → (p' : Parser) × (put_num v p ≡ some p') × InRange p' (n + 1) c
unfolding put_num
put_num-InRange v p n c r h = (
  record p { nums = set p.nums n v; num_index = increment p.num_index },
  (let e = write_at-in p.nums p.num_index n v r.next_num (omega (arith, r.seven)) in
      rw (e, put_num) refl),
  record {
    seven = length-set p.nums n v ∙ r.seven;
    chars = r.chars;
    next_num = rw (r.next_num) refl;
    next_char = r.next_char;
    char_fits = r.char_fits;
  },
)

put_num-full : (v : ℤ) (p : Parser) (c : ℕ) → InRange p 7 c → put_num v p ≡ none
unfolding put_num
put_num-full v p c r =
    let e = write_at-out p.nums p.num_index 7 v r.next_num (omega (arith, r.seven)) in
    rw (e, put_num) refl

-- The parser with the end of the string in its number.
abbrev ended : Parser → ℕ → Parser
ended p c = record p { number = set p.number c 0; in_number = false }

ended-InRange : (p : Parser) (n c : ℕ) → InRange p n c → InRange (ended p c) n c
ended-InRange p n c r = record {
  seven = r.seven;
  chars = length-set p.number c 0 ∙ r.chars;
  next_num = r.next_num;
  next_char = r.next_char;
  char_fits = r.char_fits;
}

end_number_eq :
    (p : Parser) (n c : ℕ)
    → InRange p n c
    → end_number p ≡ put_num (atoi (set p.number c 0)) (ended p c)
unfolding end_number
end_number_eq p n c r =
    let e = write_at-in p.number p.char_idx c 0 r.next_char (omega (arith, r.chars, r.char_fits)) in
    rw (e, end_number) refl

begin_number-InRange :
    (p : Parser) (n c : ℕ) → InRange p n c → (c' : ℕ) × InRange (begin_number p) n c'
begin_number-InRange p n c r =
    elim p.in_number
      as (λ going.
        (c' : ℕ) × InRange
          (if going then p else record p {
            in_number = true;
            char_idx = pos 0;
            number = replicate num_chars_in_int64 0;
          })
          n c') [
            | true ↦ (c, r)
            | false ↦ (
              0,
              record {
                seven = r.seven;
                chars = length-replicate {A = ℕ} num_chars_in_int64 0;
                next_num = r.next_num;
                next_char = refl;
                char_fits = omega arith;
              },
            )
          ]

put_char-InRange :
    (ch : ℕ) (p : Parser) (n c : ℕ)
    → InRange p n c
    → (p' : Parser) × (c' : ℕ) × (put_char ch p ≡ some p') × InRange p' n c'
unfolding put_char
put_char-InRange ch p n c r = elim (Bool-cases (ltb_ℤ p.char_idx (pos (num_chars_in_int64 - 1)))) [
  | inl room ↦
      let fits : c + 1 < num_chars_in_int64 = ground (arith, rw (r.next_char) at room) in
      let e = write_at-in p.number p.char_idx c ch r.next_char (omega (arith, r.chars, fits)) in
      (
        record p { number = set p.number c ch; char_idx = increment p.char_idx },
        c + 1,
        rw (room, e, put_char) refl,
        record {
          seven = r.seven;
          chars = length-set p.number c ch ∙ r.chars;
          next_num = r.next_num;
          next_char = rw (r.next_char) refl;
          char_fits = fits;
        },
      )
  | inr full ↦ (p, c, rw full refl, r)
]

abbrev pub commas : List ℕ → ℕ
commas [] = 0
commas (ch ∷ chars) = (if ch == 44 then 1 else 0) + commas chars

pub take_other :
    (ch : ℕ) (p : Parser) (n c : ℕ)
    → InRange p n c
    → (ch == 44) ≡ false
    → (p' : Parser) × (c' : ℕ) × (take_char ch p ≡ some p') × InRange p' n c'
unfolding take_char
take_other ch p n c r other = elim (Bool-cases (is_digit ch || ch == 45)) [
  | inl in_number ↦
      let (c', r') = begin_number-InRange p n c r in
      rw in_number (put_char-InRange ch (begin_number p) n c' r')
  | inr skipped ↦ (p, c, rw (skipped, other) refl, r)
]

take_comma : (p : Parser) → take_char 44 p ≡ end_number p
unfolding take_char
take_comma p = refl

pub comma_InRange :
    (ch : ℕ) (p : Parser) (n c : ℕ)
    → InRange p n c
    → (ch == 44) ≡ true
    → n < 7
    → (p' : Parser) × (take_char ch p ≡ some p') × InRange p' (n + 1) c
comma_InRange ch p n c r comma h =
    let e : ch ≡ 44 = ground arith in
    let (p', run, r') =
      put_num-InRange (atoi (set p.number c 0)) (ended p c) n c (ended-InRange p n c r) h in
    (p', ap (λ x. take_char x p) e ∙ take_comma p ∙ end_number_eq p n c r ∙ run, r')

pub comma_full :
    (ch : ℕ) (p : Parser) (c : ℕ) → InRange p 7 c → (ch == 44) ≡ true → take_char ch p ≡ none
comma_full ch p c r comma =
    let e : ch ≡ 44 = ground arith in
    ap (λ x. take_char x p) e
    ∙ take_comma p
    ∙ end_number_eq p 7 c r
    ∙ put_num-full (atoi (set p.number c 0)) (ended p c) c (ended-InRange p 7 c r)
