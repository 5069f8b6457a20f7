-- ===== src/NumFile/Parse.antt =====
-- When the program of homework3/array stays within its arrays.
use linux_c_homeworks.Prelude.{
  ℕ, ◌+◌, ◌≤◌, ◌<◌, ◌≡◌, refl, ◌∙◌, true, false, none, some, List, [], ◌∷◌, ◌==◌, ◌&&◌, arith,
  length, set, take, replicate, length-set, length-replicate, ℕ_discrete, Bool-cases, Option-cases,
  inl, inr,
}
use linux_c_homeworks.Prelude.Int.{ℤ, pos, ltb_ℤ}
use linux_c_homeworks.NumFile.{
  num_chars_in_int64, Parser, atoi, take_char, read_loop, clean, pos_value, last_number,
  first_state, parse,
}
use linux_c_homeworks.NumFile.Bounds.{
  InRange, write_at-in, put_num-InRange, commas, take_other, comma_InRange, comma_full,
}

-- The loop on a text whose commas number m in all.
read_loop-next :
    (ch : ℕ) (chars : List ℕ) (p p' : Parser) (n c : ℕ)
    → InRange p n c
    → n < 10
    → take_char ch p ≡ some p'
    → read_loop (ch ∷ chars) p ≡ read_loop chars p'
unfolding read_loop
read_loop-next ch chars p p' n c r h run =
    let room : ltb_ℤ p.num_index (pos 10) ≡ true = ground (arith, r.next_num) in
    rw (run, read_loop, room) refl

read_loop-stuck :
    (ch : ℕ) (chars : List ℕ) (p : Parser) (n c : ℕ)
    → InRange p n c
    → n < 10
    → take_char ch p ≡ none
    → read_loop (ch ∷ chars) p ≡ none
unfolding read_loop
read_loop-stuck ch chars p n c r h run =
    let room : ltb_ℤ p.num_index (pos 10) ≡ true = ground (arith, r.next_num) in
    rw (run, read_loop, room) refl

read_loop-InRange :
    (chars : List ℕ) (p : Parser) (n c : ℕ)
    → InRange p n c
    → n + commas chars ≤ 7
    → (p' : Parser) × (c' : ℕ) × (read_loop chars p ≡ some p') × InRange p' (n + commas chars) c'
unfolding read_loop
read_loop-InRange [] p n c r h = let e : n + 0 ≡ n = omega arith in (p, c, refl, rw e r)
read_loop-InRange (ch ∷ chars) p n c r h = elim (Bool-cases (ch == 44)) [
  | inl comma ↦
      let e : n + commas (ch ∷ chars) ≡ n + 1 + commas chars = rw comma (omega arith) in
      let (p₁, run, r₁) = comma_InRange ch p n c r comma (omega (arith, h, e)) in
      let (p', c', rest, r') = read_loop-InRange chars p₁ (n + 1) c r₁ (omega (arith, h, e)) in
      (p', c', read_loop-next ch chars p p₁ n c r (omega (arith, h, e)) run ∙ rest, rw e r')
  | inr other ↦
      let (p₁, c₁, run, r₁) = take_other ch p n c r other in
      let e : n + commas (ch ∷ chars) ≡ n + commas chars = rw other (omega arith) in
      let (p', c', rest, r') = read_loop-InRange chars p₁ n c₁ r₁ (omega (arith, h, e)) in
      (p', c', read_loop-next ch chars p p₁ n c r (omega (arith, h)) run ∙ rest, rw e r')
]

read_loop-over :
    (chars : List ℕ) (p : Parser) (n c : ℕ)
    → InRange p n c
    → n ≤ 7
    → 7 < n + commas chars
    → read_loop chars p ≡ none
read_loop-over [] p n c r h over = absurd (omega arith)
read_loop-over (ch ∷ chars) p n c r h over = elim (Bool-cases (ch == 44)) [
  | inl comma ↦
      let e : n + commas (ch ∷ chars) ≡ n + 1 + commas chars = rw comma (omega arith) in
      elim (ℕ_discrete n 7) [
        | yes last ↦
            let r₇ = rw last at r in
            read_loop-stuck ch chars p 7 c r₇ (omega arith) (comma_full ch p c r₇ comma)
        | no more ↦
            let (p₁, run, r₁) = comma_InRange ch p n c r comma (omega (arith, h, more)) in
            read_loop-next ch chars p p₁ n c r (omega (arith, h)) run
            ∙ read_loop-over chars p₁ (n + 1) c r₁ (omega (arith, h, more)) (omega (arith, over, e))
      ]
  | inr other ↦
      let e : n + commas (ch ∷ chars) ≡ n + commas chars = rw other (omega arith) in
      let (p₁, c₁, run, r₁) = take_other ch p n c r other in
      read_loop-next ch chars p p₁ n c r (omega (arith, h)) run
      ∙ read_loop-over chars p₁ n c₁ r₁ h (omega (arith, over, e))
]

last_number-InRange :
    (p : Parser) (n c : ℕ)
    → InRange p n c
    → n < 7
    → (p' : Parser) × (last_number p ≡ some p') × (length p'.nums ≡ 7)
unfolding last_number
last_number-InRange p n c r h =
    elim (Bool-cases (p.in_number && ltb_ℤ p.num_index (pos 10) && ltb_ℤ (pos 0) p.char_idx)) [
      | inl going ↦
          let e =
            write_at-in p.number p.char_idx c 0 r.next_char (omega (arith, r.chars, r.char_fits)) in
          let q = record p { number = set p.number c 0 } in
          let r' : InRange q n c = record {
            seven = r.seven;
            chars = length-set p.number c 0 ∙ r.chars;
            next_num = r.next_num;
            next_char = r.next_char;
            char_fits = r.char_fits;
          } in
          let (p', run, r₁) =
            put_num-InRange (atoi (clean (take (pos_value p.char_idx) (set p.number c 0)))) q n c r'
              h in
          (p', rw (going, e, last_number) run, r₁.seven)
      | inr done ↦ (p, rw done refl, r.seven)
    ]

module _ (c : ℕ) (number chars : List ℕ) where
  -- If the variables that are not initialised happen to be in range (num_index 0 and char_idx an
  -- index of `number`), a text with at most six commas is parsed within the arrays, and one with more
  -- than seven is not: the loop allows ten numbers, and `nums` has seven.
  pub parse_lem :
      c < num_chars_in_int64
      → length number ≡ num_chars_in_int64
      → (commas chars ≤ 6
          → (nums : List ℤ) × (parse (pos c) (pos 0) number chars ≡ some nums) × (length nums ≡ 7))
        × (7 < commas chars → parse (pos c) (pos 0) number chars ≡ none)
  unfolding parse
  parse_lem fits room =
      let r : InRange (first_state (pos c) (pos 0) number) 0 c = record {
        seven = length-replicate {A = ℤ} 7 (pos 0);
        chars = room;
        next_num = refl;
        next_char = refl;
        char_fits = fits;
      } in
      (
        λ few.
            let (p, c', run, r') =
              read_loop-InRange chars (first_state (pos c) (pos 0) number) 0 c r
                (omega (arith, few)) in
            let (p', last, seven) =
              last_number-InRange p (0 + commas chars) c' r' (omega (arith, few)) in
            (p'.nums, rw (run, parse, last) refl, seven),
        λ many.
            let run =
              read_loop-over chars (first_state (pos c) (pos 0) number) 0 c r (omega arith)
                (omega (arith, many)) in
            rw (run, parse) refl,
      )

read_loop-skips :
    (chars : List ℕ) (p : Parser) → ltb_ℤ p.num_index (pos 10) ≡ false → read_loop chars p ≡ some p
unfolding read_loop
read_loop-skips [] p full = refl
read_loop-skips (ch ∷ chars) p full = elim (Option-cases (take_char ch p)) [
  | inl stuck ↦ rw (stuck, read_loop, full) refl
  | inr (p', run) ↦ rw (run, read_loop, full) refl
]

-- If num_index happens to be 10 or more, the text is not looked at, and the array stays all 0.
pub parse_skips :
    (char_idx : ℤ) (n : ℕ) (number chars : List ℕ)
    → 10 ≤ n
    → parse char_idx (pos n) number chars ≡ some (replicate 7 (pos 0))
unfolding parse last_number
parse_skips char_idx n number chars h =
    let full : ltb_ℤ (pos n) (pos 10) ≡ false = ground arith in
    rw (read_loop-skips chars (first_state char_idx (pos n) number) full, parse) refl
