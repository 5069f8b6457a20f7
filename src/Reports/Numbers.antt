-- ===== src/Reports/Numbers.antt =====
-- What node_read of module_interface gives to the program.
use linux_c_homeworks.Prelude.{
  ℕ, zero, suc, ◌+◌, ◌-◌, ◌*◌, ◌%◌, ◌^◌, ◌<◌, ◌≡◌, refl, ap, sym, ◌∙◌, Bool, true, false, none,
  some, List, [], ◌∷◌, ◌++◌, ltb, leb, ◌==◌, arith, length, length-append, get_elem?,
}
use mathlib.Core.List.{append_assoc, append-nil}
use linux_c_homeworks.Prelude.Int.{ℤ, pos}
use linux_c_homeworks.Prelude.Words.{i64}
use linux_c_homeworks.Reports.{
  max_buffer_size, snprintf_text, format_loop, copy_text, interface_read,
}

-- The lines of a list of numbers.
abbrev pub all_lines : (ℤ → List ℕ) → List ℤ → List ℕ
all_lines line [] = []
all_lines line (z ∷ zs) = line z ++ all_lines line zs

-- From the index i on, the array holds the numbers zs.
abbrev pub Holds : List ℤ → ℕ → List ℤ → Type 0
Holds nums_array i zs = (k : ℕ) → k < length zs → get_elem? nums_array (i + k) ≡ get_elem? zs k

Holds-next :
    (nums_array : List ℤ) (i : ℕ) (z : ℤ) (zs : List ℤ)
    → Holds nums_array i (z ∷ zs)
    → Holds nums_array (i + 1) zs
Holds-next nums_array i z zs holds k h =
    let e : i + 1 + k ≡ i + suc k = omega arith in rw e (holds (suc k) (omega arith))

Holds-first :
    (nums_array : List ℤ) (i : ℕ) (z : ℤ) (zs : List ℤ)
    → Holds nums_array i (z ∷ zs)
    → get_elem? nums_array i ≡ some z
Holds-first nums_array i z zs holds =
    let e : i + 0 ≡ i = omega arith in rw e at (holds 0 (omega arith))

module _ (line : ℤ → List ℕ) (visible : (z : ℤ) → 0 < length (line z)) where
  -- One round in which the line fits.
  format_step :
      (nums_array : List ℤ) (rounds i : ℕ) (z : ℤ) (text : List ℕ)
      → get_elem? nums_array i ≡ some z
      → length text + length (line z) < max_buffer_size
      → format_loop line nums_array (suc rounds) i (length text) text
        ≡ format_loop line nums_array rounds
            (i + 1)
            (length text + length (line z))
            (text ++ line z)
  unfolding format_loop
  format_step nums_array rounds i z text found h =
      let room : ltb (length text) max_buffer_size ≡ true = ground arith in
      let fits : ltb (length (line z)) (max_buffer_size - length text) ≡ true = ground arith in
      let goes_on : (length (line z) == 0) ≡ false = ground (arith, visible z) in
      rw (room, found, format_loop, fits, goes_on) refl

  format_loop_lem :
      (nums_array zs : List ℤ) (more i : ℕ) (text : List ℕ)
      → Holds nums_array i zs
      → length text + length (all_lines line zs) < max_buffer_size
      → format_loop line nums_array (length zs + more) i (length text) text
        ≡ format_loop line nums_array more
            (i + length zs)
            (length (text ++ all_lines line zs))
            (text ++ all_lines line zs)
  format_loop_lem nums_array [] more i text holds h =
      let e₁ : i + 0 ≡ i = omega arith in
      let e₂ : 0 + more ≡ more = omega arith in rw (append-nil text, e₁, e₂) refl
  format_loop_lem nums_array (z ∷ zs) more i text holds h =
      let e₁ : suc (length zs) + more ≡ suc (length zs + more) = omega arith in
      let e₂ : i + suc (length zs) ≡ i + 1 + length zs = omega arith in
      let lengths = length-append (line z) (all_lines line zs) in
      rw (e₁, e₂, sym (append_assoc text (line z) (all_lines line zs)))
        (format_step nums_array (length zs + more) i z text (Holds-first nums_array i z zs holds)
            (omega (arith, lengths))
          ∙ rw (sym (length-append text (line z))) (
              format_loop_lem nums_array zs more (i + 1) (text ++ line z)
                (Holds-next nums_array i z zs holds)
                (omega (arith, lengths, length-append text (line z)))))

get_elem?-append :
    (zs ws : List ℤ) (k : ℕ) → k < length zs → get_elem? (zs ++ ws) k ≡ get_elem? zs k
get_elem?-append [] ws k h = absurd (omega arith)
get_elem?-append (z ∷ zs) ws zero h = refl
get_elem?-append (z ∷ zs) ws (suc k) h = get_elem?-append zs ws k (omega arith)

get_elem?-append_at :
    (zs : List ℤ) (w : ℤ) (ws : List ℤ) → get_elem? (zs ++ (w ∷ ws)) (length zs) ≡ some w
get_elem?-append_at [] w ws = refl
get_elem?-append_at (z ∷ zs) w ws = get_elem?-append_at zs w ws

Holds-append : (zs ws : List ℤ) → Holds (zs ++ ws) 0 zs
Holds-append zs ws k h = let e : 0 + k ≡ k = omega arith in rw e (get_elem?-append zs ws k h)

-- The state of the loop after the numbers zs of the array zs ++ ws.
pub format_prefix :
    (line : ℤ → List ℕ)
    → ((z : ℤ) → 0 < length (line z))
    → (zs ws : List ℤ) (more : ℕ) → length (all_lines line zs) < max_buffer_size
    → format_loop line (zs ++ ws) (length zs + more) 0 0 []
      ≡ format_loop line
          (zs ++ ws)
          more
          (length zs)
          (length (all_lines line zs))
          (all_lines line zs)
format_prefix line visible zs ws more h =
    let e : 0 + length zs ≡ length zs = omega arith in
    rw e at
      (format_loop_lem line visible (zs ++ ws) zs more 0 [] (Holds-append zs ws) (omega arith))

-- The round in which the line does not fit is the last one.
format_overflow :
    (line : ℤ → List ℕ) (nums_array : List ℤ) (z : ℤ) (more i copied : ℕ) (text : List ℕ)
    → get_elem? nums_array i ≡ some z
    → copied < max_buffer_size
    → max_buffer_size < copied + length (line z)
    → format_loop line nums_array (suc more) i copied text
      ≡ some (copied + length (line z), text ++ snprintf_text (max_buffer_size - copied) (line z))
unfolding format_loop
format_overflow line nums_array z zero i copied text found h over =
    let room : ltb copied max_buffer_size ≡ true = ground arith in
    let goes_on : (length (line z) == 0) ≡ false = ground arith in
    rw (room, found, format_loop, goes_on) refl
format_overflow line nums_array z (suc more) i copied text found h over =
    let room : ltb copied max_buffer_size ≡ true = ground arith in
    let full : ltb (copied + length (line z)) max_buffer_size ≡ false = ground arith in
    let goes_on : (length (line z) == 0) ≡ false = ground arith in
    rw (room, found, format_loop, full, goes_on) refl

all_lines-visible :
    (line : ℤ → List ℕ)
    → ((z : ℤ) → 0 < length (line z))
    → (nums : List ℤ) → 0 < length nums
    → 0 < length (all_lines line nums)
all_lines-visible line visible [] h = absurd (omega arith)
all_lines-visible line visible (z ∷ zs) h =
    omega (arith, visible z, length-append (line z) (all_lines line zs))

pub interface_read_eq :
    (line : ℤ → List ℕ) (fault : Bool) (nums_array : List ℤ) (amount len offset : ℕ)
    → amount < 2 ^ 31
    → offset < amount * 4
    → interface_read line fault (some nums_array) (pos amount) len offset
      ≡ copy_text line fault len offset (format_loop line nums_array amount 0 0 [])
unfolding interface_read
interface_read_eq line fault nums_array amount len offset small inside =
    let e : leb (amount % 2 ^ 64 * 4 % 2 ^ 64) offset ≡ false = ground arith in rw e refl

-- node_read of module_interface where every line has at least one byte and the lines of all the numbers fit
-- in tmp_buffer, if copy_to_user succeeds, at any offset
-- below the size of the array in bytes: it gives the program all the lines from the first one on,
-- and moves the offset by their length. Neither the bytes nor the move depend on the length that the
-- program asked for, which is what the call returns.
pub interface_read_lem :
    (line : ℤ → List ℕ) (nums : List ℤ) (len offset : ℕ)
    → ((z : ℤ) → 0 < length (line z))
    → length nums < 2 ^ 31
    → offset < length nums * 4
    → length (all_lines line nums) < max_buffer_size
    → interface_read line false (some nums) (pos (length nums)) len offset
      ≡ some (record {
        code = i64 len;
        bytes = all_lines line nums;
        offset = offset + length (all_lines line nums);
      })
unfolding copy_text format_loop
interface_read_lem line nums len offset visible small inside fits =
    let e : length nums + 0 ≡ length nums = omega arith in
    let run = rw (e, append-nil nums) at (format_prefix line visible nums [] 0 fits) in
    let some_text = all_lines-visible line visible nums (omega (arith, inside)) in
    let e₁ : (length (all_lines line nums) == 0) ≡ false = ground arith in
    let e₂ : ltb max_buffer_size (length (all_lines line nums)) ≡ false = ground arith in
    interface_read_eq line false nums (length nums) len offset small inside
    ∙ ap (copy_text line false len offset) run
    ∙ rw (e₁, e₂) refl

-- If the line of some number begins inside tmp_buffer and ends past it, node_read of module_interface
-- copies bytes behind tmp_buffer to the program: the loop adds what snprintf would have written.
pub interface_read_past :
    (line : ℤ → List ℕ) (fault : Bool) (zs : List ℤ) (z : ℤ) (ws : List ℤ) (len offset : ℕ)
    → ((z : ℤ) → 0 < length (line z))
    → length zs + 1 + length ws < 2 ^ 31
    → offset < (length zs + 1 + length ws) * 4
    → length (all_lines line zs) < max_buffer_size
    → max_buffer_size < length (all_lines line zs) + length (line z)
    → interface_read line fault (some (zs ++ (z ∷ ws))) (pos (length zs + 1 + length ws)) len offset
      ≡ none
unfolding copy_text
interface_read_past line fault zs z ws len offset visible small inside begins ends =
    let e : length zs + 1 + length ws ≡ length zs + suc (length ws) = omega arith in
    let e₁ : (length (all_lines line zs) + length (line z) == 0) ≡ false = ground arith in
    let e₂ : ltb max_buffer_size (length (all_lines line zs) + length (line z)) ≡ true =
      ground arith in
    interface_read_eq line fault (zs ++ (z ∷ ws)) (length zs + 1 + length ws) len offset small
      inside
    ∙ ap (λ n. copy_text line fault len offset (format_loop line (zs ++ (z ∷ ws)) n 0 0 [])) e
    ∙ ap (copy_text line fault len offset) (
        format_prefix line visible zs (z ∷ ws) (suc (length ws)) begins
        ∙ format_overflow line (zs ++ (z ∷ ws)) z (length ws) (length zs)
            (length (all_lines line zs)) (all_lines line zs) (get_elem?-append_at zs z ws) begins
            ends)
    ∙ rw (e₁, e₂) refl
