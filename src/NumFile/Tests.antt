-- ===== src/NumFile/Tests.antt =====
-- Texts, what the parser makes of them, and the theorems about it at these.
use linux_c_homeworks.Prelude.{
  ℕ, ◌≡◌, ◌≤◌, ◌<◌, refl, none, some, List, [], ◌∷◌, arith, length, replicate, length-replicate,
}
use linux_c_homeworks.Prelude.Int.{ℤ, pos, negsuc}
use linux_c_homeworks.NumFile.{
  num_chars_in_int64, parse, read_loop, take_char, put_char, put_num, end_number, last_number, atoi,
  number_of, digits_value, clean,
}
use linux_c_homeworks.NumFile.Bounds.{commas}
use linux_c_homeworks.NumFile.Parse.{parse_lem}

-- "-12,7"
abbrev text : List ℕ
text = 45 ∷ 49 ∷ 50 ∷ 44 ∷ 55 ∷ []

abbrev zeros : List ℕ
zeros = replicate num_chars_in_int64 0

two_numbers :
    parse (pos 0) (pos 0) zeros text
    ≡ some (negsuc 11 ∷ pos 7 ∷ pos 0 ∷ pos 0 ∷ pos 0 ∷ pos 0 ∷ pos 0 ∷ [])
unfolding parse read_loop take_char put_char put_num end_number last_number atoi number_of
    digits_value clean
two_numbers = refl

-- "4294967301"
too_great : atoi (52 ∷ 50 ∷ 57 ∷ 52 ∷ 57 ∷ 54 ∷ 55 ∷ 51 ∷ 48 ∷ 49 ∷ []) ≡ pos 5
unfolding atoi number_of digits_value
too_great = refl

parse_lem_example :
    (commas text ≤ 6
      → (nums : List ℤ) × (parse (pos 0) (pos 0) zeros text ≡ some nums) × (length nums ≡ 7))
    × (7 < commas text → parse (pos 0) (pos 0) zeros text ≡ none)
parse_lem_example =
    parse_lem 0 zeros text (omega arith) (length-replicate {A = ℕ} num_chars_in_int64 0)
