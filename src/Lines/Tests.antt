-- ===== src/Lines/Tests.antt =====
-- Lines that are read: one of three characters, and one that is too long for FORM_MSG.
use linux_c_homeworks.Prelude.{ℕ, ◌≡◌, refl, List, [], ◌∷◌, none, some, replicate}
use linux_c_homeworks.Lines.{store, form_loop, form_end, form_msg, read_loop, close_text, read_line}

abbrev typed : List ℕ
typed = 104 ∷ 105 ∷ 10 ∷ 113 ∷ 10 ∷ []

abbrev long_line : List ℕ
long_line = replicate 300 97

read_hi :
    read_line 4 (replicate 5 0) typed
    ≡ some (record { index = 3; buffer = 104 ∷ 105 ∷ 10 ∷ 0 ∷ 0 ∷ []; input = 113 ∷ 10 ∷ [] })
unfolding read_line read_loop store close_text
read_hi = refl

too_long : form_msg (replicate 256 0) long_line ≡ none
unfolding form_msg form_loop store form_end
too_long = refl
