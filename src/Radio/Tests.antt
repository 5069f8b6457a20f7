-- ===== src/Radio/Tests.antt =====
-- A message of two characters, and two processes at the radio device.
use linux_c_homeworks.Prelude.{
  ℕ, ◌≡◌, refl, true, false, none, some, List, [], ◌∷◌, take, drop, replicate, arith, inl, inr,
}
use linux_c_homeworks.Prelude.Int.{pos}
use linux_c_homeworks.Chardev.{valid}
use linux_c_homeworks.Radio.{printed, radio_write}
use linux_c_homeworks.Radio.Message.{with_text, radio_write_lem}
use linux_c_homeworks.Radio.Sharing.{Node, Reach, start, tests, enters}

-- An array with no 0 in it: the log goes on behind the message.
abbrev dirty : List ℕ
dirty = replicate 512 88

radio_write_lem_example : radio_write dirty valid valid valid (104 ∷ 105 ∷ []) 2 ≡ record {
  code = pos 2;
  logged = some (with_text (take 2 (104 ∷ 105 ∷ [])) (printed (drop 2 dirty)));
}
radio_write_lem_example = radio_write_lem dirty (104 ∷ 105 ∷ []) 2 (omega arith) (omega arith) refl

runs_past : printed dirty ≡ none
unfolding printed
runs_past = refl

abbrev opened_once : Node
opened_once = record { radio_count = 1; entering = 0; users = 1 }

opened_once-Reach : Reach false opened_once
opened_once-Reach = enters (tests start (inr refl) refl) (omega arith)

-- Both test before either counts.
two_users : Reach true (record { radio_count = 2; entering = 0; users = 2 })
two_users =
    enters (enters (tests (tests start (inl refl) refl) (inl refl) refl) (omega arith))
      (omega arith)
