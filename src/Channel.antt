-- ===== src/Channel.antt =====
-- What a conversation through a block of shared memory is to do, whatever keeps the two processes
-- apart: a place for one text. The client may put a text there when it is empty, and the server takes
-- it out. linux_c_development/homework6/example3 has two programs that are to do this, one with locks
-- and one with semaphores.
use linux_c_homeworks.Prelude.{ℕ, ◌≡◌, Option, none, some, List, ◌∷◌, ◌⊎◌}

-- The text that waits, and the texts put and taken so far, the latest first.
pub record Channel : Type 0 where
  pub slot : Option (List ℕ)
  pub sent : List (List ℕ)
  pub heard : List (List ℕ)

unfoldable pub say : List ℕ → Channel → Option Channel
say text c = elim c.slot [
  | none ↦ some (record { slot = some text; sent = text ∷ c.sent; heard = c.heard })
  | some other ↦ none
]

unfoldable pub hear : Channel → Option Channel
hear c = elim c.slot [
  | none ↦ none
  | some text ↦ some (record { slot = none; sent = c.sent; heard = text ∷ c.heard })
]

-- A step that the channel does not see, or one that takes the text out.
abbrev pub Serves : Channel → Channel → Type 0
Serves c d = (d ≡ c) ⊎ (hear c ≡ some d)

-- A step that the channel does not see, or one that puts a text.
abbrev pub Asks : List ℕ → Channel → Channel → Type 0
Asks text c d = (d ≡ c) ⊎ (say text c ≡ some d)
