-- ===== src/Chat/Tests.antt =====
-- Two clients of the chat, and the theorems about it at states they reach.
use linux_c_homeworks.Prelude.{ℕ, ◌+◌, ◌≡◌, ◌<◌, ◌⊎◌, refl, true, false, some, List, [], ◌∷◌}
use linux_c_homeworks.Prelude.Int.{ℤ, pos, ltb_ℤ, eqb_ℤ}
use linux_c_homeworks.Chat.{
  Server, initial, serving, ready, main_round, count_client, begin, message, write_loop,
}
use linux_c_homeworks.Chat.Places.{
  Smooth, smooth_start, smooth_main, smooth_count, smooth_begin, has, message_lem,
}

-- Client 1 is served before main has counted it.
two : Server
two =
    begin 1
      (main_round (ready (pos 8)) (begin 0 (count_client (main_round (ready (pos 7)) initial))))

three : Server
three = begin 2 (count_client (main_round (ready (pos 9)) (count_client two)))

two-Smooth : Smooth two
unfolding two main_round count_client begin
two-Smooth =
    smooth_begin 1
      (smooth_main (ready (pos 8))
        (smooth_begin 0 (smooth_count (smooth_main (ready (pos 7)) smooth_start refl refl) refl)
          refl)
        refl refl)
      refl

three-Smooth : Smooth three
unfolding three two main_round count_client begin
three-Smooth =
    smooth_begin 2
      (smooth_count (smooth_main (ready (pos 9)) (smooth_count two-Smooth refl) refl refl) refl)
      refl

first_serves : (three.clients 0).phase ≡ serving
unfolding three two main_round count_client begin
first_serves = refl

-- The second client is served and not counted, and gets nothing.
from_first : message 0 two ≡ some []
unfolding two main_round count_client begin message write_loop
from_first = refl

from_first_of_three : message 0 three ≡ some (pos 8 ∷ pos 9 ∷ [])
unfolding three two main_round count_client begin message write_loop
from_first_of_three = refl

message_lem_example :
    (targets : List ℤ) × (message 0 three ≡ some targets)
    × ((j : ℕ)
        → (three.clients j).phase ≡ serving
        → j < three.clients_num
        → ltb_ℤ (pos 0) (three.clients j).socket ≡ true
        → eqb_ℤ (three.clients j).socket (three.clients 0).socket ≡ false
        → has (three.clients j).socket targets ≡ true)
    × (has (three.clients 0).socket targets ≡ false)
    × ((j : ℕ)
        → (three.clients j).phase ≡ serving
        → (j < three.clients_num) ⊎ ((three.is_creating ≡ true) × (j ≡ three.clients_num)))
message_lem_example = message_lem three-Smooth 0 first_serves

-- All five places given, and then the first client leaves.
abbrev full : Server
full = record initial {
  clients_num = 5;
  threads = 5;
  clients = λ k. record { phase = serving; client_id = k; socket = pos (k + 4) };
}
