-- ===== src/Socket/Tests.antt =====
-- A client that sends "hi" and "quit", and a reply that is too long.
use linux_c_homeworks.Prelude.{ℕ, ◌≡◌, refl, true, false, none, List, [], ◌∷◌, replicate}
use linux_c_homeworks.Prelude.Int.{pos, negsuc}
use linux_c_homeworks.Lines.Buffers.{before_newline, after_newline}
use linux_c_homeworks.Shmem.{c_string}
use linux_c_homeworks.Socket.{is_quit, Answers, serve}
use linux_c_homeworks.Socket.Replies.{lines_fit, replies_typed, Replies, serve_lem}

abbrev messages : List (List ℕ)
messages = (104 ∷ 105 ∷ []) ∷ (113 ∷ 117 ∷ 105 ∷ 116 ∷ 10 ∷ []) ∷ []

abbrev typed : List ℕ
typed = 111 ∷ 107 ∷ 10 ∷ []

one_reply : replies_typed messages typed ≡ (111 ∷ 107 ∷ 10 ∷ []) ∷ []
unfolding replies_typed before_newline after_newline is_quit c_string
one_reply = refl

typed_fits : lines_fit messages typed ≡ true
unfolding lines_fit before_newline after_newline is_quit c_string
typed_fits = refl

long_does_not : lines_fit messages (replicate 300 97) ≡ false
unfolding lines_fit before_newline after_newline is_quit c_string
long_does_not = refl

serve_lem_example :
    (lines_fit messages typed ≡ true
      → Replies (replies_typed messages typed) (serve messages typed (replicate 256 0)))
    × (lines_fit messages typed ≡ false → serve messages typed (replicate 256 0) ≡ none)
serve_lem_example = serve_lem messages typed (replicate 256 0) refl

abbrev no_client : Answers
no_client = record { socket = pos 3; bind = pos 0; accept = negsuc 0 }
