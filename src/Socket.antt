-- ===== src/Socket.antt =====
-- linux_c_development/homework8/chat/socket_server.c: a server for one client. What the calls that set up
-- the socket return is an argument, and so are the messages that the reads give.
pub mod Replies
mod Tests
use linux_c_homeworks.Prelude.{
  ℕ, zero, suc, ◌+◌, ◌≡◌, Bool, true, false, Option, none, some, List, [], ◌∷◌, ◌++◌, ltb, ◌==◌,
  ◌&&◌, length, take, if◌then◌else◌,
}
use linux_c_homeworks.Prelude.Int.{ℤ, pos, negsuc, ltb_ℤ}
use linux_c_homeworks.Lines.{Stop, form_msg}
use linux_c_homeworks.Lines.Stores.{lay}
use linux_c_homeworks.Shmem.{c_string}

-- strncmp(buf, "quit", 4) == 0
pub is_quit : List ℕ → Bool
is_quit (a ∷ b ∷ c ∷ d ∷ rest) = (a == 113) && (b == 117) && (c == 105) && (d == 116)
is_quit _ = false

-- What the loop leaves: the texts that it printed, the bytes that it wrote for each, and whether it ended
-- because the client was gone.
pub record Session : Type 0 where
  pub shown : List (List ℕ)
  pub replies : List (List ℕ)
  pub is_lost : Bool

abbrev pub lost : Session
lost = record { shown = []; replies = []; is_lost = true }

abbrev pub with_reply : List ℕ → List ℕ → Option Session → Option Session
with_reply text reply none = none
with_reply text reply (some s) =
    some (record s { shown = text ∷ s.shown; replies = reply ∷ s.replies })

-- The loop: a read of a message of at most 255 bytes, and the reply. `none` where FORM_MSG writes behind
-- the array. A read that gives no bytes ends it, as does the end of the list.
pub serve : List (List ℕ) → List ℕ → List ℕ → Option Session
serve [] input buf = some lost
serve (message ∷ messages) input buf = elim (length message == 0) [
  | true ↦ some lost
  | false ↦ elim (is_quit (c_string message)) [
    | true ↦ some (record { shown = c_string message ∷ []; replies = []; is_lost = false })
    | false ↦ elim (form_msg (lay zero (message ++ (0 ∷ [])) buf) input) [
      | none ↦ none
      | some s ↦
          with_reply (c_string message) (take s.index s.buffer) (serve messages s.input s.buffer)
    ]
  ]
]

-- What the system returns.
pub record Answers : Type 0 where
  pub socket : ℤ
  pub bind : ℤ
  pub accept : ℤ

-- The exit code, the sockets that were not closed, and the session, if there was one.
pub record Program : Type 0 where
  pub status : ℕ
  pub left_open : ℕ
  pub session : Option (Option Session)

pub failed : ℕ → Program
failed left_open = record { status = 1; left_open = left_open; session = none }

pub accept_client : Answers → List (List ℕ) → List ℕ → List ℕ → Program
accept_client k messages input buf =
    if ltb_ℤ k.accept (pos 0)
    then failed 1
    else record { status = 0; left_open = 0; session = some (serve messages input buf) }

pub bind_socket : Answers → List (List ℕ) → List ℕ → List ℕ → Program
bind_socket k messages input buf =
    if ltb_ℤ k.bind (pos 0) then failed 0 else accept_client k messages input buf

pub main : ℕ → Answers → List (List ℕ) → List ℕ → List ℕ → Program
main argc k messages input buf =
    if ltb argc 2
    then failed 0
    else if ltb_ℤ k.socket (pos 0)
    then failed 0
    else bind_socket k messages input buf
