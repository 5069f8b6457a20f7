-- ===== src/Queue.antt =====
-- linux_c_development/homework6/chat: msgserver.c and msgclient.c, which talk through one message queue.
-- Both send messages of type 1 and receive those of any type. wait_for_msg with the end of the
-- server's main, and chat_with_server, are modelled as steps; msgsnd and msgrcv fail only when the queue has
-- been removed.
pub mod Token
pub mod Waits
mod Tests
use linux_c_homeworks.Prelude.{
  ℕ, zero, suc, ◌+◌, ◌≡◌, Bool, true, false, Option, none, some, List, [], ◌∷◌, ◌++◌, ◌==◌,
  if◌then◌else◌,
}
use linux_c_homeworks.Prelude.Int.{ℤ, pos, negsuc}
use linux_c_homeworks.Lines.Buffers.{before_newline, after_newline}
use linux_c_homeworks.Shmem.{c_string, same}

-- The process ids, as the messages show them.
abbrev pub client_pid : ℕ
client_pid = 1

abbrev pub server_pid : ℕ
server_pid = 2

pub record Message : Type 0 where
  pub snd_pid : ℕ
  pub body : List ℕ

-- strcmp(body, "quit") == 0
pub is_quit : List ℕ → Bool
is_quit body = same body (113 ∷ 117 ∷ 105 ∷ 116 ∷ [])

-- Before SEND_MSG; before msgsnd; before strcmp; before msgrcv; before printf; the server before msgctl;
-- and at the end.
pub data Place : Type 0 where
  typing sending testing receiving printing leaving ended : Place

-- The queue, the first message first, and whether it has been removed; for each process where it is,
-- what its user is still to type, the text it is to send, the message it has received, and the code that
-- its function returns; and all messages sent and received, the latest first.
pub record System : Type 0 where
  pub queue : List Message
  pub is_removed : Bool
  pub server_at : Place
  pub client_at : Place
  pub server_input : List ℕ
  pub client_input : List ℕ
  pub server_buffer : List ℕ
  pub client_buffer : List ℕ
  pub server_message : Message
  pub client_message : Message
  pub server_code : ℤ
  pub client_code : ℤ
  pub sent : List Message
  pub received : List Message

-- msgsnd
abbrev pub send : Message → System → System
send m s = record s { queue = s.queue ++ (m ∷ []); sent = m ∷ s.sent }

-- SEND_MSG and the strcpy after it.
pub text_typed : List ℕ → List ℕ
text_typed input = c_string (before_newline 511 input)

pub server_receives : System → Option System
server_receives s = elim s.queue [
  | [] ↦ none
  | m ∷ rest ↦ some (record s {
    queue = rest;
    received = m ∷ s.received;
    server_message = m;
    server_at = printing;
  })
]

pub client_receives : System → Option System
client_receives s = elim s.queue [
  | [] ↦ none
  | m ∷ rest ↦ some (record s {
    queue = rest;
    received = m ∷ s.received;
    client_message = m;
    client_at = printing;
  })
]

-- One step of the server at a place.
pub server_act : Place → System → Option System
server_act receiving s =
    if s.is_removed
    then some (record s { server_code = negsuc 0; server_at = leaving })
    else server_receives s
server_act printing s = some (record s { server_at = testing })
server_act testing s =
    if is_quit s.server_message.body
    then some (record s { server_code = pos 0; server_at = leaving })
    else some (record s { server_at = typing })
server_act typing s = some (record s {
  server_buffer = text_typed s.server_input;
  server_input = after_newline 511 s.server_input;
  server_at = sending;
})
server_act sending s =
    if s.is_removed
    then some (record s { server_code = negsuc 0; server_at = leaving })
    else some (record (send (record { snd_pid = server_pid; body = s.server_buffer }) s) {
      server_at = receiving;
    })
server_act leaving s = some (record s { is_removed = true; server_at = ended })
server_act ended s = none

-- One step of the client at a place.
pub client_act : Place → System → Option System
client_act typing s = some (record s {
  client_buffer = text_typed s.client_input;
  client_input = after_newline 511 s.client_input;
  client_at = sending;
})
client_act sending s =
    if s.is_removed
    then some (record s { client_code = negsuc 0; client_at = ended })
    else some (record (send (record { snd_pid = client_pid; body = s.client_buffer }) s) {
      client_at = testing;
    })
client_act testing s =
    if is_quit s.client_buffer
    then some (record s { client_code = pos 0; client_at = ended })
    else some (record s { client_at = receiving })
client_act receiving s =
    if s.is_removed
    then some (record s { client_code = negsuc 0; client_at = ended })
    else client_receives s
client_act printing s = some (record s { client_at = typing })
client_act leaving s = none
client_act ended s = none

abbrev pub nothing : Message
nothing = record { snd_pid = 0; body = [] }

-- The server waits for the first message, and the client asks its user.
abbrev pub started : List ℕ → List ℕ → System
started server_input client_input = record {
  queue = [];
  is_removed = false;
  server_at = receiving;
  client_at = typing;
  server_input = server_input;
  client_input = client_input;
  server_buffer = [];
  client_buffer = [];
  server_message = nothing;
  client_message = nothing;
  server_code = pos 0;
  client_code = pos 0;
  sent = [];
  received = [];
}

pub data Reach : System → Type 0 where
  start : (server_input client_input : List ℕ) → Reach (started server_input client_input)
  serves : {s : System} (t : System) → Reach s → server_act s.server_at s ≡ some t → Reach t
  asks : {s : System} (t : System) → Reach s → client_act s.client_at s ≡ some t → Reach t
