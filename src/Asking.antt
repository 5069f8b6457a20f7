-- ===== src/Asking.antt =====
-- linux_c_development/homework6/example3: msgserv.c and msgcli.c, polymsgserv.c and polymsgcli.c, in which a
-- client sends a line through a message queue and a server answers it. The second pair is meant for several
-- clients. The clients are started when the queue exists; one may find that it has been removed.
pub mod Single
mod Tests
use linux_c_homeworks.Prelude.{
  ℕ, zero, suc, ◌+◌, ◌≡◌, Bool, true, false, Option, none, some, List, [], ◌∷◌, ◌++◌, ◌==◌, ltb,
  if◌then◌else◌,
}
use linux_c_homeworks.Lines.Buffers.{through_newline}
use linux_c_homeworks.Shmem.{c_string}

-- The type of a line and of its confirmation, the type of an answer, and whether the client sends the answer
-- back as its confirmation, with a size of sizeof(message).
pub record Pair : Type 0 where
  pub request : ℕ
  pub response : ℕ
  pub is_plain : Bool

abbrev pub plain : Pair
plain = record { request = 2; response = 1; is_plain = true }

abbrev pub poly : Pair
poly = record { request = 1; response = 2; is_plain = false }

-- A message; is_long says that it has more bytes than the receiver admits.
pub record Message : Type 0 where
  pub mtype : ℕ
  pub snd_pid : ℕ
  pub rcv_pid : ℕ
  pub body : List ℕ
  pub is_long : Bool

-- The server before the first msgrcv, before msgsnd, before the second msgrcv, before msgctl, and gone.
pub data ServerPlace : Type 0 where
  waiting replying acking removing gone : ServerPlace

-- A client before the first msgsnd, before msgrcv, before the second msgsnd, and at its end.
pub data Place : Type 0 where
  sending receiving confirming ended : Place

-- `reply` is the answer that it has received and shown.
pub record Client : Type 0 where
  pub place : Place
  pub input : List ℕ
  pub reply : Option Message

-- The queue, the first message first; `shown` is the line that the server has received and shown.
pub record System : Type 0 where
  pub queue : List Message
  pub is_removed : Bool
  pub server_at : ServerPlace
  pub shown : Option Message
  pub clients : ℕ → Client

-- The process ids.
abbrev pub server_pid : ℕ
server_pid = 0

abbrev pub client_pid : ℕ → ℕ
client_pid i = i + 1

-- The message that client i makes of its line.
abbrev pub line : Pair → ℕ → List ℕ → Message
line p i input = record {
  mtype = p.request;
  snd_pid = client_pid i;
  rcv_pid = 0;
  body = c_string (through_newline 511 input);
  is_long = false;
}

-- "Ok!", for whom the server has received a message from.
abbrev pub answer : Pair → Option Message → Message
answer p shown = record {
  mtype = p.response;
  snd_pid = server_pid;
  rcv_pid = elim shown [ none ↦ 0 | some m ↦ m.snd_pid ];
  body = 79 ∷ 107 ∷ 33 ∷ [];
  is_long = false;
}

abbrev pub confirmation : Pair → ℕ → Client → Message
confirmation p i c = elim c.reply [
  | none ↦ record (line p i c.input) { is_long = p.is_plain }
  | some reply ↦
      if p.is_plain then record reply { mtype = p.request; is_long = true } else line p i c.input
]

-- The first message of a type, and the queue without it.
pub find : ℕ → List Message → Option (Message × List Message)
find mtype [] = none
find mtype (m ∷ queue) =
    if m.mtype == mtype
    then some (m, queue)
    else elim (find mtype queue) [ none ↦ none | some (found, rest) ↦ some (found, m ∷ rest) ]

-- msgrcv of a message that is too long fails and leaves it in the queue.
pub server_act : Pair → ServerPlace → System → Option System
server_act p waiting s = elim (find p.request s.queue) [
  | none ↦ none
  | some (m, rest) ↦
      if m.is_long
      then some (record s { server_at = replying })
      else some (record s { queue = rest; shown = some m; server_at = replying })
]
server_act p replying s =
    some (record s { queue = s.queue ++ (answer p s.shown ∷ []); server_at = acking })
server_act p acking s = elim (find p.request s.queue) [
  | none ↦ none
  | some (m, rest) ↦
      if m.is_long
      then some (record s { server_at = removing })
      else some (record s { queue = rest; server_at = removing })
]
server_act p removing s = some (record s { is_removed = true; server_at = gone })
server_act p gone s = none

abbrev pub put : (ℕ → Client) → ℕ → Client → ℕ → Client
put clients i c j = if j == i then c else clients j

abbrev pub goes : ℕ → Place → System → System
goes i place s = record s { clients = put s.clients i (record (s.clients i) { place = place }) }

-- One step of client i; msgsnd and msgrcv fail when the queue has been removed.
pub client_act : Pair → ℕ → Place → System → Option System
client_act p i sending s =
    if s.is_removed
    then some (goes i receiving s)
    else some
        (record (goes i receiving s) { queue = s.queue ++ (line p i (s.clients i).input ∷ []) })
client_act p i receiving s =
    if s.is_removed then some (goes i confirming s) else elim (find p.response s.queue) [
      | none ↦ none
      | some (m, rest) ↦ some (record s {
        queue = rest;
        clients = put s.clients i (record (s.clients i) { place = confirming; reply = some m });
      })
    ]
client_act p i confirming s =
    if s.is_removed
    then some (goes i ended s)
    else some (record (goes i ended s) { queue = s.queue ++ (confirmation p i (s.clients i) ∷ []) })
client_act p i ended s = none

abbrev pub started : (ℕ → List ℕ) → System
started input = record {
  queue = [];
  is_removed = false;
  server_at = waiting;
  shown = none;
  clients = λ i. record { place = sending; input = input i; reply = none };
}

-- The states with the clients below n.
pub data Reach (p : Pair) (n : ℕ) (input : ℕ → List ℕ) : System → Type 0 where
  start : Reach p n input (started input)
  serves :
      {s : System} (t : System)
      → Reach p n input s
      → server_act p s.server_at s ≡ some t
      → Reach p n input t
  asks :
      {s : System} (i : ℕ) (t : System)
      → Reach p n input s
      → ltb i n ≡ true
      → client_act p i (s.clients i).place s ≡ some t
      → Reach p n input t
