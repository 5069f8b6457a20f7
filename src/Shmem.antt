-- ===== src/Shmem.antt =====
-- linux_c_development/homework6/example3/shmemserv.c and shmemcli.c: a server and a client that talk
-- through one block of shared memory, and take turns by the locks and the turn in it. The loops of
-- both main functions are modelled from the state that the server has set up; each read or write of a
-- field of the block is one step, and so is a whole strcmp, strcpy, printf or line that is read.
pub mod Safe
pub mod Talk
pub mod Waits
pub mod Refines
mod Tests
use linux_c_homeworks.Prelude.{
  ℕ, zero, suc, ◌+◌, ◌≡◌, Bool, true, false, Option, none, some, List, [], ◌∷◌, ◌==◌, ◌&&◌, not,
  if◌then◌else◌,
}
use linux_c_homeworks.Lines.Buffers.{through_newline, after_newline}

abbrev pub busy : ℕ
busy = 0

abbrev pub free : ℕ
free = 1

abbrev pub client : ℕ
client = 0

abbrev pub server : ℕ
server = 1

-- What strcmp and printf see of an array: the characters before the first 0.
unfoldable pub c_string : List ℕ → List ℕ
c_string [] = []
c_string (c ∷ cs) = if c == 0 then [] else c ∷ c_string cs

unfoldable pub same : List ℕ → List ℕ → Bool
same [] [] = true
same [] (y ∷ ys) = false
same (x ∷ xs) [] = false
same (x ∷ xs) (y ∷ ys) = (x == y) && same xs ys

abbrev pub hello : List ℕ
hello = 72 ∷ 101 ∷ 108 ∷ 108 ∷ 111 ∷ 33 ∷ []

abbrev pub ok : List ℕ
ok = 79 ∷ 107 ∷ 33 ∷ []

-- strcmp("q\n", string) == 0
unfoldable pub is_quit : List ℕ → Bool
is_quit string = same (113 ∷ 10 ∷ []) string

-- Where a process stands: at the test of its loop; before it sets its lock; before it sets turn; before
-- the two tests of the empty loop; before the test of readlast, the assignment to it and the printf;
-- the server before its strcmp and its strcpy, the client before it reads a line; before it frees its
-- lock; and past the loop.
pub data Place : Type 0 where
  testing raising yielding at_lock at_turn checking marking printing : Place
  comparing answering filling releasing ended : Place

-- The block, where both processes are, what the user is still to type, and the texts that the client
-- has read and printed and the server has printed, the latest first.
pub record System : Type 0 where
  pub server_lock : ℕ
  pub client_lock : ℕ
  pub turn : ℕ
  pub readlast : ℕ
  pub string : List ℕ
  pub server_at : Place
  pub client_at : Place
  pub input : List ℕ
  pub sent : List (List ℕ)
  pub heard : List (List ℕ)
  pub shown : List (List ℕ)

abbrev pub server_goes : Place → System → System
server_goes place s = record s { server_at = place }

abbrev pub client_goes : Place → System → System
client_goes place s = record s { client_at = place }

-- One step of the server at a place. The lock is freed only where there was a text to read.
pub server_act : Place → System → Option System
server_act testing s = some (server_goes (if is_quit s.string then ended else raising) s)
server_act raising s = some (record s { server_lock = busy; server_at = yielding })
server_act yielding s = some (record s { turn = client; server_at = at_lock })
server_act at_lock s = some (server_goes (if s.client_lock == busy then at_turn else checking) s)
server_act at_turn s = some (server_goes (if s.turn == client then at_lock else checking) s)
server_act checking s = some (server_goes (if s.readlast == client then marking else testing) s)
server_act marking s = some (record s { readlast = server; server_at = printing })
server_act printing s = some (record s { heard = s.string ∷ s.heard; server_at = comparing })
server_act comparing s = some (server_goes (if is_quit s.string then releasing else answering) s)
server_act answering s = some (record s { string = ok; server_at = releasing })
server_act filling s = none
server_act releasing s = some (record s { server_lock = free; server_at = testing })
server_act ended s = none

-- One step of the client at a place.
pub client_act : Place → System → Option System
client_act testing s = some (client_goes (if is_quit s.string then ended else raising) s)
client_act raising s = some (record s { client_lock = busy; client_at = yielding })
client_act yielding s = some (record s { turn = server; client_at = at_lock })
client_act at_lock s = some (client_goes (if s.server_lock == busy then at_turn else checking) s)
client_act at_turn s = some (client_goes (if s.turn == server then at_lock else checking) s)
client_act checking s = some (client_goes (if s.readlast == server then marking else testing) s)
client_act marking s = some (record s { readlast = client; client_at = printing })
client_act printing s = some (record s { shown = s.string ∷ s.shown; client_at = filling })
client_act comparing s = none
client_act answering s = none
client_act filling s =
    let line = c_string (through_newline 511 s.input) in
    some (record s {
      string = line;
      input = after_newline 511 s.input;
      sent = line ∷ s.sent;
      client_at = releasing;
    })
client_act releasing s = some (record s { client_lock = free; client_at = testing })
client_act ended s = none

-- What the server has set up before its loop.
abbrev pub started : List ℕ → System
started input = record {
  server_lock = free;
  client_lock = free;
  turn = client;
  readlast = server;
  string = hello;
  server_at = testing;
  client_at = testing;
  input = input;
  sent = [];
  heard = [];
  shown = [];
}

pub data Reach : System → Type 0 where
  start : (input : List ℕ) → Reach (started input)
  serves : {s : System} (t : System) → Reach s → server_act s.server_at s ≡ some t → Reach t
  asks : {s : System} (t : System) → Reach s → client_act s.client_at s ≡ some t → Reach t
