-- ===== src/Sems.antt =====
-- linux_c_development/homework6/example3/semserv.c and semcli.c: the conversation of Shmem with two
-- semaphores in place of the locks. Modelled from the state in which the server has written "Hello!"
-- and is about to give the turn to the client; the operations on the semaphores have SEM_UNDO, so the
-- end of a process takes back what it did to them.
pub mod Token
pub mod Talk
pub mod Refines
mod Tests
use linux_c_homeworks.Prelude.{
  ℕ, zero, suc, ◌+◌, ◌-◌, ◌≡◌, Bool, true, false, Option, none, some, List, [], ◌∷◌, ◌==◌,
  if◌then◌else◌,
}
use linux_c_homeworks.Lines.Buffers.{through_newline, after_newline}
use linux_c_homeworks.Shmem.{c_string, is_quit, hello, ok}

-- Where a process stands: the server before its first semop; at the test of the loop; before the semop
-- that takes; before the printf; the server before its strcmp and its strcpy, the client before it reads
-- a line; before the semop that gives; past the loop; and gone.
pub data Place : Type 0 where
  opening testing taking printing comparing answering filling giving leaving ended : Place

-- The semaphores, the string, both processes, how often each took and gave, what the user is still to
-- type, and the texts that the client has read and printed and the server has printed.
pub record System : Type 0 where
  pub sem_0 : ℕ
  pub sem_1 : ℕ
  pub string : List ℕ
  pub server_at : Place
  pub client_at : Place
  pub server_took : ℕ
  pub server_gave : ℕ
  pub client_took : ℕ
  pub client_gave : ℕ
  pub input : List ℕ
  pub sent : List (List ℕ)
  pub heard : List (List ℕ)
  pub shown : List (List ℕ)

abbrev pub server_goes : Place → System → System
server_goes place s = record s { server_at = place }

abbrev pub client_goes : Place → System → System
client_goes place s = record s { client_at = place }

-- buf[1] with sem_op 1, done by the server.
abbrev pub server_gives : System → System
server_gives s = record s {
  sem_1 = s.sem_1 + 1;
  server_gave = s.server_gave + 1;
  server_at = testing;
}

-- One step of the server at a place; `none` where semop has to wait. At its end the kernel takes back
-- what it gave, down to 0, and gives back what it took.
pub server_act : Place → System → Option System
server_act opening s = some (server_gives s)
server_act testing s = some (server_goes (if is_quit s.string then leaving else taking) s)
server_act taking s =
    if s.sem_0 == 0
    then none
    else some
        (record s { sem_0 = s.sem_0 - 1; server_took = s.server_took + 1; server_at = printing })
server_act printing s = some (record s { heard = s.string ∷ s.heard; server_at = comparing })
server_act comparing s = some (server_goes (if is_quit s.string then giving else answering) s)
server_act answering s = some (record s { string = ok; server_at = giving })
server_act filling s = none
server_act giving s = some (server_gives s)
server_act leaving s = some (record s {
  sem_0 = s.sem_0 + s.server_took;
  sem_1 = s.sem_1 - s.server_gave;
  server_at = ended;
})
server_act ended s = none

-- One step of the client at a place.
pub client_act : Place → System → Option System
client_act opening s = none
client_act testing s = some (client_goes (if is_quit s.string then leaving else taking) s)
client_act taking s =
    if s.sem_1 == 0
    then none
    else some
        (record s { sem_1 = s.sem_1 - 1; client_took = s.client_took + 1; client_at = printing })
client_act printing s = some (record s { shown = s.string ∷ s.shown; client_at = filling })
client_act comparing s = none
client_act answering s = none
client_act filling s =
    let line = c_string (through_newline 511 s.input) in
    some (record s {
      string = line;
      input = after_newline 511 s.input;
      sent = line ∷ s.sent;
      client_at = giving;
    })
client_act giving s =
    some (record s { sem_0 = s.sem_0 + 1; client_gave = s.client_gave + 1; client_at = testing })
client_act leaving s = some (record s {
  sem_1 = s.sem_1 + s.client_took;
  sem_0 = s.sem_0 - s.client_gave;
  client_at = ended;
})
client_act ended s = none

abbrev pub started : List ℕ → System
started input = record {
  sem_0 = 0;
  sem_1 = 0;
  string = hello;
  server_at = opening;
  client_at = testing;
  server_took = 0;
  server_gave = 0;
  client_took = 0;
  client_gave = 0;
  input = input;
  sent = [];
  heard = [];
  shown = [];
}

pub data Reach : System → Type 0 where
  start : (input : List ℕ) → Reach (started input)
  serves : {s : System} (t : System) → Reach s → server_act s.server_at s ≡ some t → Reach t
  asks : {s : System} (t : System) → Reach s → client_act s.client_at s ≡ some t → Reach t
