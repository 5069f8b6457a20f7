-- ===== src/Numbers.antt =====
-- linux_c_development/homework7/random_numbers/rand_server.c and rand_client.c: a server and a client
-- that answer each other with random numbers through a block of shared memory, with two semaphores as in
-- Sems. Modelled from the state in which the server has set up the block and the client has found it;
-- the client then sets the first semaphore and the block once more. The numbers that rand() gives are
-- arguments: the one for an answer depends on how many answers there have been.
pub mod Token
pub mod Talk
pub mod Refines
mod Tests
use linux_c_homeworks.Prelude.{
  ℕ, zero, suc, ◌+◌, ◌-◌, ◌≡◌, Bool, true, false, Option, none, some, List, [], ◌∷◌, ◌==◌, length,
  if◌then◌else◌,
}
use linux_c_homeworks.Lines.Buffers.{through_newline, after_newline}
use linux_c_homeworks.Shmem.{c_string, is_quit}

-- Where a process stands: the server before its first semop; the client before semctl, before it sets
-- num, and before memset; at the test of the loop; before the semop that takes; before the first printf;
-- the client before it reads a line; before it sets num and prints it; before the semop that gives; past
-- the loop; and gone.
pub data Place : Type 0 where
  opening resetting seeding clearing testing taking printing filling answering : Place
  giving leaving ended : Place

-- The semaphores, the block, both processes, how often each took and gave, what the user is still to
-- type, and the numbers: sent by the client, printed by the server, sent by the server, and printed by
-- the client, the latest first.
pub record System : Type 0 where
  pub sem_0 : ℕ
  pub sem_1 : ℕ
  pub num : ℕ
  pub string : List ℕ
  pub server_at : Place
  pub client_at : Place
  pub server_took : ℕ
  pub server_gave : ℕ
  pub client_took : ℕ
  pub client_gave : ℕ
  pub input : List ℕ
  pub sent : List (List ℕ)
  pub heard : List (List ℕ)
  pub answered : List (List ℕ)
  pub shown : List (List ℕ)

abbrev pub server_goes : Place → System → System
server_goes place s = record s { server_at = place }

abbrev pub client_goes : Place → System → System
client_goes place s = record s { client_at = place }

-- buf[1] with sem_op 1, done by the server.
abbrev pub server_gives : System → System
server_gives s = record s {
  sem_1 = s.sem_1 + 1;
  server_gave = s.server_gave + 1;
  server_at = testing;
}

-- One step of the server at a place; `none` where semop has to wait. At its end the kernel takes back
-- what it gave, down to 0, and gives back what it took.
pub server_act : (ℕ → ℕ) → Place → System → Option System
server_act rand opening s = some (server_gives s)
server_act rand resetting s = none
server_act rand seeding s = none
server_act rand clearing s = none
server_act rand testing s = some (server_goes (if is_quit s.string then leaving else taking) s)
server_act rand taking s =
    if s.sem_0 == 0
    then none
    else some
        (record s { sem_0 = s.sem_0 - 1; server_took = s.server_took + 1; server_at = printing })
server_act rand printing s =
    some (record s { heard = (s.num ∷ []) ∷ s.heard; server_at = answering })
server_act rand filling s = none
server_act rand answering s =
    let n = rand (length s.answered) in
    some (record s { num = n; answered = (n ∷ []) ∷ s.answered; server_at = giving })
server_act rand giving s = some (server_gives s)
server_act rand leaving s = some (record s {
  sem_0 = s.sem_0 + s.server_took;
  sem_1 = s.sem_1 - s.server_gave;
  server_at = ended;
})
server_act rand ended s = none

-- One step of the client at a place.
pub client_act : (ℕ → ℕ) → Place → System → Option System
client_act rand opening s = none
client_act rand resetting s = some (record s { sem_0 = 0; client_at = seeding })
client_act rand seeding s = some (record s { num = rand 0; client_at = clearing })
client_act rand clearing s = some (record s { string = []; client_at = testing })
client_act rand testing s = some (client_goes (if is_quit s.string then leaving else taking) s)
client_act rand taking s =
    if s.sem_1 == 0
    then none
    else some
        (record s { sem_1 = s.sem_1 - 1; client_took = s.client_took + 1; client_at = printing })
client_act rand printing s = some (record s { shown = (s.num ∷ []) ∷ s.shown; client_at = filling })
client_act rand filling s = some (record s {
  string = c_string (through_newline 63 s.input);
  input = after_newline 63 s.input;
  client_at = answering;
})
client_act rand answering s =
    let n = rand (length s.sent + 1) in
    some (record s { num = n; sent = (n ∷ []) ∷ s.sent; client_at = giving })
client_act rand giving s =
    some (record s { sem_0 = s.sem_0 + 1; client_gave = s.client_gave + 1; client_at = testing })
client_act rand leaving s = some (record s {
  sem_1 = s.sem_1 + s.client_took;
  sem_0 = s.sem_0 - s.client_gave;
  client_at = ended;
})
client_act rand ended s = none

abbrev pub started : List ℕ → System
started input = record {
  sem_0 = 0;
  sem_1 = 0;
  num = 0;
  string = [];
  server_at = opening;
  client_at = resetting;
  server_took = 0;
  server_gave = 0;
  client_took = 0;
  client_gave = 0;
  input = input;
  sent = [];
  heard = [];
  answered = [];
  shown = [];
}

pub data Reach (server_rand client_rand : ℕ → ℕ) : System → Type 0 where
  start : (input : List ℕ) → Reach server_rand client_rand (started input)
  serves :
      {s : System} (t : System)
      → Reach server_rand client_rand s
      → server_act server_rand s.server_at s ≡ some t
      → Reach server_rand client_rand t
  asks :
      {s : System} (t : System)
      → Reach server_rand client_rand s
      → client_act client_rand s.client_at s ≡ some t
      → Reach server_rand client_rand t
