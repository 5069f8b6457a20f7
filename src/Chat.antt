-- ===== src/Chat.antt =====
-- linux_c_development/homework10/async_chat/async_server.c: the loop of main, which accepts clients,
-- and thread_func, which serves one. The answers of accept, malloc, pthread_create and read are
-- arguments. pthread_create and the increment of clients_num after it are two steps, between which the new
-- thread and the others may go on. A run of the loop that writes a message is one step.
pub mod Places
pub mod Full
pub mod Setup
mod Tests
use linux_c_homeworks.Prelude.{
  ℕ, zero, suc, ◌+◌, ◌%◌, ◌≡◌, Bool, true, false, Option, none, some, List, [], ◌∷◌, ltb, leb, ◌==◌,
  ◌&&◌, not, if◌then◌else◌,
}
use linux_c_homeworks.Prelude.Int.{ℤ, pos, negsuc, ltb_ℤ, eqb_ℤ}

abbrev pub max_num_clients : ℕ
max_num_clients = 5

-- A thread is not created yet, before its assignment to sockets, serving, or has returned.
pub data Phase : Type 0 where
  absent created serving left : Phase

pub record Client : Type 0 where
  pub phase : Phase
  pub client_id : ℕ
  pub socket : ℤ

-- `clients k` is the k-th thread that is created, of `threads` so far. is_creating says that main stands
-- between pthread_create and the increment of clients_num.
pub record Server : Type 0 where
  pub clients_num : ℕ
  pub sockets : ℕ → ℤ
  pub clients : ℕ → Client
  pub threads : ℕ
  pub is_creating : Bool

abbrev pub initial : Server
initial = record {
  clients_num = 0;
  sockets = λ i. pos 0;
  clients = λ k. record { phase = absent; client_id = 0; socket = pos 0 };
  threads = 0;
  is_creating = false;
}

abbrev pub set_client : (ℕ → Client) → ℕ → Client → ℕ → Client
set_client clients k c j = if j == k then c else clients j

abbrev pub set_socket : (ℕ → ℤ) → ℕ → ℤ → ℕ → ℤ
set_socket sockets i socket j = if j == i then socket else sockets j

-- What a round of the loop of main meets: accept fails, malloc fails, pthread_create fails, or all
-- of them succeed.
pub data Accept : Type 0 where
  no_connection no_memory : Accept
  no_thread ready : ℤ → Accept

-- A round of the loop of main, up to the call of pthread_create when that succeeds.
pub main_round : Accept → Server → Server
main_round no_connection s = s
main_round no_memory s = s
main_round (no_thread newsock) s =
    if leb max_num_clients s.clients_num
    then s
    else record s { clients_num = (s.clients_num + 255) % 256 }
main_round (ready newsock) s = if leb max_num_clients s.clients_num then s else record s {
  clients =
      set_client s.clients s.threads
        (record { phase = created; client_id = s.clients_num; socket = newsock });
  threads = s.threads + 1;
  is_creating = true;
}

-- The end of such a round.
pub count_client : Server → Server
count_client s = record s { clients_num = (s.clients_num + 1) % 256; is_creating = false }

-- The start of thread_func in thread k.
pub begin : ℕ → Server → Server
begin k s = record s {
  sockets = set_socket s.sockets (s.clients k).client_id (s.clients k).socket;
  clients = set_client s.clients k (record (s.clients k) { phase = serving });
}

-- The loop over the sockets, from i on: to which sockets it writes a message that came from
-- `socket`. `none` is an access outside the array.
pub write_loop : (ℕ → ℤ) → ℤ → ℕ → ℕ → Option (List ℤ)
write_loop sockets socket zero i = some []
write_loop sockets socket (suc rounds) i =
    let rest = write_loop sockets socket rounds (i + 1) in
    if leb max_num_clients i then none else elim rest [
      | none ↦ none
      | some others ↦
          if ltb_ℤ (pos 0) (sockets i) && not (eqb_ℤ (sockets i) socket)
          then some (sockets i ∷ others)
          else some others
    ]

-- A message, not "quit", in thread k.
pub message : ℕ → Server → Option (List ℤ)
message k s = write_loop s.sockets (s.clients k).socket s.clients_num 0

-- The end of thread_func in thread k: "quit", the end of the connection, or an error.
pub leave : ℕ → Server → Server
leave k s = record s {
  sockets = set_socket s.sockets (s.clients k).client_id (negsuc 0);
  clients = set_client s.clients k (record (s.clients k) { phase = left });
}

pub data Step (s : Server) : Server → Type 0 where
  mains : (a : Accept) → s.is_creating ≡ false → Step s (main_round a s)
  counts : s.is_creating ≡ true → Step s (count_client s)
  begins : (k : ℕ) → (s.clients k).phase ≡ created → Step s (begin k s)
  leaves : (k : ℕ) → (s.clients k).phase ≡ serving → Step s (leave k s)

-- Any number of steps.
pub data Later (s : Server) : Server → Type 0 where
  now : Later s s
  after : {t u : Server} → Later s t → Step t u → Later s u
