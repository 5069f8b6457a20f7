-- ===== src/Sems/Token.antt =====
-- The one token: in a semaphore, or with the process that has taken it and has yet to give it.
use linux_c_homeworks.Prelude.{
  ℕ, ◌+◌, ◌≤◌, ◌≡◌, refl, Bool, true, false, some, List, ◌||◌, if◌then◌else◌, arith, length,
}
use linux_c_homeworks.Shmem.{is_quit, same, hello, ok}
use linux_c_homeworks.Sems.{
  Place, opening, testing, taking, printing, comparing, answering, filling, giving, leaving, ended,
  System, server_act, client_act, started, Reach, start, serves, asks,
}

-- Where the server has the token: from its semop that takes to the one that gives.
abbrev pub server_has : Place → Bool
server_has place = elim place [
  | opening ↦ true
  | printing ↦ true
  | comparing ↦ true
  | answering ↦ true
  | giving ↦ true
  | _ ↦ false
]

-- Likewise the client.
abbrev pub client_has : Place → Bool
client_has place = elim place [ printing ↦ true | filling ↦ true | giving ↦ true | _ ↦ false ]

abbrev pub has_ended : Place → Bool
has_ended place = elim place [ ended ↦ true | _ ↦ false ]

abbrev pub has_left : Place → Bool
has_left place = elim place [ leaving ↦ true | ended ↦ true | _ ↦ false ]

abbrev pub is_giving : Place → Bool
is_giving place = elim place [ giving ↦ true | _ ↦ false ]

abbrev pub is_answering : Place → Bool
is_answering place = elim place [ answering ↦ true | _ ↦ false ]

abbrev pub may_leave : Place → Bool
may_leave place = elim place [
  | giving ↦ true
  | testing ↦ true
  | leaving ↦ true
  | ended ↦ true
  | _ ↦ false
]

abbrev pub is_filling : Place → Bool
is_filling place = elim place [ filling ↦ true | _ ↦ false ]

-- The places that only the server has.
abbrev pub is_servers : Place → Bool
is_servers place = elim place [ opening ↦ true | comparing ↦ true | answering ↦ true | _ ↦ false ]

abbrev pub one_if : Bool → ℕ
one_if b = if b then 1 else 0

pub record IsSafe (s : System) : Type 0 where
  pub token :
      (has_ended s.server_at || has_ended s.client_at) ≡ false
      → s.sem_0 + s.sem_1 + one_if (server_has s.server_at) + one_if (client_has s.client_at) ≡ 1
  pub gave : s.client_gave + one_if (is_giving s.client_at) ≡ length s.sent
  pub quits : is_quit s.string ≡ true → may_leave s.client_at ≡ true
  pub quit_sent : is_quit s.string ≡ true → 1 ≤ length s.sent
  pub server_left : has_left s.server_at ≡ true → is_quit s.string ≡ true
  pub client_left : has_left s.client_at ≡ true → is_quit s.string ≡ true
  pub goes_on : is_answering s.server_at ≡ true → is_quit s.string ≡ false
  pub server_place : is_filling s.server_at ≡ false
  pub client_place : is_servers s.client_at ≡ false
  pub undone : has_ended s.client_at ≡ true → has_ended s.server_at ≡ false → s.sem_0 ≡ 0

hello-is_quit : is_quit hello ≡ false
unfolding is_quit same
hello-is_quit = refl

pub ok-is_quit : is_quit ok ≡ false
unfolding is_quit same
ok-is_quit = refl

server_act-IsSafe :
    (s t : System) (place : Place)
    → IsSafe s
    → s.server_at ≡ place
    → server_act place s ≡ some t
    → IsSafe t
unfolding server_act
server_act-IsSafe s t opening f e run = ground arith
server_act-IsSafe s t testing f e run = ground arith
server_act-IsSafe s t taking f e run = ground arith
server_act-IsSafe s t printing f e run = ground arith
server_act-IsSafe s t comparing f e run = ground arith
server_act-IsSafe s t answering f e run = ground (arith, ok-is_quit)
server_act-IsSafe s t filling f e run = absurd (cc run)
server_act-IsSafe s t giving f e run = ground arith
server_act-IsSafe s t leaving f e run = ground arith
server_act-IsSafe s t ended f e run = absurd (cc run)

client_act-IsSafe :
    (s t : System) (place : Place)
    → IsSafe s
    → s.client_at ≡ place
    → client_act place s ≡ some t
    → IsSafe t
unfolding client_act
client_act-IsSafe s t opening f e run = absurd (cc run)
client_act-IsSafe s t testing f e run = ground arith
client_act-IsSafe s t taking f e run = ground arith
client_act-IsSafe s t printing f e run = ground arith
client_act-IsSafe s t comparing f e run = absurd (cc run)
client_act-IsSafe s t answering f e run = absurd (cc run)
client_act-IsSafe s t filling f e run = ground arith
client_act-IsSafe s t giving f e run = ground arith
client_act-IsSafe s t leaving f e run = ground arith
client_act-IsSafe s t ended f e run = absurd (cc run)

started-IsSafe : (input : List ℕ) → IsSafe (started input)
started-IsSafe input = ground (arith, hello-is_quit)

pub Reach-IsSafe : {s : System} → Reach s → IsSafe s
Reach-IsSafe (start input) = started-IsSafe input
Reach-IsSafe (serves {s} t r run) = server_act-IsSafe s t s.server_at (Reach-IsSafe r) refl run
Reach-IsSafe (asks {s} t r run) = client_act-IsSafe s t s.client_at (Reach-IsSafe r) refl run
