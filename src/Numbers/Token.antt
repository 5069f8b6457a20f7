-- ===== src/Numbers/Token.antt =====
-- The one token: in a semaphore, or with the process that has taken it and has yet to give it.
use linux_c_homeworks.Prelude.{
  ℕ, ◌+◌, ◌≤◌, ◌≡◌, refl, Bool, true, false, some, List, [], ◌||◌, if◌then◌else◌, arith, length,
}
use linux_c_homeworks.Shmem.{is_quit, same}
use linux_c_homeworks.Numbers.{
  Place, opening, resetting, seeding, clearing, testing, taking, printing, filling, answering,
  giving, leaving, ended, System, server_act, client_act, started, Reach, start, serves, asks,
}

-- Where a process has the token.
abbrev pub server_has : Place → Bool
server_has place = elim place [
  | opening ↦ true
  | printing ↦ true
  | answering ↦ true
  | giving ↦ true
  | _ ↦ false
]

abbrev pub client_has : Place → Bool
client_has place = elim place [
  | printing ↦ true
  | filling ↦ true
  | answering ↦ true
  | giving ↦ true
  | _ ↦ false
]

abbrev pub has_ended : Place → Bool
has_ended place = elim place [ ended ↦ true | _ ↦ false ]

abbrev pub has_left : Place → Bool
has_left place = elim place [ leaving ↦ true | ended ↦ true | _ ↦ false ]

abbrev pub is_giving : Place → Bool
is_giving place = elim place [ giving ↦ true | _ ↦ false ]

abbrev pub is_answering : Place → Bool
is_answering place = elim place [ answering ↦ true | _ ↦ false ]

abbrev pub may_leave : Place → Bool
may_leave place = elim place [
  | answering ↦ true
  | giving ↦ true
  | testing ↦ true
  | leaving ↦ true
  | ended ↦ true
  | _ ↦ false
]

-- The client before its loop, and the server before it has heard anything.
abbrev pub is_new : Place → Bool
is_new place = elim place [ resetting ↦ true | seeding ↦ true | clearing ↦ true | _ ↦ false ]

abbrev pub is_first : Place → Bool
is_first place = elim place [ opening ↦ true | testing ↦ true | taking ↦ true | _ ↦ false ]

-- Places that only one of the two has.
abbrev pub is_clients : Place → Bool
is_clients place = elim place [
  | resetting ↦ true
  | seeding ↦ true
  | clearing ↦ true
  | filling ↦ true
  | _ ↦ false
]

abbrev pub is_servers : Place → Bool
is_servers place = elim place [ opening ↦ true | _ ↦ false ]

abbrev pub one_if : Bool → ℕ
one_if b = if b then 1 else 0

pub record IsSafe (s : System) : Type 0 where
  pub token :
      (has_ended s.server_at || has_ended s.client_at) ≡ false
      → s.sem_0 + s.sem_1 + one_if (server_has s.server_at) + one_if (client_has s.client_at) ≡ 1
  pub gave : s.client_gave + one_if (is_giving s.client_at) ≡ length s.sent
  pub quits : is_quit s.string ≡ true → may_leave s.client_at ≡ true
  pub quit_sent : is_quit s.string ≡ true → 1 ≤ length s.sent + one_if (is_answering s.client_at)
  pub server_left : has_left s.server_at ≡ true → is_quit s.string ≡ true
  pub client_left : has_left s.client_at ≡ true → is_quit s.string ≡ true
  pub new_client :
      is_new s.client_at ≡ true → (s.sem_0 ≡ 0) × (is_first s.server_at ≡ true) × (s.sent ≡ [])
  pub server_place : is_clients s.server_at ≡ false
  pub client_place : is_servers s.client_at ≡ false
  pub undone : has_ended s.client_at ≡ true → has_ended s.server_at ≡ false → s.sem_0 ≡ 0

pub empty-is_quit : is_quit [] ≡ false
unfolding is_quit same
empty-is_quit = refl

server_act-IsSafe :
    (rand : ℕ → ℕ) (s t : System) (place : Place)
    → IsSafe s
    → s.server_at ≡ place
    → server_act rand place s ≡ some t
    → IsSafe t
unfolding server_act
server_act-IsSafe rand s t opening f e run = ground arith
server_act-IsSafe rand s t resetting f e run = absurd (cc run)
server_act-IsSafe rand s t seeding f e run = absurd (cc run)
server_act-IsSafe rand s t clearing f e run = absurd (cc run)
server_act-IsSafe rand s t testing f e run = ground arith
server_act-IsSafe rand s t taking f e run = ground arith
server_act-IsSafe rand s t printing f e run = ground arith
server_act-IsSafe rand s t filling f e run = absurd (cc run)
server_act-IsSafe rand s t answering f e run = ground arith
server_act-IsSafe rand s t giving f e run = ground arith
server_act-IsSafe rand s t leaving f e run = ground arith
server_act-IsSafe rand s t ended f e run = absurd (cc run)

client_act-IsSafe :
    (rand : ℕ → ℕ) (s t : System) (place : Place)
    → IsSafe s
    → s.client_at ≡ place
    → client_act rand place s ≡ some t
    → IsSafe t
unfolding client_act
client_act-IsSafe rand s t opening f e run = absurd (cc run)
client_act-IsSafe rand s t resetting f e run = ground arith
client_act-IsSafe rand s t seeding f e run = ground arith
client_act-IsSafe rand s t clearing f e run = ground (arith, empty-is_quit)
client_act-IsSafe rand s t testing f e run = ground arith
client_act-IsSafe rand s t taking f e run = ground arith
client_act-IsSafe rand s t printing f e run = ground arith
client_act-IsSafe rand s t filling f e run = ground arith
client_act-IsSafe rand s t answering f e run = ground arith
client_act-IsSafe rand s t giving f e run = ground arith
client_act-IsSafe rand s t leaving f e run = ground arith
client_act-IsSafe rand s t ended f e run = absurd (cc run)

started-IsSafe : (input : List ℕ) → IsSafe (started input)
started-IsSafe input = ground (arith, empty-is_quit)

pub Reach-IsSafe : {a b : ℕ → ℕ} {s : System} → Reach a b s → IsSafe s
Reach-IsSafe (start input) = started-IsSafe input
Reach-IsSafe {a} (serves {s} t r run) =
    server_act-IsSafe a s t s.server_at (Reach-IsSafe r) refl run
Reach-IsSafe {b} (asks {s} t r run) = client_act-IsSafe b s t s.client_at (Reach-IsSafe r) refl run
