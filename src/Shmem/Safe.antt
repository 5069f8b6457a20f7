-- ===== src/Shmem/Safe.antt =====
-- The locks and the turn: the two processes are never both between the empty loop and the release.
use linux_c_homeworks.Prelude.{ℕ, ◌≤◌, ◌≡◌, refl, Bool, true, false, some, List, ◌&&◌, arith}
use linux_c_homeworks.Shmem.{
  busy, client, server, Place, testing, raising, yielding, at_lock, at_turn, checking, marking,
  printing, comparing, answering, filling, releasing, ended, System, server_act, client_act,
  started, Reach, start, serves, asks,
}

-- Between the end of the empty loop and the release of the lock.
abbrev pub is_inside : Place → Bool
is_inside testing = false
is_inside raising = false
is_inside yielding = false
is_inside at_lock = false
is_inside at_turn = false
is_inside checking = true
is_inside marking = true
is_inside printing = true
is_inside comparing = true
is_inside answering = true
is_inside filling = true
is_inside releasing = true
is_inside ended = false

-- With its lock set and the turn given away.
abbrev pub has_yielded : Place → Bool
has_yielded testing = false
has_yielded raising = false
has_yielded yielding = false
has_yielded at_lock = true
has_yielded at_turn = true
has_yielded checking = true
has_yielded marking = true
has_yielded printing = true
has_yielded comparing = true
has_yielded answering = true
has_yielded filling = true
has_yielded releasing = true
has_yielded ended = false

-- With its lock set.
abbrev pub has_set : Place → Bool
has_set testing = false
has_set raising = false
has_set yielding = true
has_set at_lock = true
has_set at_turn = true
has_set checking = true
has_set marking = true
has_set printing = true
has_set comparing = true
has_set answering = true
has_set filling = true
has_set releasing = true
has_set ended = false

pub record IsSafe (s : System) : Type 0 where
  pub turns : s.turn ≤ 1
  pub server_set : has_set s.server_at ≡ true → s.server_lock ≡ busy
  pub client_set : has_set s.client_at ≡ true → s.client_lock ≡ busy
  pub server_first : is_inside s.server_at ≡ true → has_yielded s.client_at ≡ true → s.turn ≡ server
  pub client_first : is_inside s.client_at ≡ true → has_yielded s.server_at ≡ true → s.turn ≡ client

server_act-IsSafe :
    (s t : System) (place : Place)
    → IsSafe s
    → s.server_at ≡ place
    → server_act place s ≡ some t
    → IsSafe t
unfolding server_act
server_act-IsSafe s t testing f e run = ground arith
server_act-IsSafe s t raising f e run = ground arith
server_act-IsSafe s t yielding f e run = ground arith
server_act-IsSafe s t at_lock f e run = ground arith
server_act-IsSafe s t at_turn f e run = ground arith
server_act-IsSafe s t checking f e run = ground arith
server_act-IsSafe s t marking f e run = ground arith
server_act-IsSafe s t printing f e run = ground arith
server_act-IsSafe s t comparing f e run = ground arith
server_act-IsSafe s t answering f e run = ground arith
server_act-IsSafe s t filling f e run = absurd (cc run)
server_act-IsSafe s t releasing f e run = ground arith
server_act-IsSafe s t ended f e run = absurd (cc run)

client_act-IsSafe :
    (s t : System) (place : Place)
    → IsSafe s
    → s.client_at ≡ place
    → client_act place s ≡ some t
    → IsSafe t
unfolding client_act
client_act-IsSafe s t testing f e run = ground arith
client_act-IsSafe s t raising f e run = ground arith
client_act-IsSafe s t yielding f e run = ground arith
client_act-IsSafe s t at_lock f e run = ground arith
client_act-IsSafe s t at_turn f e run = ground arith
client_act-IsSafe s t checking f e run = ground arith
client_act-IsSafe s t marking f e run = ground arith
client_act-IsSafe s t printing f e run = ground arith
client_act-IsSafe s t comparing f e run = absurd (cc run)
client_act-IsSafe s t answering f e run = absurd (cc run)
client_act-IsSafe s t filling f e run = ground arith
client_act-IsSafe s t releasing f e run = ground arith
client_act-IsSafe s t ended f e run = absurd (cc run)

started-IsSafe : (input : List ℕ) → IsSafe (started input)
started-IsSafe input = ground arith

pub Reach-IsSafe : {s : System} → Reach s → IsSafe s
Reach-IsSafe (start input) = started-IsSafe input
Reach-IsSafe (serves {s} t r run) = server_act-IsSafe s t s.server_at (Reach-IsSafe r) refl run
Reach-IsSafe (asks {s} t r run) = client_act-IsSafe s t s.client_at (Reach-IsSafe r) refl run

-- The server and the client are never both between the end of the empty loop and the release of the
-- lock, where they test and set readlast and read and write the string.
pub one_inside : {s : System} → Reach s → (is_inside s.server_at && is_inside s.client_at) ≡ false
one_inside r = let f = Reach-IsSafe r in ground arith
