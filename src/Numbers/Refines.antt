-- ===== src/Numbers/Refines.antt =====
-- The numbers that the client sends go through the channel; what the client shows; where the two stop.
use linux_c_homeworks.Prelude.{
  ℕ, ◌≡◌, Bool, true, false, Option, none, some, [], ◌∷◌, ◌==◌, ◌&&◌, ◌||◌, not, if◌then◌else◌,
  arith,
}
use linux_c_homeworks.Numbers.{
  Place, opening, resetting, seeding, clearing, testing, taking, printing, filling, answering,
  giving, leaving, ended, System, server_act, client_act, Reach,
}
use linux_c_homeworks.Numbers.Token.{has_ended, is_clients, is_servers, Reach-IsSafe}
use linux_c_homeworks.Channel.{Channel}
use linux_c_homeworks.Numbers.Talk.{is_owed, is_taking}

-- What of the state is the channel: the number is, while the server has it to print.
abbrev pub channel : System → Channel
channel s = record {
  slot = if is_owed s then some (s.num ∷ []) else none;
  sent = s.sent;
  heard = s.heard;
}

abbrev pub goes : Option System → Bool
goes none = false
goes (some t) = true

server_goes_on :
    (rand : ℕ → ℕ) (s : System) (place : Place)
    → goes (server_act rand place s)
      ≡ not (has_ended place || (is_taking place && (s.sem_0 == 0)) || is_clients place)
unfolding server_act
server_goes_on rand s opening = ground arith
server_goes_on rand s resetting = ground arith
server_goes_on rand s seeding = ground arith
server_goes_on rand s clearing = ground arith
server_goes_on rand s testing = ground arith
server_goes_on rand s taking = ground arith
server_goes_on rand s printing = ground arith
server_goes_on rand s filling = ground arith
server_goes_on rand s answering = ground arith
server_goes_on rand s giving = ground arith
server_goes_on rand s leaving = ground arith
server_goes_on rand s ended = ground arith

client_goes_on :
    (rand : ℕ → ℕ) (s : System) (place : Place)
    → goes (client_act rand place s)
      ≡ not (has_ended place || (is_taking place && (s.sem_1 == 0)) || is_servers place)
unfolding client_act
client_goes_on rand s opening = ground arith
client_goes_on rand s resetting = ground arith
client_goes_on rand s seeding = ground arith
client_goes_on rand s clearing = ground arith
client_goes_on rand s testing = ground arith
client_goes_on rand s taking = ground arith
client_goes_on rand s printing = ground arith
client_goes_on rand s filling = ground arith
client_goes_on rand s answering = ground arith
client_goes_on rand s giving = ground arith
client_goes_on rand s leaving = ground arith
client_goes_on rand s ended = ground arith

module _ {a b : ℕ → ℕ} {s : System} (r : Reach a b s) where
  -- In every state that can be reached some process can go on, unless the client has ended and the
  -- server has ended too or is before the semop that takes.
  pub numbers_go_on :
      (goes (server_act a s.server_at s) || goes (client_act b s.client_at s))
      ≡ not (has_ended s.client_at && (has_ended s.server_at || is_taking s.server_at))
  numbers_go_on =
      let f = Reach-IsSafe r in
      rw (server_goes_on a s s.server_at, client_goes_on b s s.client_at) (ground arith)
