-- ===== src/Sems/Refines.antt =====
-- The two programs with semaphores do what the channel does, and where they stop.
use linux_c_homeworks.Prelude.{
  ◌≡◌, refl, Bool, true, false, Option, none, some, ◌∷◌, ◌==◌, ◌&&◌, ◌||◌, not, if◌then◌else◌,
  arith,
}
use linux_c_homeworks.Shmem.{c_string, is_quit}
use linux_c_homeworks.Sems.{
  Place, opening, testing, taking, printing, comparing, answering, filling, giving, leaving, ended,
  System, server_act, client_act, Reach,
}
use linux_c_homeworks.Sems.Token.{
  server_has, client_has, has_ended, is_filling, is_servers, IsSafe, Reach-IsSafe,
}
use linux_c_homeworks.Channel.{Channel, say, hear, Serves, Asks}
use linux_c_homeworks.Lines.Buffers.{through_newline}
use linux_c_homeworks.Sems.Talk.{is_owed, is_taking, IsTalk, Reach-IsTalk}

-- What of the state is the channel: the string is, while the server has it to print.
abbrev pub channel : System → Channel
channel s = record {
  slot = if is_owed s then some s.string else none;
  sent = s.sent;
  heard = s.heard;
}

server_refines :
    (s t : System) (place : Place)
    → IsSafe s
    → IsTalk s
    → s.server_at ≡ place
    → server_act place s ≡ some t
    → Serves (channel s) (channel t)
unfolding server_act hear
server_refines s t opening f g e run = ground arith
server_refines s t testing f g e run = ground arith
server_refines s t taking f g e run = ground arith
server_refines s t printing f g e run = ground arith
server_refines s t comparing f g e run = ground arith
server_refines s t answering f g e run = ground arith
server_refines s t filling f g e run = absurd (cc run)
server_refines s t giving f g e run = ground arith
server_refines s t leaving f g e run = ground arith
server_refines s t ended f g e run = absurd (cc run)

client_refines :
    (s t : System) (place : Place)
    → IsSafe s
    → IsTalk s
    → s.client_at ≡ place
    → client_act place s ≡ some t
    → Asks (c_string (through_newline 511 s.input)) (channel s) (channel t)
unfolding client_act say
client_refines s t opening f g e run = absurd (cc run)
client_refines s t testing f g e run = ground arith
client_refines s t taking f g e run = ground arith
client_refines s t printing f g e run = ground arith
client_refines s t comparing f g e run = absurd (cc run)
client_refines s t answering f g e run = absurd (cc run)
client_refines s t filling f g e run = ground arith
client_refines s t giving f g e run = ground arith
client_refines s t leaving f g e run = ground arith
client_refines s t ended f g e run = absurd (cc run)

abbrev pub goes : Option System → Bool
goes none = false
goes (some t) = true

server_goes_on :
    (s : System) (place : Place)
    → IsSafe s
    → s.server_at ≡ place
    → goes (server_act place s)
      ≡ not (has_ended place || (is_taking place && (s.sem_0 == 0)) || is_filling place)
unfolding server_act
server_goes_on s opening f e = ground arith
server_goes_on s testing f e = ground arith
server_goes_on s taking f e = ground arith
server_goes_on s printing f e = ground arith
server_goes_on s comparing f e = ground arith
server_goes_on s answering f e = ground arith
server_goes_on s filling f e = ground arith
server_goes_on s giving f e = ground arith
server_goes_on s leaving f e = ground arith
server_goes_on s ended f e = ground arith

client_goes_on :
    (s : System) (place : Place)
    → IsSafe s
    → s.client_at ≡ place
    → goes (client_act place s)
      ≡ not (has_ended place || (is_taking place && (s.sem_1 == 0)) || is_servers place)
unfolding client_act
client_goes_on s opening f e = ground arith
client_goes_on s testing f e = ground arith
client_goes_on s taking f e = ground arith
client_goes_on s printing f e = ground arith
client_goes_on s comparing f e = ground arith
client_goes_on s answering f e = ground arith
client_goes_on s filling f e = ground arith
client_goes_on s giving f e = ground arith
client_goes_on s leaving f e = ground arith
client_goes_on s ended f e = ground arith

module _ {s : System} (r : Reach s) where
  -- While both processes are there, the server is never between its two semops while the client is
  -- between its own.
  pub apart :
      (has_ended s.server_at || has_ended s.client_at) ≡ false
      → (server_has s.server_at && client_has s.client_at) ≡ false
  apart alive = let f = Reach-IsSafe r in ground arith

  -- From every state that can be reached, a step of the server is either unseen by the channel or takes
  -- its text out, and a step of the client is either unseen or puts the next line of the user there,
  -- when it is empty.
  pub sems_refine :
      ((t : System) → server_act s.server_at s ≡ some t → Serves (channel s) (channel t))
      × ((t : System)
          → client_act s.client_at s ≡ some t
          → Asks (c_string (through_newline 511 s.input)) (channel s) (channel t))
  sems_refine = (
    λ t run. server_refines s t s.server_at (Reach-IsSafe r) (Reach-IsTalk r) refl run,
    λ t run. client_refines s t s.client_at (Reach-IsSafe r) (Reach-IsTalk r) refl run,
  )

  -- In every state that can be reached some process can go on, unless the client has ended and the
  -- server has ended too or is before the semop that takes.
  pub sems_go_on :
      (goes (server_act s.server_at s) || goes (client_act s.client_at s))
      ≡ not (has_ended s.client_at && (has_ended s.server_at || is_taking s.server_at))
  sems_go_on =
      let f = Reach-IsSafe r in
      rw (server_goes_on s s.server_at f refl, client_goes_on s s.client_at f refl) (ground arith)

  -- Where the client is about to exit and the server is before the semop that takes, the text that ends
  -- the conversation has not been printed; once the client has exited, neither process can go on.
  pub exit_hangs :
      (t : System)
      → s.server_at ≡ taking
      → s.client_at ≡ leaving
      → client_act leaving s ≡ some t
      → (is_quit t.string ≡ true)
        × (t.sent ≡ t.string ∷ t.heard)
        × (server_act t.server_at t ≡ none)
        × (client_act t.client_at t ≡ none)
  unfolding client_act server_act
  exit_hangs t waiting left run =
      let f = Reach-IsSafe r in
      let g = Reach-IsTalk r in (ground arith, ground arith, ground arith, ground arith)
