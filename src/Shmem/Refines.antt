-- ===== src/Shmem/Refines.antt =====
-- The two programs with locks do what the channel does.
use linux_c_homeworks.Prelude.{◌≡◌, refl, none, some, if◌then◌else◌, arith}
use linux_c_homeworks.Channel.{Channel, say, hear, Serves, Asks}
use linux_c_homeworks.Lines.Buffers.{through_newline}
use linux_c_homeworks.Shmem.{
  c_string, Place, testing, raising, yielding, at_lock, at_turn, checking, marking, printing,
  comparing, answering, filling, releasing, ended, System, server_act, client_act, Reach,
}
use linux_c_homeworks.Shmem.Safe.{IsSafe, Reach-IsSafe}
use linux_c_homeworks.Shmem.Talk.{is_owed, IsTalk, Reach-IsTalk}

-- What of the state is the channel: the string is, while the server has it to print.
abbrev pub channel : System → Channel
channel s = record {
  slot = if is_owed s then some s.string else none;
  sent = s.sent;
  heard = s.heard;
}

server_refines :
    (s t : System) (place : Place)
    → IsSafe s
    → IsTalk s
    → s.server_at ≡ place
    → server_act place s ≡ some t
    → Serves (channel s) (channel t)
unfolding server_act hear
server_refines s t testing g f e run = ground arith
server_refines s t raising g f e run = ground arith
server_refines s t yielding g f e run = ground arith
server_refines s t at_lock g f e run = ground arith
server_refines s t at_turn g f e run = ground arith
server_refines s t checking g f e run = ground arith
server_refines s t marking g f e run = ground arith
server_refines s t printing g f e run = ground arith
server_refines s t comparing g f e run = ground arith
server_refines s t answering g f e run = ground arith
server_refines s t filling g f e run = absurd (cc run)
server_refines s t releasing g f e run = ground arith
server_refines s t ended g f e run = absurd (cc run)

client_refines :
    (s t : System) (place : Place)
    → IsSafe s
    → IsTalk s
    → s.client_at ≡ place
    → client_act place s ≡ some t
    → Asks (c_string (through_newline 511 s.input)) (channel s) (channel t)
unfolding client_act say
client_refines s t testing g f e run = ground arith
client_refines s t raising g f e run = ground arith
client_refines s t yielding g f e run = ground arith
client_refines s t at_lock g f e run = ground arith
client_refines s t at_turn g f e run = ground arith
client_refines s t checking g f e run = ground arith
client_refines s t marking g f e run = ground arith
client_refines s t printing g f e run = ground arith
client_refines s t comparing g f e run = absurd (cc run)
client_refines s t answering g f e run = absurd (cc run)
client_refines s t filling g f e run = ground arith
client_refines s t releasing g f e run = ground arith
client_refines s t ended g f e run = absurd (cc run)

-- From every state that can be reached, a step of the server is either unseen by the channel or takes
-- its text out, and a step of the client is either unseen or puts the next line of the user there,
-- when it is empty.
pub refines :
    {s : System}
    → Reach s
    → ((t : System) → server_act s.server_at s ≡ some t → Serves (channel s) (channel t))
      × ((t : System)
          → client_act s.client_at s ≡ some t
          → Asks (c_string (through_newline 511 s.input)) (channel s) (channel t))
refines {s} r = (
  λ t run. server_refines s t s.server_at (Reach-IsSafe r) (Reach-IsTalk r) refl run,
  λ t run. client_refines s t s.client_at (Reach-IsSafe r) (Reach-IsTalk r) refl run,
)
