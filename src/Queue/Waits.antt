-- ===== src/Queue/Waits.antt =====
-- Where the two programs wait for each other.
use linux_c_homeworks.Prelude.{
  ◌+◌, ◌≤◌, ◌≡◌, Bool, true, false, Option, none, some, ◌++◌, ◌==◌, ◌&&◌, ◌||◌, not, arith, length,
}
use linux_c_homeworks.Queue.{
  Place, typing, sending, testing, receiving, printing, leaving, ended, System, server_receives,
  client_receives, server_act, client_act, Reach,
}
use linux_c_homeworks.Queue.Token.{
  server_holds, client_holds, has_ended, is_leaving, one_if, Reach-IsSafe,
}

abbrev pub goes : Option System → Bool
goes none = false
goes (some t) = true

abbrev pub is_receiving : Place → Bool
is_receiving place = elim place [ receiving ↦ true | _ ↦ false ]

server_goes_on :
    (s : System) (place : Place)
    → goes (server_act place s)
      ≡ not (has_ended place || (is_receiving place && not s.is_removed && (length s.queue == 0)))
unfolding server_act server_receives
server_goes_on s typing = ground arith
server_goes_on s sending = ground arith
server_goes_on s testing = ground arith
server_goes_on s receiving = ground arith
server_goes_on s printing = ground arith
server_goes_on s leaving = ground arith
server_goes_on s ended = ground arith

client_goes_on :
    (s : System) (place : Place)
    → is_leaving place ≡ false
    → goes (client_act place s)
      ≡ not (has_ended place || (is_receiving place && not s.is_removed && (length s.queue == 0)))
unfolding client_act client_receives
client_goes_on s typing h = ground arith
client_goes_on s sending h = ground arith
client_goes_on s testing h = ground arith
client_goes_on s receiving h = ground arith
client_goes_on s printing h = ground arith
client_goes_on s leaving h = ground arith
client_goes_on s ended h = ground arith

module _ {s : System} (r : Reach s) where
  -- The queue never has more than one message, and every message that was sent has been received once,
  -- in the order of sending, but for the one that is in the queue. Until the queue is removed, exactly one
  -- of three holds: a message is in the queue, or the server or the client has one to answer or is about
  -- to send one.
  pub queue_lem :
      (length s.queue ≤ 1)
      × (s.sent ≡ s.queue ++ s.received)
      × (s.is_removed ≡ false
          → length s.queue + one_if (server_holds s.server_at) + one_if (client_holds s.client_at)
            ≡ 1)
  queue_lem = let f = Reach-IsSafe r in (f.fits, f.order, f.token)

  -- In every state that can be reached, unless both programs have ended, one of them can go on.
  pub queue_never_stuck :
      (goes (server_act s.server_at s) || goes (client_act s.client_at s))
      ≡ not (has_ended s.server_at && has_ended s.client_at)
  queue_never_stuck =
      let f = Reach-IsSafe r in
      rw (server_goes_on s s.server_at, client_goes_on s s.client_at f.client_place) (ground arith)

  -- Where both programs wait for a message there is exactly one, and either of them can take it,
  -- whoever has sent it.
  pub either_takes :
      is_receiving s.server_at ≡ true
      → is_receiving s.client_at ≡ true
      → (length s.queue ≡ 1)
        × (goes (server_act s.server_at s) ≡ true)
        × (goes (client_act s.client_at s) ≡ true)
  either_takes server_waits client_waits =
      let f = Reach-IsSafe r in
      let one : length s.queue ≡ 1 = ground arith in
      (
        one,
        rw (server_goes_on s s.server_at) (ground arith),
        rw (client_goes_on s s.client_at f.client_place) (ground arith),
      )
