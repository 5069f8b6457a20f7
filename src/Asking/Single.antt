-- ===== src/Asking/Single.antt =====
-- A server and one client.
use linux_c_homeworks.Prelude.{
  ℕ, zero, suc, ◌≡◌, refl, Bool, true, false, Option, none, some, List, [], ◌∷◌, ◌&&◌, ◌||◌, not,
  if◌then◌else◌, arith,
}
use linux_c_homeworks.Asking.{
  Pair, plain, poly, Message, ServerPlace, waiting, replying, acking, removing, gone, Place,
  sending, receiving, confirming, ended, System, line, answer, find, server_act, client_act, Reach,
  start, serves, asks,
}

abbrev pub pair : Bool → Pair
pair true = plain
pair false = poly

-- The queue when the server and the client are at these places; `none` for places at which they are never
-- together.
abbrev queue_at : Bool → List ℕ → ServerPlace → Place → Option (List Message)
queue_at b input waiting sending = some []
queue_at b input waiting receiving = some (line (pair b) 0 input ∷ [])
queue_at b input waiting confirming = none
queue_at b input waiting ended = none
queue_at b input replying sending = none
queue_at b input replying receiving = some []
queue_at b input replying confirming = none
queue_at b input replying ended = none
queue_at b input acking sending = none
queue_at b input acking receiving = some (answer (pair b) (some (line (pair b) 0 input)) ∷ [])
queue_at b input acking confirming = some []
queue_at true input acking ended =
    some (record (answer plain (some (line plain 0 input))) { mtype = 2; is_long = true } ∷ [])
queue_at false input acking ended = some (line poly 0 input ∷ [])
queue_at b input removing sending = none
queue_at b input removing receiving = none
queue_at b input removing confirming = none
queue_at true input removing ended =
    some (record (answer plain (some (line plain 0 input))) { mtype = 2; is_long = true } ∷ [])
queue_at false input removing ended = some []
queue_at b input gone sending = none
queue_at b input gone receiving = none
queue_at b input gone confirming = none
queue_at true input gone ended =
    some (record (answer plain (some (line plain 0 input))) { mtype = 2; is_long = true } ∷ [])
queue_at false input gone ended = some []

abbrev pub has_gone : ServerPlace → Bool
has_gone waiting = false
has_gone replying = false
has_gone acking = false
has_gone removing = false
has_gone gone = true

abbrev pub is_waiting : ServerPlace → Bool
is_waiting waiting = true
is_waiting replying = false
is_waiting acking = false
is_waiting removing = false
is_waiting gone = false

abbrev pub has_ended : Place → Bool
has_ended sending = false
has_ended receiving = false
has_ended confirming = false
has_ended ended = true

abbrev pub has_reply : Place → Bool
has_reply sending = false
has_reply receiving = false
has_reply confirming = true
has_reply ended = true

record IsCourse (b : Bool) (input : List ℕ) (s : System) : Type 0 where
  queue : queue_at b input s.server_at (s.clients 0).place ≡ some s.queue
  removed : s.is_removed ≡ has_gone s.server_at
  own : (s.clients 0).input ≡ input
  shown : s.shown ≡ (if is_waiting s.server_at then none else some (line (pair b) 0 input))
  reply : (s.clients 0).reply ≡ (
      if has_reply (s.clients 0).place
      then some (answer (pair b) (some (line (pair b) 0 input)))
      else none)

server_act-IsCourse :
    (b : Bool) (input : List ℕ) (s t : System) (place : ServerPlace)
    → s.server_at ≡ place
    → IsCourse b input s
    → server_act (pair b) place s ≡ some t
    → IsCourse b input t
unfolding server_act find
server_act-IsCourse true input s t waiting e f run = ground arith
server_act-IsCourse true input s t replying e f run = ground arith
server_act-IsCourse true input s t acking e f run = ground arith
server_act-IsCourse true input s t removing e f run = ground arith
server_act-IsCourse true input s t gone e f run = absurd (cc run)
server_act-IsCourse false input s t waiting e f run = ground arith
server_act-IsCourse false input s t replying e f run = ground arith
server_act-IsCourse false input s t acking e f run = ground arith
server_act-IsCourse false input s t removing e f run = ground arith
server_act-IsCourse false input s t gone e f run = absurd (cc run)

client_act-IsCourse :
    (b : Bool) (input : List ℕ) (s t : System) (place : Place)
    → (s.clients 0).place ≡ place
    → IsCourse b input s
    → client_act (pair b) 0 place s ≡ some t
    → IsCourse b input t
unfolding client_act find
client_act-IsCourse true input s t sending e f run = ground arith
client_act-IsCourse true input s t receiving e f run = ground arith
client_act-IsCourse true input s t confirming e f run = ground arith
client_act-IsCourse true input s t ended e f run = absurd (cc run)
client_act-IsCourse false input s t sending e f run = ground arith
client_act-IsCourse false input s t receiving e f run = ground arith
client_act-IsCourse false input s t confirming e f run = ground arith
client_act-IsCourse false input s t ended e f run = absurd (cc run)

Reach-IsCourse :
    (b : Bool) {input : ℕ → List ℕ} {s : System} → Reach (pair b) 1 input s → IsCourse b (input 0) s
Reach-IsCourse b {input} start = record {
  queue = refl;
  removed = refl;
  own = refl;
  shown = refl;
  reply = refl;
}
Reach-IsCourse b {input} (serves {s} t r run) =
    server_act-IsCourse b (input 0) s t s.server_at refl (Reach-IsCourse b r) run
Reach-IsCourse b {input} (asks {s} zero t r small run) =
    client_act-IsCourse b (input 0) s t (s.clients 0).place refl (Reach-IsCourse b r) run
Reach-IsCourse b {input} (asks {s} (suc i) t r small run) = absurd (ground arith)

abbrev pub goes_on : Option System → Bool
goes_on none = false
goes_on (some t) = true

course_goes_on :
    (b : Bool) (input : List ℕ) (s : System) (place : ServerPlace) (other : Place)
    → s.server_at ≡ place
    → (s.clients 0).place ≡ other
    → IsCourse b input s
    → (goes_on (server_act (pair b) place s) || goes_on (client_act (pair b) 0 other s))
      ≡ not (has_gone place && has_ended other)
unfolding server_act client_act find
course_goes_on true input s waiting other e d f = ground arith
course_goes_on true input s replying other e d f = ground arith
course_goes_on true input s acking other e d f = ground arith
course_goes_on true input s removing other e d f = ground arith
course_goes_on true input s gone other e d f = ground arith
course_goes_on false input s waiting other e d f = ground arith
course_goes_on false input s replying other e d f = ground arith
course_goes_on false input s acking other e d f = ground arith
course_goes_on false input s removing other e d f = ground arith
course_goes_on false input s gone other e d f = ground arith

course_removed :
    (b : Bool) (input : List ℕ) (s : System) (place : ServerPlace)
    → s.server_at ≡ place
    → IsCourse b input s
    → (s.is_removed && not (has_ended (s.clients 0).place)) ≡ false
course_removed true input s waiting e f = ground arith
course_removed true input s replying e f = ground arith
course_removed true input s acking e f = ground arith
course_removed true input s removing e f = ground arith
course_removed true input s gone e f = ground arith
course_removed false input s waiting e f = ground arith
course_removed false input s replying e f = ground arith
course_removed false input s acking e f = ground arith
course_removed false input s removing e f = ground arith
course_removed false input s gone e f = ground arith

-- A server of either pair with one client: in every state that can be reached one of them can go on,
-- unless both have ended; past the first msgrcv the server has shown the line of the client, and past
-- its msgrcv the client has shown an "Ok!" that is meant for it; and the server removes the queue only when
-- the client has ended.
pub single_lem :
    (b : Bool) {input : ℕ → List ℕ} {s : System}
    → Reach (pair b) 1 input s
    → ((goes_on (server_act (pair b) s.server_at s)
          || goes_on (client_act (pair b) 0 (s.clients 0).place s))
        ≡ not (has_gone s.server_at && has_ended (s.clients 0).place))
      × (s.shown ≡ (if is_waiting s.server_at then none else some (line (pair b) 0 (input 0))))
      × ((s.clients 0).reply ≡ (
          if has_reply (s.clients 0).place
          then some (answer (pair b) (some (line (pair b) 0 (input 0))))
          else none))
      × ((s.is_removed && not (has_ended (s.clients 0).place)) ≡ false)
single_lem b {input} {s} r =
    let f = Reach-IsCourse b r in
    (
      course_goes_on b (input 0) s s.server_at (s.clients 0).place refl refl f,
      f.shown,
      f.reply,
      course_removed b (input 0) s s.server_at refl f,
    )
