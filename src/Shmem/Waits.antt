-- ===== src/Shmem/Waits.antt =====
-- What the server and the client print, when they end, and that neither waits for nothing.
use linux_c_homeworks.Prelude.{
  ℕ, ◌+◌, ◌≡◌, refl, Bool, true, false, some, List, ◌∷◌, ◌==◌, ◌&&◌, ◌||◌, arith, length, ◌⊎◌,
}
use linux_c_homeworks.Shmem.{
  busy, client, server, is_quit, Place, testing, raising, yielding, at_lock, at_turn, checking,
  marking, printing, comparing, answering, filling, releasing, ended, System, server_act,
  client_act, started, Reach, start, serves, asks,
}
use linux_c_homeworks.Shmem.Safe.{IsSafe, Reach-IsSafe}
use linux_c_homeworks.Shmem.Talk.{replies, latest, IsTalk, Reach-IsTalk}

abbrev pub has_ended : Place → Bool
has_ended place = elim place [ ended ↦ true | _ ↦ false ]

is_at_answer : Place → Bool
is_at_answer place = elim place [ answering ↦ true | _ ↦ false ]

record IsOver (s : System) : Type 0 where
  server_over : has_ended s.server_at ≡ true → is_quit s.string ≡ true
  client_over : has_ended s.client_at ≡ true → is_quit s.string ≡ true
  goes_on : is_at_answer s.server_at ≡ true → is_quit s.string ≡ false

server_act-IsOver :
    (s t : System) (place : Place)
    → IsSafe s
    → IsTalk s
    → IsOver s
    → s.server_at ≡ place
    → server_act place s ≡ some t
    → IsOver t
unfolding server_act is_at_answer
server_act-IsOver s t testing g h f e run = ground arith
server_act-IsOver s t raising g h f e run = ground arith
server_act-IsOver s t yielding g h f e run = ground arith
server_act-IsOver s t at_lock g h f e run = ground arith
server_act-IsOver s t at_turn g h f e run = ground arith
server_act-IsOver s t checking g h f e run = ground arith
server_act-IsOver s t marking g h f e run = ground arith
server_act-IsOver s t printing g h f e run = ground arith
server_act-IsOver s t comparing g h f e run = ground arith
server_act-IsOver s t answering g h f e run = ground arith
server_act-IsOver s t filling g h f e run = absurd (cc run)
server_act-IsOver s t releasing g h f e run = ground arith
server_act-IsOver s t ended g h f e run = absurd (cc run)

client_act-IsOver :
    (s t : System) (place : Place)
    → IsSafe s
    → IsTalk s
    → IsOver s
    → s.client_at ≡ place
    → client_act place s ≡ some t
    → IsOver t
unfolding client_act is_at_answer
client_act-IsOver s t testing g h f e run = ground arith
client_act-IsOver s t raising g h f e run = ground arith
client_act-IsOver s t yielding g h f e run = ground arith
client_act-IsOver s t at_lock g h f e run = ground arith
client_act-IsOver s t at_turn g h f e run = ground arith
client_act-IsOver s t checking g h f e run = ground arith
client_act-IsOver s t marking g h f e run = ground arith
client_act-IsOver s t printing g h f e run = ground arith
client_act-IsOver s t comparing g h f e run = absurd (cc run)
client_act-IsOver s t answering g h f e run = absurd (cc run)
client_act-IsOver s t filling g h f e run = ground arith
client_act-IsOver s t releasing g h f e run = ground arith
client_act-IsOver s t ended g h f e run = absurd (cc run)

started-IsOver : (input : List ℕ) → IsOver (started input)
unfolding is_at_answer
started-IsOver input = ground arith

Reach-IsOver : {s : System} → Reach s → IsOver s
Reach-IsOver (start input) = started-IsOver input
Reach-IsOver (serves {s} t r run) =
    server_act-IsOver s t s.server_at (Reach-IsSafe r) (Reach-IsTalk r) (Reach-IsOver r) refl run
Reach-IsOver (asks {s} t r run) =
    client_act-IsOver s t s.client_at (Reach-IsSafe r) (Reach-IsTalk r) (Reach-IsOver r) refl run

-- In the empty loop, with its condition true.
abbrev pub is_spinning : Place → Bool
is_spinning place = elim place [ at_lock ↦ true | at_turn ↦ true | _ ↦ false ]

abbrev pub server_waits : System → Bool
server_waits s = is_spinning s.server_at && (s.client_lock == busy) && (s.turn == client)

abbrev pub client_waits : System → Bool
client_waits s = is_spinning s.client_at && (s.server_lock == busy) && (s.turn == server)

module _ {s : System} (r : Reach s) where
  -- The server has printed every text that the client has typed, in order and once, but for the last
  -- one, which may still stand in the block; the client has printed "Hello!" first and "Ok!" from then
  -- on, one text before each that it typed.
  pub talk_lem :
      ((s.sent ≡ s.heard) ⊎ (s.sent ≡ s.string ∷ s.heard))
      × (s.shown ≡ replies (length s.shown))
      × ((length s.shown ≡ length s.sent) ⊎ (length s.shown ≡ length s.sent + 1))
  talk_lem = let f = Reach-IsTalk r in (ground arith, f.answers, ground arith)

  -- A process that has ended leaves "q\n" in the block, the last text that the client typed. One that
  -- waits in its empty loop waits for a process that has not ended and that does not wait itself.
  pub waits_lem :
      ((has_ended s.server_at || has_ended s.client_at) ≡ true
        → (is_quit s.string ≡ true) × (latest s.sent ≡ s.string))
      × (server_waits s ≡ true → (has_ended s.client_at ≡ false) × (client_waits s ≡ false))
      × (client_waits s ≡ true → (has_ended s.server_at ≡ false) × (server_waits s ≡ false))
  waits_lem =
      let g = Reach-IsSafe r in
      let h = Reach-IsTalk r in
      let f = Reach-IsOver r in (λ e. ground arith, λ e. ground arith, λ e. ground arith)
