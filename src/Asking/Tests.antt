-- ===== src/Asking/Tests.antt =====
-- Runs with one client, and with two of which one gets the answer of the other.
use linux_c_homeworks.Prelude.{
  ℕ, zero, suc, ◌≡◌, refl, true, false, Option, none, some, List, [], ◌∷◌, ◌&&◌, ◌||◌, not,
  if◌then◌else◌, Option-cases, inl, inr,
}
use linux_c_homeworks.Asking.{
  Pair, plain, poly, Message, System, line, answer, find, server_act, client_act, started, Reach,
  start, serves, asks,
}
use linux_c_homeworks.Asking.Single.{
  pair, goes_on, has_gone, has_ended, is_waiting, has_reply, single_lem,
}

-- The server when it can go on, or else client i.
round : Pair → ℕ → System → System
round p i s = elim (server_act p s.server_at s) [
  | none ↦ elim (client_act p i (s.clients i).place s) [ none ↦ s | some t ↦ t ]
  | some t ↦ t
]

rounds : Pair → ℕ → ℕ → System → System
rounds p i zero s = s
rounds p i (suc n) s = rounds p i n (round p i s)

round-Reach :
    (p : Pair) (input : ℕ → List ℕ) (s : System) → Reach p 1 input s → Reach p 1 input (round p 0 s)
unfolding round
round-Reach p input s r = elim (Option-cases (server_act p s.server_at s)) [
  | inl stuck ↦ elim (Option-cases (client_act p 0 (s.clients 0).place s)) [
    | inl stays ↦ rw (stuck, stays, round) r
    | inr (t, run) ↦ rw (stuck, run, round) (asks 0 t r refl run)
  ]
  | inr (t, run) ↦ rw (run, round) (serves t r run)
]

rounds-Reach :
    (p : Pair) (input : ℕ → List ℕ) (n : ℕ) (s : System)
    → Reach p 1 input s
    → Reach p 1 input (rounds p 0 n s)
unfolding rounds
rounds-Reach p input zero s r = r
rounds-Reach p input (suc n) s r = rounds-Reach p input n (round p 0 s) (round-Reach p input s r)

abbrev typed : ℕ → List ℕ
typed i = 104 ∷ 105 ∷ 10 ∷ []

abbrev last : System
last = rounds plain 0 8 (started typed)

-- Both have ended, and the confirmation, which is too long, is still in the queue.
all_over : (has_gone last.server_at && has_ended (last.clients 0).place) ≡ true
unfolding rounds round server_act client_act find
all_over = refl

single_lem_example :
    ((goes_on (server_act (pair true) last.server_at last)
        || goes_on (client_act (pair true) 0 (last.clients 0).place last))
      ≡ not (has_gone last.server_at && has_ended (last.clients 0).place))
    × (last.shown
        ≡ (if is_waiting last.server_at then none else some (line (pair true) 0 (typed 0))))
    × ((last.clients 0).reply ≡ (
        if has_reply (last.clients 0).place
        then some (answer (pair true) (some (line (pair true) 0 (typed 0))))
        else none))
    × ((last.is_removed && not (has_ended (last.clients 0).place)) ≡ false)
single_lem_example = single_lem true (rounds-Reach plain typed 8 (started typed) start)

client_rounds : Pair → ℕ → ℕ → System → System
client_rounds p i zero s = s
client_rounds p i (suc n) s = elim (client_act p i (s.clients i).place s) [
  | none ↦ s
  | some t ↦ client_rounds p i n t
]

abbrev receiver : Option Message → Option ℕ
receiver none = none
receiver (some m) = some m.rcv_pid

-- Client 0 sends its line, the server answers it, and client 1 sends its own line and takes the answer.
wrong_client :
    receiver ((client_rounds poly 1 2 (rounds poly 0 3 (started typed))).clients 1).reply ≡ some 1
unfolding client_rounds rounds round server_act client_act find
wrong_client = refl
