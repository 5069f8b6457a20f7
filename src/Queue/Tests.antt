-- ===== src/Queue/Tests.antt =====
-- A conversation in which the server answers, and one in which the client takes its own message.
use linux_c_homeworks.Prelude.{
  ℕ, zero, suc, ◌+◌, ◌≤◌, ◌≡◌, refl, true, false, none, some, [], ◌∷◌, ◌++◌, ◌&&◌, ◌||◌, not,
  Option-cases, length, inl, inr,
}
use linux_c_homeworks.Lines.Buffers.{before_newline}
use linux_c_homeworks.Shmem.{c_string, same}
use linux_c_homeworks.Queue.{
  System, client_pid, is_quit, text_typed, client_receives, server_act, client_act, started, Reach,
  start, serves, asks,
}
use linux_c_homeworks.Queue.Token.{server_holds, client_holds, has_ended, one_if}
use linux_c_homeworks.Queue.Waits.{goes, is_receiving, queue_lem, queue_never_stuck}

server_runs : ℕ → System → System
server_runs zero s = s
server_runs (suc n) s = elim (server_act s.server_at s) [ none ↦ s | some t ↦ server_runs n t ]

client_runs : ℕ → System → System
client_runs zero s = s
client_runs (suc n) s = elim (client_act s.client_at s) [ none ↦ s | some t ↦ client_runs n t ]

server_runs-Reach : (n : ℕ) (s : System) → Reach s → Reach (server_runs n s)
unfolding server_runs
server_runs-Reach zero s r = r
server_runs-Reach (suc n) s r = elim (Option-cases (server_act s.server_at s)) [
  | inl stuck ↦ rw (stuck, server_runs) r
  | inr (t, run) ↦ rw (run, server_runs) (server_runs-Reach n t (serves t r run))
]

client_runs-Reach : (n : ℕ) (s : System) → Reach s → Reach (client_runs n s)
unfolding client_runs
client_runs-Reach zero s r = r
client_runs-Reach (suc n) s r = elim (Option-cases (client_act s.client_at s)) [
  | inl stuck ↦ rw (stuck, client_runs) r
  | inr (t, run) ↦ rw (run, client_runs) (client_runs-Reach n t (asks t r run))
]

-- The client has sent "hi" and waits, and so does the server.
abbrev both_wait : System
both_wait = client_runs 3 (started [] (104 ∷ 105 ∷ 10 ∷ []))

both_wait-Reach : Reach both_wait
both_wait-Reach = client_runs-Reach 3 _ (start [] (104 ∷ 105 ∷ 10 ∷ []))

both_receive : (is_receiving both_wait.server_at ≡ true) × (is_receiving both_wait.client_at ≡ true)
unfolding client_runs client_act is_quit text_typed same c_string before_newline
both_receive = (refl, refl)

-- The client runs on and takes what it has sent: the server never sees it.
own_message : (client_runs 1 both_wait).client_message.snd_pid ≡ client_pid
unfolding client_runs client_act client_receives is_quit text_typed same c_string before_newline
own_message = refl

-- The server takes it and answers "q", and the client prints that.
abbrev answered : System
answered = client_runs 2 (server_runs 6 (client_runs 3 (started (113 ∷ 10 ∷ []) (104 ∷ 10 ∷ []))))

answered-Reach : Reach answered
answered-Reach =
    client_runs-Reach 2 _
      (server_runs-Reach 6 _ (client_runs-Reach 3 _ (start (113 ∷ 10 ∷ []) (104 ∷ 10 ∷ []))))

queue_lem_example :
    (length answered.queue ≤ 1)
    × (answered.sent ≡ answered.queue ++ answered.received)
    × (answered.is_removed ≡ false
        → length answered.queue
            + one_if (server_holds answered.server_at)
            + one_if (client_holds answered.client_at)
          ≡ 1)
queue_lem_example = queue_lem answered-Reach

queue_never_stuck_example :
    (goes (server_act answered.server_at answered) || goes (client_act answered.client_at answered))
    ≡ not (has_ended answered.server_at && has_ended answered.client_at)
queue_never_stuck_example = queue_never_stuck answered-Reach
