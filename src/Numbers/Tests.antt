-- ===== src/Numbers/Tests.antt =====
-- A run in which the client sends one number and the server answers it.
use linux_c_homeworks.Prelude.{
  ℕ, zero, suc, ◌+◌, ◌≡◌, refl, none, some, [], ◌∷◌, Option-cases, inl, inr, ◌||◌, ◌&&◌, not,
}
use linux_c_homeworks.Lines.Buffers.{through_newline}
use linux_c_homeworks.Shmem.{is_quit, same, c_string}
use linux_c_homeworks.Numbers.{System, server_act, client_act, started, Reach, start, serves, asks}
use linux_c_homeworks.Numbers.Token.{has_ended}
use linux_c_homeworks.Numbers.Talk.{is_taking}
use linux_c_homeworks.Numbers.Refines.{goes, numbers_go_on}

abbrev a : ℕ → ℕ
a i = i + 100

abbrev b : ℕ → ℕ
b i = i + 200

server_runs : ℕ → System → System
server_runs zero s = s
server_runs (suc n) s = elim (server_act a s.server_at s) [ none ↦ s | some t ↦ server_runs n t ]

server_runs-Reach : (n : ℕ) (s : System) → Reach a b s → Reach a b (server_runs n s)
unfolding server_runs
server_runs-Reach zero s r = r
server_runs-Reach (suc n) s r = elim (Option-cases (server_act a s.server_at s)) [
  | inl stuck ↦ rw (stuck, server_runs) r
  | inr (t, run) ↦ rw (run, server_runs) (server_runs-Reach n t (serves t r run))
]

client_runs : ℕ → System → System
client_runs zero s = s
client_runs (suc n) s = elim (client_act b s.client_at s) [ none ↦ s | some t ↦ client_runs n t ]

client_runs-Reach : (n : ℕ) (s : System) → Reach a b s → Reach a b (client_runs n s)
unfolding client_runs
client_runs-Reach zero s r = r
client_runs-Reach (suc n) s r = elim (Option-cases (client_act b s.client_at s)) [
  | inl stuck ↦ rw (stuck, client_runs) r
  | inr (t, run) ↦ rw (run, client_runs) (client_runs-Reach n t (asks t r run))
]

abbrev answered : System
answered = server_runs 3 (client_runs 9 (server_runs 2 (started (10 ∷ []))))

answered-Reach : Reach a b answered
answered-Reach =
    server_runs-Reach 3 _ (client_runs-Reach 9 _ (server_runs-Reach 2 _ (start (10 ∷ []))))

-- The client has printed its own first number as one of the server.
own_number : (answered.shown ≡ (200 ∷ []) ∷ []) × (answered.heard ≡ (201 ∷ []) ∷ [])
unfolding server_runs client_runs server_act client_act is_quit same c_string through_newline
own_number = (refl, refl)

numbers_go_on_example :
    (goes (server_act a answered.server_at answered)
      || goes (client_act b answered.client_at answered))
    ≡ not (
        has_ended answered.client_at
        && (has_ended answered.server_at || is_taking answered.server_at))
numbers_go_on_example = numbers_go_on answered-Reach
