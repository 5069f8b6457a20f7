-- ===== src/Shmem/Tests.antt =====
-- A run in which the user types one text, and the theorems at the state it ends in.
use linux_c_homeworks.Prelude.{
  ℕ, zero, suc, ◌+◌, ◌≡◌, refl, true, false, none, some, [], ◌∷◌, ◌&&◌, Option-cases, length, ◌⊎◌,
  inl, inr,
}
use linux_c_homeworks.Channel.{Serves, Asks}
use linux_c_homeworks.Lines.Buffers.{through_newline}
use linux_c_homeworks.Shmem.{
  System, is_quit, same, c_string, server_act, client_act, started, Reach, start, serves, asks,
}
use linux_c_homeworks.Shmem.Safe.{is_inside, one_inside}
use linux_c_homeworks.Shmem.Talk.{replies}
use linux_c_homeworks.Shmem.Waits.{client_waits, talk_lem}
use linux_c_homeworks.Shmem.Refines.{channel, refines}

server_runs : ℕ → System → System
server_runs zero s = s
server_runs (suc n) s = elim (server_act s.server_at s) [ none ↦ s | some t ↦ server_runs n t ]

client_runs : ℕ → System → System
client_runs zero s = s
client_runs (suc n) s = elim (client_act s.client_at s) [ none ↦ s | some t ↦ client_runs n t ]

server_runs-Reach : (n : ℕ) (s : System) → Reach s → Reach (server_runs n s)
unfolding server_runs
server_runs-Reach zero s r = r
server_runs-Reach (suc n) s r = elim (Option-cases (server_act s.server_at s)) [
  | inl stuck ↦ rw (stuck, server_runs) r
  | inr (t, run) ↦ rw (run, server_runs) (server_runs-Reach n t (serves t r run))
]

client_runs-Reach : (n : ℕ) (s : System) → Reach s → Reach (client_runs n s)
unfolding client_runs
client_runs-Reach zero s r = r
client_runs-Reach (suc n) s r = elim (Option-cases (client_act s.client_at s)) [
  | inl stuck ↦ rw (stuck, client_runs) r
  | inr (t, run) ↦ rw (run, client_runs) (client_runs-Reach n t (asks t r run))
]

-- The server goes once round with nothing to read and keeps its lock, and the client has to wait.
abbrev asked : System
asked = client_runs 8 (server_runs 6 (started (104 ∷ 105 ∷ 10 ∷ [])))

asked-Reach : Reach asked
asked-Reach = client_runs-Reach 8 _ (server_runs-Reach 6 _ (start (104 ∷ 105 ∷ 10 ∷ [])))

-- The server gives the turn away; the client types "hi", and the server prints it.
abbrev after_hi : System
after_hi = server_runs 5 (client_runs 6 (server_runs 3 asked))

after_hi-Reach : Reach after_hi
after_hi-Reach = server_runs-Reach 5 _ (client_runs-Reach 6 _ (server_runs-Reach 3 _ asked-Reach))

hi_waits : client_waits asked ≡ true
unfolding server_runs client_runs server_act client_act is_quit same
hi_waits = refl

hi_heard : after_hi.heard ≡ (104 ∷ 105 ∷ 10 ∷ []) ∷ []
unfolding server_runs client_runs server_act client_act is_quit same c_string through_newline
hi_heard = refl

one_inside_example : (is_inside after_hi.server_at && is_inside after_hi.client_at) ≡ false
one_inside_example = one_inside after_hi-Reach

talk_lem_example :
    ((after_hi.sent ≡ after_hi.heard) ⊎ (after_hi.sent ≡ after_hi.string ∷ after_hi.heard))
    × (after_hi.shown ≡ replies (length after_hi.shown))
    × ((length after_hi.shown ≡ length after_hi.sent)
        ⊎ (length after_hi.shown ≡ length after_hi.sent + 1))
talk_lem_example = talk_lem after_hi-Reach

refines_example :
    ((t : System)
      → server_act after_hi.server_at after_hi ≡ some t
      → Serves (channel after_hi) (channel t))
    × ((t : System)
        → client_act after_hi.client_at after_hi ≡ some t
        → Asks (c_string (through_newline 511 after_hi.input)) (channel after_hi) (channel t))
refines_example = refines after_hi-Reach
