-- ===== src/Sems/Tests.antt =====
-- Two runs: the user types one text and then "q", and the client exits before the server has taken it.
use linux_c_homeworks.Prelude.{
  ℕ, zero, suc, ◌≡◌, refl, true, none, some, [], ◌∷◌, ◌&&◌, ◌||◌, not, Option-cases, inl, inr,
}
use linux_c_homeworks.Channel.{Serves, Asks}
use linux_c_homeworks.Lines.Buffers.{through_newline}
use linux_c_homeworks.Shmem.{is_quit, same, c_string}
use linux_c_homeworks.Sems.{
  System, taking, leaving, server_act, client_act, started, Reach, start, serves, asks,
}
use linux_c_homeworks.Sems.Token.{has_ended}
use linux_c_homeworks.Sems.Talk.{is_taking}
use linux_c_homeworks.Sems.Refines.{channel, goes, sems_refine, sems_go_on, exit_hangs}

server_runs : ℕ → System → System
server_runs zero s = s
server_runs (suc n) s = elim (server_act s.server_at s) [ none ↦ s | some t ↦ server_runs n t ]

client_runs : ℕ → System → System
client_runs zero s = s
client_runs (suc n) s = elim (client_act s.client_at s) [ none ↦ s | some t ↦ client_runs n t ]

server_runs-Reach : (n : ℕ) (s : System) → Reach s → Reach (server_runs n s)
unfolding server_runs
server_runs-Reach zero s r = r
server_runs-Reach (suc n) s r = elim (Option-cases (server_act s.server_at s)) [
  | inl stuck ↦ rw (stuck, server_runs) r
  | inr (t, run) ↦ rw (run, server_runs) (server_runs-Reach n t (serves t r run))
]

client_runs-Reach : (n : ℕ) (s : System) → Reach s → Reach (client_runs n s)
unfolding client_runs
client_runs-Reach zero s r = r
client_runs-Reach (suc n) s r = elim (Option-cases (client_act s.client_at s)) [
  | inl stuck ↦ rw (stuck, client_runs) r
  | inr (t, run) ↦ rw (run, client_runs) (client_runs-Reach n t (asks t r run))
]

-- The server waits; the client prints "Hello!", types "hi" and gives; the server takes and prints it.
abbrev after_hi : System
after_hi = server_runs 2 (client_runs 5 (server_runs 2 (started (104 ∷ 105 ∷ 10 ∷ []))))

after_hi-Reach : Reach after_hi
after_hi-Reach =
    server_runs-Reach 2 _
      (client_runs-Reach 5 _ (server_runs-Reach 2 _ (start (104 ∷ 105 ∷ 10 ∷ []))))

hi_heard : after_hi.heard ≡ (104 ∷ 105 ∷ 10 ∷ []) ∷ []
unfolding server_runs client_runs server_act client_act is_quit same c_string through_newline
hi_heard = refl

-- The user types "q" at once, and the client is about to exit.
abbrev late : System
late = client_runs 6 (server_runs 2 (started (113 ∷ 10 ∷ [])))

late-Reach : Reach late
late-Reach = client_runs-Reach 6 _ (server_runs-Reach 2 _ (start (113 ∷ 10 ∷ [])))

late_places : (late.server_at ≡ taking) × (late.client_at ≡ leaving)
unfolding server_runs client_runs server_act client_act is_quit same c_string through_newline
late_places = (refl, refl)

abbrev hung : System
hung = client_runs 1 late

late_exits : client_act leaving late ≡ some hung
unfolding server_runs client_runs server_act client_act is_quit same c_string through_newline
late_exits = refl

sems_refine_example :
    ((t : System)
      → server_act after_hi.server_at after_hi ≡ some t
      → Serves (channel after_hi) (channel t))
    × ((t : System)
        → client_act after_hi.client_at after_hi ≡ some t
        → Asks (c_string (through_newline 511 after_hi.input)) (channel after_hi) (channel t))
sems_refine_example = sems_refine after_hi-Reach

sems_go_on_example :
    (goes (server_act after_hi.server_at after_hi) || goes (client_act after_hi.client_at after_hi))
    ≡ not (
        has_ended after_hi.client_at
        && (has_ended after_hi.server_at || is_taking after_hi.server_at))
sems_go_on_example = sems_go_on after_hi-Reach

exit_hangs_example :
    (is_quit hung.string ≡ true)
    × (hung.sent ≡ hung.string ∷ hung.heard)
    × (server_act hung.server_at hung ≡ none)
    × (client_act hung.client_at hung ≡ none)
exit_hangs_example =
    let (waiting, left) = late_places in exit_hangs late-Reach hung waiting left late_exits
