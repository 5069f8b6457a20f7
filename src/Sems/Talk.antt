-- ===== src/Sems/Talk.antt =====
-- What the two processes say to each other: an invariant of the string and the texts so far.
use linux_c_homeworks.Prelude.{
  ℕ, ◌+◌, ◌≤◌, ◌≡◌, refl, Bool, true, false, some, List, ◌∷◌, ◌||◌, ltb, if◌then◌else◌, arith,
  length,
}
use linux_c_homeworks.Shmem.{is_quit}
use linux_c_homeworks.Sems.{
  Place, opening, testing, taking, printing, comparing, answering, filling, giving, leaving, ended,
  System, server_act, client_act, started, Reach, start, serves, asks,
}
use linux_c_homeworks.Sems.Token.{
  has_ended, is_giving, is_filling, one_if, ok-is_quit, IsSafe, Reach-IsSafe,
}
use linux_c_homeworks.Shmem.Talk.{reply, replies}

abbrev pub is_printing : Place → Bool
is_printing place = elim place [ printing ↦ true | _ ↦ false ]

abbrev pub is_taking : Place → Bool
is_taking place = elim place [ taking ↦ true | _ ↦ false ]

abbrev pub has_heard : Place → Bool
has_heard place = elim place [ comparing ↦ true | answering ↦ true | _ ↦ false ]

-- The client has typed a text that the server has not printed.
abbrev pub is_owed : System → Bool
is_owed s = ltb (length s.heard) (length s.sent)

pub record IsTalk (s : System) : Type 0 where
  pub texts : s.sent ≡ (if is_owed s then s.string ∷ s.heard else s.heard)
  pub owed :
      (has_ended s.server_at || has_ended s.client_at) ≡ false
      → is_owed s ≡ (is_giving s.client_at || is_printing s.server_at || ltb 0 s.sem_0)
  pub owed_printing : is_printing s.server_at ≡ true → is_owed s ≡ true
  pub owed_taking : is_taking s.server_at ≡ true → is_quit s.string ≡ true → is_owed s ≡ true
  pub heard_one : has_heard s.server_at ≡ true → (is_owed s ≡ false) × (1 ≤ length s.heard)
  pub count : length s.shown ≡ length s.sent + one_if (is_filling s.client_at)
  pub answers : s.shown ≡ replies (length s.shown)
  pub ready :
      (has_heard s.server_at || is_owed s || is_filling s.client_at || is_quit s.string) ≡ false
      → s.string ≡ reply (length s.shown)

server_act-IsTalk :
    (s t : System) (place : Place)
    → IsSafe s
    → IsTalk s
    → s.server_at ≡ place
    → server_act place s ≡ some t
    → IsTalk t
unfolding server_act
server_act-IsTalk s t opening f g e run = ground arith
server_act-IsTalk s t testing f g e run = ground arith
server_act-IsTalk s t taking f g e run = ground arith
server_act-IsTalk s t printing f g e run = ground arith
server_act-IsTalk s t comparing f g e run = ground arith
server_act-IsTalk s t answering f g e run = ground (arith, ok-is_quit)
server_act-IsTalk s t filling f g e run = absurd (cc run)
server_act-IsTalk s t giving f g e run = ground arith
server_act-IsTalk s t leaving f g e run = ground arith
server_act-IsTalk s t ended f g e run = absurd (cc run)

client_act-IsTalk :
    (s t : System) (place : Place)
    → IsSafe s
    → IsTalk s
    → s.client_at ≡ place
    → client_act place s ≡ some t
    → IsTalk t
unfolding client_act
client_act-IsTalk s t opening f g e run = absurd (cc run)
client_act-IsTalk s t testing f g e run = ground arith
client_act-IsTalk s t taking f g e run = ground arith
client_act-IsTalk s t printing f g e run = ground arith
client_act-IsTalk s t comparing f g e run = absurd (cc run)
client_act-IsTalk s t answering f g e run = absurd (cc run)
client_act-IsTalk s t filling f g e run = ground arith
client_act-IsTalk s t giving f g e run = ground arith
client_act-IsTalk s t leaving f g e run = ground arith
client_act-IsTalk s t ended f g e run = absurd (cc run)

started-IsTalk : (input : List ℕ) → IsTalk (started input)
started-IsTalk input = ground arith

pub Reach-IsTalk : {s : System} → Reach s → IsTalk s
Reach-IsTalk (start input) = started-IsTalk input
Reach-IsTalk (serves {s} t r run) =
    server_act-IsTalk s t s.server_at (Reach-IsSafe r) (Reach-IsTalk r) refl run
Reach-IsTalk (asks {s} t r run) =
    client_act-IsTalk s t s.client_at (Reach-IsSafe r) (Reach-IsTalk r) refl run
