-- ===== src/Numbers/Talk.antt =====
-- What the two processes tell each other: an invariant of the block and the numbers so far.
use linux_c_homeworks.Prelude.{
  ℕ, ◌+◌, ◌≤◌, ◌≡◌, refl, Bool, true, false, some, List, [], ◌∷◌, ◌||◌, not, ltb, if◌then◌else◌,
  ◌++◌, arith, length-append, length,
}
use linux_c_homeworks.Shmem.{is_quit}
use linux_c_homeworks.Numbers.{
  Place, opening, resetting, seeding, clearing, testing, taking, printing, filling, answering,
  giving, leaving, ended, System, server_act, client_act, started, Reach, start, serves, asks,
}
use linux_c_homeworks.Numbers.Token.{
  has_ended, is_giving, is_answering, is_new, empty-is_quit, IsSafe, Reach-IsSafe,
}

abbrev pub is_printing : Place → Bool
is_printing place = elim place [ printing ↦ true | _ ↦ false ]

abbrev pub is_taking : Place → Bool
is_taking place = elim place [ taking ↦ true | _ ↦ false ]

-- The client between its two printfs and its semop.
abbrev pub has_shown : Place → Bool
has_shown place = elim place [ filling ↦ true | answering ↦ true | giving ↦ true | _ ↦ false ]

-- The server with a number to answer.
abbrev pub has_heard : Place → Bool
has_heard place = elim place [ printing ↦ true | answering ↦ true | _ ↦ false ]

abbrev pub has_asked : Place → Bool
has_asked place = elim place [ filling ↦ true | answering ↦ true | _ ↦ false ]

abbrev pub is_unseeded : Place → Bool
is_unseeded place = elim place [ resetting ↦ true | seeding ↦ true | _ ↦ false ]

-- The client has sent a number that the server has not printed.
abbrev pub is_owed : System → Bool
is_owed s = ltb (length s.heard) (length s.sent)

-- The server has sent a number, or the client has set the first one, that the client has not printed.
abbrev pub is_unshown : System → Bool
is_unshown s = ltb (length s.shown) (length s.answered + 1)

-- What the client is to print: its own first number, and the answers of the server.
abbrev pub to_show : (ℕ → ℕ) → System → List (List ℕ)
to_show rand s = s.answered ++ ((rand 0 ∷ []) ∷ [])

pub record IsTalk (rand : ℕ → ℕ) (s : System) : Type 0 where
  pub texts : s.sent ≡ (if is_owed s then (s.num ∷ []) ∷ s.heard else s.heard)
  pub owed :
      (has_ended s.server_at || has_ended s.client_at) ≡ false
      → is_owed s ≡ (is_giving s.client_at || is_printing s.server_at || ltb 0 s.sem_0)
  pub owed_printing : is_printing s.server_at ≡ true → is_owed s ≡ true
  pub owed_taking :
      is_taking s.server_at ≡ true
      → is_quit s.string ≡ true
      → is_answering s.client_at ≡ false
      → is_owed s ≡ true
  pub heard_one : is_answering s.server_at ≡ true → is_owed s ≡ false
  pub seeded :
      is_unseeded s.client_at ≡ false
      → to_show rand s ≡ (if is_unshown s then (s.num ∷ []) ∷ s.shown else s.shown)
  pub unseeded : is_new s.client_at ≡ true → (s.answered ≡ []) × (s.shown ≡ [])
  pub unshown :
      (has_ended s.server_at || has_ended s.client_at) ≡ false
      → is_unshown s ≡ not (has_shown s.client_at || has_heard s.server_at || ltb 0 s.sem_0)
  pub shown_now : has_shown s.client_at ≡ true → is_unshown s ≡ false
  pub bound : length s.shown ≤ length s.answered + 1
  pub unowed : has_asked s.client_at ≡ true → is_owed s ≡ false
  pub heard_now : has_heard s.server_at ≡ true → is_unshown s ≡ false

server_act-IsTalk :
    (own rand : ℕ → ℕ) (s t : System) (place : Place)
    → IsSafe s
    → IsTalk own s
    → s.server_at ≡ place
    → server_act rand place s ≡ some t
    → IsTalk own t
unfolding server_act
server_act-IsTalk own rand s t opening f g e run = ground arith
server_act-IsTalk own rand s t resetting f g e run = absurd (cc run)
server_act-IsTalk own rand s t seeding f g e run = absurd (cc run)
server_act-IsTalk own rand s t clearing f g e run = absurd (cc run)
server_act-IsTalk own rand s t testing f g e run = ground arith
server_act-IsTalk own rand s t taking f g e run = ground arith
server_act-IsTalk own rand s t printing f g e run = ground arith
server_act-IsTalk own rand s t filling f g e run = absurd (cc run)
server_act-IsTalk own rand s t answering f g e run = ground arith
server_act-IsTalk own rand s t giving f g e run = ground arith
server_act-IsTalk own rand s t leaving f g e run = ground arith
server_act-IsTalk own rand s t ended f g e run = absurd (cc run)

client_act-IsTalk :
    (own : ℕ → ℕ) (s t : System) (place : Place)
    → IsSafe s
    → IsTalk own s
    → s.client_at ≡ place
    → client_act own place s ≡ some t
    → IsTalk own t
unfolding client_act
client_act-IsTalk own s t opening f g e run = absurd (cc run)
client_act-IsTalk own s t resetting f g e run = ground arith
client_act-IsTalk own s t seeding f g e run = ground arith
client_act-IsTalk own s t clearing f g e run = ground (arith, empty-is_quit)
client_act-IsTalk own s t testing f g e run = ground arith
client_act-IsTalk own s t taking f g e run = ground arith
client_act-IsTalk own s t printing f g e run =
    ground (arith, length-append s.answered ((own 0 ∷ []) ∷ []))
client_act-IsTalk own s t filling f g e run = ground arith
client_act-IsTalk own s t answering f g e run = ground arith
client_act-IsTalk own s t giving f g e run = ground arith
client_act-IsTalk own s t leaving f g e run = ground arith
client_act-IsTalk own s t ended f g e run = absurd (cc run)

started-IsTalk : (own : ℕ → ℕ) (input : List ℕ) → IsTalk own (started input)
started-IsTalk own input = ground (arith, empty-is_quit)

pub Reach-IsTalk : {a b : ℕ → ℕ} {s : System} → Reach a b s → IsTalk b s
Reach-IsTalk {b} (start input) = started-IsTalk b input
Reach-IsTalk {a} {b} (serves {s} t r run) =
    server_act-IsTalk b a s t s.server_at (Reach-IsSafe r) (Reach-IsTalk r) refl run
Reach-IsTalk {b} (asks {s} t r run) =
    client_act-IsTalk b s t s.client_at (Reach-IsSafe r) (Reach-IsTalk r) refl run
