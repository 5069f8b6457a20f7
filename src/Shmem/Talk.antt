-- ===== src/Shmem/Talk.antt =====
-- What the two processes say to each other: an invariant of the string, readlast and the texts so far.
use linux_c_homeworks.Prelude.{
  ℕ, zero, suc, ◌+◌, ◌≤◌, ◌≡◌, refl, Bool, true, false, some, List, [], ◌∷◌, ◌==◌, ◌&&◌, ◌||◌, not,
  if◌then◌else◌, arith, length,
}
use linux_c_homeworks.Shmem.{
  free, client, server, hello, ok, same, is_quit, Place, testing, raising, yielding, at_lock,
  at_turn, checking, marking, printing, comparing, answering, filling, releasing, ended, System,
  server_act, client_act, started, Reach, start, serves, asks,
}
use linux_c_homeworks.Shmem.Safe.{IsSafe, Reach-IsSafe}

-- The text that the server has for the client, after n of them: "Hello!", then "Ok!" each time.
abbrev pub reply : ℕ → List ℕ
reply n = if n == 0 then hello else ok

abbrev pub replies : ℕ → List (List ℕ)
replies zero = []
replies (suc n) = reply n ∷ replies n

abbrev pub latest : List (List ℕ) → List ℕ
latest [] = []
latest (text ∷ texts) = text

abbrev pub is_filling : Place → Bool
is_filling place = elim place [ filling ↦ true | _ ↦ false ]

abbrev pub is_printing : Place → Bool
is_printing place = elim place [ printing ↦ true | _ ↦ false ]

abbrev pub is_marking : Place → Bool
is_marking place = elim place [ marking ↦ true | _ ↦ false ]

-- Between the printf of the server and its answer.
abbrev pub is_answering : Place → Bool
is_answering place = elim place [
  | printing ↦ true
  | comparing ↦ true
  | answering ↦ true
  | _ ↦ false
]

abbrev pub has_marked : Place → Bool
has_marked place = elim place [
  | printing ↦ true
  | comparing ↦ true
  | answering ↦ true
  | filling ↦ true
  | releasing ↦ true
  | _ ↦ false
]

-- Where the client can be while the string is "q\n".
abbrev pub is_leaving : Place → Bool
is_leaving place = elim place [ testing ↦ true | releasing ↦ true | ended ↦ true | _ ↦ false ]

abbrev pub is_releasing : Place → Bool
is_releasing place = elim place [ releasing ↦ true | _ ↦ false ]

-- The client has typed a text that the server has not printed yet.
abbrev pub is_owed : System → Bool
is_owed s =
    is_printing s.server_at
    || ((s.readlast == client) && not (is_printing s.client_at || is_filling s.client_at))

pub record IsTalk (s : System) : Type 0 where
  pub read_bound : s.readlast ≤ 1
  pub server_marks : is_marking s.server_at ≡ true → s.readlast ≡ client
  pub server_marked : has_marked s.server_at ≡ true → s.readlast ≡ server
  pub client_marks : is_marking s.client_at ≡ true → s.readlast ≡ server
  pub client_marked : has_marked s.client_at ≡ true → s.readlast ≡ client
  pub texts : s.sent ≡ (if is_owed s then s.string ∷ s.heard else s.heard)
  pub count : length s.shown ≡ length s.sent + (if is_filling s.client_at then 1 else 0)
  pub answers : s.shown ≡ replies (length s.shown)
  pub ready :
      s.readlast ≡ server
      → is_answering s.server_at ≡ false
      → is_quit s.string ≡ false
      → s.string ≡ reply (length s.shown)
  pub read_reply : is_printing s.client_at ≡ true → s.string ≡ reply (length s.shown)
  pub begun : s.readlast ≡ client → is_printing s.client_at ≡ false → 1 ≤ length s.shown
  pub answers_one : (is_marking s.server_at || is_answering s.server_at) ≡ true → 1 ≤ length s.shown
  pub leaves : is_quit s.string ≡ true → is_leaving s.client_at ≡ true
  pub has_freed : is_quit s.string ≡ true → is_releasing s.client_at ≡ false → s.client_lock ≡ free
  pub quit_last : is_quit s.string ≡ true → latest s.sent ≡ s.string

hello-is_quit : is_quit hello ≡ false
unfolding is_quit same
hello-is_quit = refl

ok-is_quit : is_quit ok ≡ false
unfolding is_quit same
ok-is_quit = refl

server_act-IsTalk :
    (s t : System) (place : Place)
    → IsSafe s
    → IsTalk s
    → s.server_at ≡ place
    → server_act place s ≡ some t
    → IsTalk t
unfolding server_act
server_act-IsTalk s t testing g f e run = ground arith
server_act-IsTalk s t raising g f e run = ground arith
server_act-IsTalk s t yielding g f e run = ground arith
server_act-IsTalk s t at_lock g f e run = ground arith
server_act-IsTalk s t at_turn g f e run = ground arith
server_act-IsTalk s t checking g f e run = ground arith
server_act-IsTalk s t marking g f e run = ground arith
server_act-IsTalk s t printing g f e run = ground arith
server_act-IsTalk s t comparing g f e run = ground arith
server_act-IsTalk s t answering g f e run = ground (arith, ok-is_quit)
server_act-IsTalk s t filling g f e run = absurd (cc run)
server_act-IsTalk s t releasing g f e run = ground arith
server_act-IsTalk s t ended g f e run = absurd (cc run)

client_act-IsTalk :
    (s t : System) (place : Place)
    → IsSafe s
    → IsTalk s
    → s.client_at ≡ place
    → client_act place s ≡ some t
    → IsTalk t
unfolding client_act
client_act-IsTalk s t testing g f e run = ground arith
client_act-IsTalk s t raising g f e run = ground arith
client_act-IsTalk s t yielding g f e run = ground arith
client_act-IsTalk s t at_lock g f e run = ground arith
client_act-IsTalk s t at_turn g f e run = ground arith
client_act-IsTalk s t checking g f e run = ground arith
client_act-IsTalk s t marking g f e run = ground arith
client_act-IsTalk s t printing g f e run = ground arith
client_act-IsTalk s t comparing g f e run = absurd (cc run)
client_act-IsTalk s t answering g f e run = absurd (cc run)
client_act-IsTalk s t filling g f e run = ground arith
client_act-IsTalk s t releasing g f e run = ground arith
client_act-IsTalk s t ended g f e run = absurd (cc run)

started-IsTalk : (input : List ℕ) → IsTalk (started input)
started-IsTalk input = ground (arith, hello-is_quit)

pub Reach-IsTalk : {s : System} → Reach s → IsTalk s
Reach-IsTalk (start input) = started-IsTalk input
Reach-IsTalk (serves {s} t r run) =
    server_act-IsTalk s t s.server_at (Reach-IsSafe r) (Reach-IsTalk r) refl run
Reach-IsTalk (asks {s} t r run) =
    client_act-IsTalk s t s.client_at (Reach-IsSafe r) (Reach-IsTalk r) refl run
