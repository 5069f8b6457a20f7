-- ===== src/Queue/Token.antt =====
-- The right to send goes from hand to hand: one message, or the process that has received it.
use linux_c_homeworks.Prelude.{
  ℕ, ◌+◌, ◌≤◌, ◌≡◌, refl, Bool, true, false, some, List, [], ◌∷◌, ◌++◌, if◌then◌else◌, arith,
  length, ◌⊎◌, inl, inr, Bool-cases,
}
use linux_c_homeworks.Queue.{
  Message, Place, typing, sending, testing, receiving, printing, leaving, ended, System,
  server_receives, client_receives, server_act, client_act, started, Reach, start, serves, asks,
}

abbrev pub server_holds : Place → Bool
server_holds place = elim place [
  | printing ↦ true
  | testing ↦ true
  | typing ↦ true
  | sending ↦ true
  | leaving ↦ true
  | _ ↦ false
]

abbrev pub client_holds : Place → Bool
client_holds place = elim place [ typing ↦ true | sending ↦ true | printing ↦ true | _ ↦ false ]

abbrev pub has_ended : Place → Bool
has_ended place = elim place [ ended ↦ true | _ ↦ false ]

abbrev pub is_leaving : Place → Bool
is_leaving place = elim place [ leaving ↦ true | _ ↦ false ]

abbrev pub one_if : Bool → ℕ
one_if b = if b then 1 else 0

pub record IsSafe (s : System) : Type 0 where
  pub token :
      s.is_removed ≡ false
      → length s.queue + one_if (server_holds s.server_at) + one_if (client_holds s.client_at) ≡ 1
  pub fits : length s.queue ≤ 1
  pub order : s.sent ≡ s.queue ++ s.received
  pub removed : s.is_removed ≡ has_ended s.server_at
  pub client_place : is_leaving s.client_at ≡ false

empty : (queue : List Message) → length queue ≡ 0 → queue ≡ []
empty [] h = refl
empty (m ∷ queue) h = absurd (omega arith)

one_at_most :
    (queue : List Message) → length queue ≤ 1 → (queue ≡ []) ⊎ ((m : Message) × (queue ≡ m ∷ []))
one_at_most [] h = inl refl
one_at_most (m ∷ []) h = inr (m, refl)
one_at_most (m ∷ n ∷ queue) h = absurd (omega arith)

server_act-IsSafe :
    (s t : System) (place : Place)
    → IsSafe s
    → s.server_at ≡ place
    → server_act place s ≡ some t
    → IsSafe t
unfolding server_act server_receives
server_act-IsSafe s t typing f e run = ground arith
server_act-IsSafe s t sending f e run = elim (Bool-cases s.is_removed) [
  | inl gone ↦ ground arith
  | inr there ↦ let none_waits : s.queue ≡ [] = empty s.queue (ground arith) in ground arith
]
server_act-IsSafe s t testing f e run = ground arith
server_act-IsSafe s t receiving f e run = elim (one_at_most s.queue f.fits) [
  | inl nothing_waits ↦ ground arith
  | inr (m, waits) ↦ ground arith
]
server_act-IsSafe s t printing f e run = ground arith
server_act-IsSafe s t leaving f e run = ground arith
server_act-IsSafe s t ended f e run = absurd (cc run)

client_act-IsSafe :
    (s t : System) (place : Place)
    → IsSafe s
    → s.client_at ≡ place
    → client_act place s ≡ some t
    → IsSafe t
unfolding client_act client_receives
client_act-IsSafe s t typing f e run = ground arith
client_act-IsSafe s t sending f e run = elim (Bool-cases s.is_removed) [
  | inl gone ↦ ground arith
  | inr there ↦ let none_waits : s.queue ≡ [] = empty s.queue (ground arith) in ground arith
]
client_act-IsSafe s t testing f e run = ground arith
client_act-IsSafe s t receiving f e run = elim (one_at_most s.queue f.fits) [
  | inl nothing_waits ↦ ground arith
  | inr (m, waits) ↦ ground arith
]
client_act-IsSafe s t printing f e run = ground arith
client_act-IsSafe s t leaving f e run = absurd (cc run)
client_act-IsSafe s t ended f e run = absurd (cc run)

started-IsSafe : (server_input client_input : List ℕ) → IsSafe (started server_input client_input)
started-IsSafe server_input client_input = ground arith

pub Reach-IsSafe : {s : System} → Reach s → IsSafe s
Reach-IsSafe (start server_input client_input) = started-IsSafe server_input client_input
Reach-IsSafe (serves {s} t r run) = server_act-IsSafe s t s.server_at (Reach-IsSafe r) refl run
Reach-IsSafe (asks {s} t r run) = client_act-IsSafe s t s.client_at (Reach-IsSafe r) refl run
