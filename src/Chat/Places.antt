-- ===== src/Chat/Places.antt =====
-- The places of the chat: who has one, and who gets a message.
use linux_c_homeworks.Prelude.{
  ℕ, zero, suc, ◌+◌, ◌≤◌, ◌<◌, ◌≡◌, refl, ◌∙◌, Bool, true, false, some, List, [], ◌∷◌, leb, ltb,
  ◌⊎◌, ◌&&◌, not, if◌then◌else◌, arith, ℕ_discrete, Bool-cases, inl, inr,
}
use linux_c_homeworks.Prelude.Int.{ℤ, pos, negsuc, ltb_ℤ, eqb_ℤ}
use linux_c_homeworks.Chat.{
  max_num_clients, Phase, absent, created, serving, left, Server, initial, Accept, no_connection,
  no_memory, no_thread, ready, main_round, count_client, begin, leave, write_loop, message,
}

-- What the array holds for the thread that has a place.
abbrev pub slot_of : Phase → ℤ → ℤ
slot_of absent socket = pos 0
slot_of created socket = pos 0
slot_of serving socket = socket
slot_of left socket = negsuc 0

abbrev pub is_absent : Phase → Bool
is_absent absent = true
is_absent created = false
is_absent serving = false
is_absent left = false

-- Runs in which no call of pthread_create fails.
abbrev pub creates : Accept → Bool
creates no_connection = true
creates no_memory = true
creates (no_thread newsock) = false
creates (ready newsock) = true

pub data Smooth : Server → Type 0 where
  smooth_start : Smooth initial
  smooth_main :
      {s : Server} (a : Accept)
      → Smooth s
      → s.is_creating ≡ false
      → creates a ≡ true
      → Smooth (main_round a s)
  smooth_count : {s : Server} → Smooth s → s.is_creating ≡ true → Smooth (count_client s)
  smooth_begin :
      {s : Server} (k : ℕ) → Smooth s → (s.clients k).phase ≡ created → Smooth (begin k s)
  smooth_leave :
      {s : Server} (k : ℕ) → Smooth s → (s.clients k).phase ≡ serving → Smooth (leave k s)

abbrev pub one_if : Bool → ℕ
one_if false = 0
one_if true = 1

-- Every thread that was ever created has a place of its own, the k-th one place k.
pub record HasPlaces (s : Server) : Type 0 where
  pub bound : s.clients_num + one_if s.is_creating ≤ max_num_clients
  pub all_counted : s.threads ≡ s.clients_num + one_if s.is_creating
  pub placed :
      (k : ℕ) → is_absent (s.clients k).phase ≡ leb (s.clients_num + one_if s.is_creating) k
  pub own : (k : ℕ) → is_absent (s.clients k).phase ≡ false → (s.clients k).client_id ≡ k
  pub slots : (k : ℕ) → s.sockets k ≡ slot_of (s.clients k).phase (s.clients k).socket

main_round-HasPlaces :
    (a : Accept) (s : Server)
    → s.is_creating ≡ false
    → creates a ≡ true
    → HasPlaces s
    → HasPlaces (main_round a s)
unfolding main_round
main_round-HasPlaces no_connection s e c h = h
main_round-HasPlaces no_memory s e c h = h
main_round-HasPlaces (no_thread newsock) s e c h = absurd (cc c)
main_round-HasPlaces (ready newsock) s e c h =
    elim (Bool-cases (leb max_num_clients s.clients_num)) [
      | inl full ↦ rw full h
      | inr room ↦ rw room (record {
        bound = ground (arith, h.bound);
        all_counted = ground (arith, h.all_counted, h.bound);
        placed = λ k. ground (arith, h.placed k, h.all_counted, h.bound);
        own = λ k p. ground (arith, h.own k, h.all_counted);
        slots = λ k. ground (arith, h.slots k, h.placed k, h.all_counted);
      })
    ]

count_client-HasPlaces :
    (s : Server) → s.is_creating ≡ true → HasPlaces s → HasPlaces (count_client s)
unfolding count_client
count_client-HasPlaces s e h = record {
  bound = ground (arith, h.bound, e);
  all_counted = ground (arith, h.all_counted, h.bound, e);
  placed = λ k. ground (arith, h.placed k, h.bound, e);
  own = h.own;
  slots = h.slots;
}

begin-HasPlaces :
    (k : ℕ) (s : Server) → (s.clients k).phase ≡ created → HasPlaces s → HasPlaces (begin k s)
unfolding begin
begin-HasPlaces k s e h = record {
  bound = h.bound;
  all_counted = h.all_counted;
  placed = λ j. ground (arith, h.placed j, e);
  own = λ j p. ground (arith, h.own j, e);
  slots = λ j. ground (arith, h.slots j, h.own k, e);
}

leave-HasPlaces :
    (k : ℕ) (s : Server) → (s.clients k).phase ≡ serving → HasPlaces s → HasPlaces (leave k s)
unfolding leave
leave-HasPlaces k s e h = record {
  bound = h.bound;
  all_counted = h.all_counted;
  placed = λ j. ground (arith, h.placed j, e);
  own = λ j p. ground (arith, h.own j, e);
  slots = λ j. ground (arith, h.slots j, h.own k, e);
}

-- As long as no call of pthread_create fails, every thread keeps a place of its own, its number in
-- the order of creation, with its socket there from its start until it returns and -1 afterwards; and
-- clients_num, at most 5, counts all threads that were ever created, but for the one whose round of main
-- has not come to its end.
pub Smooth-HasPlaces : {s : Server} → Smooth s → HasPlaces s
Smooth-HasPlaces smooth_start = record {
  bound = omega arith;
  all_counted = refl;
  placed = λ k. ground arith;
  own = λ k p. absurd (cc p);
  slots = λ k. refl;
}
Smooth-HasPlaces (smooth_main {s} a r e c) = main_round-HasPlaces a s e c (Smooth-HasPlaces r)
Smooth-HasPlaces (smooth_count {s} r e) = count_client-HasPlaces s e (Smooth-HasPlaces r)
Smooth-HasPlaces (smooth_begin {s} k r e) = begin-HasPlaces k s e (Smooth-HasPlaces r)
Smooth-HasPlaces (smooth_leave {s} k r e) = leave-HasPlaces k s e (Smooth-HasPlaces r)

eqb_ℤ-refl : (z : ℤ) → eqb_ℤ z z ≡ true
eqb_ℤ-refl (pos n) = ground arith
eqb_ℤ-refl (negsuc n) = ground arith

abbrev pub has : ℤ → List ℤ → Bool
has x [] = false
has x (y ∷ ys) = if eqb_ℤ y x then true else has x ys

-- What the write loop gives: every socket in its range but the sender's own.
write_loop_lem :
    (sockets : ℕ → ℤ) (socket : ℤ) (rounds i : ℕ)
    → i + rounds ≤ max_num_clients
    → (targets : List ℤ) × (write_loop sockets socket rounds i ≡ some targets)
      × ((k : ℕ)
          → i ≤ k
          → k < i + rounds
          → ltb_ℤ (pos 0) (sockets k) ≡ true
          → eqb_ℤ (sockets k) socket ≡ false
          → has (sockets k) targets ≡ true)
      × (has socket targets ≡ false)
unfolding write_loop
write_loop_lem sockets socket zero i h = ([], refl, λ k l u. absurd (omega arith), refl)
write_loop_lem sockets socket (suc rounds) i h =
    let (targets, run, others, self) = write_loop_lem sockets socket rounds (i + 1) (omega arith) in
    let inside : leb max_num_clients i ≡ false = ground arith in
    elim (Bool-cases (ltb_ℤ (pos 0) (sockets i) && not (eqb_ℤ (sockets i) socket))) [
      | inl send ↦ (
        sockets i ∷ targets,
        rw (run, inside, write_loop, send) refl,
        λ k l u p q. elim (ℕ_discrete i k) [
          | yes e ↦ let found = eqb_ℤ-refl (sockets k) in rw (e, found) refl
          | no other ↦ ground (arith, others k (omega (arith, other)) (omega arith) p q)
        ],
        ground (arith, self, send),
      )
      | inr skip ↦ (
        targets,
        rw (run, inside, write_loop, skip) refl,
        λ k l u p q. elim (ℕ_discrete i k) [
          | yes e ↦ absurd (cc (rw (e, p, q) at skip))
          | no other ↦ others k (omega (arith, other)) (omega arith) p q
        ],
        self,
      )
    ]

counted_or_last :
    (s : Server) (j : ℕ)
    → HasPlaces s
    → is_absent (s.clients j).phase ≡ false
    → (j < s.clients_num) ⊎ ((s.is_creating ≡ true) × (j ≡ s.clients_num))
counted_or_last s j h e = elim (Bool-cases (ltb j s.clients_num)) [
  | inl counted ↦ inl (ground arith)
  | inr other ↦ elim (Bool-cases s.is_creating) [
    | inl creating ↦ inr (creating, ground (arith, h.placed j))
    | inr not_creating ↦ absurd (ground (arith, h.placed j))
  ]
]

module _ {s : Server} (r : Smooth s) (k : ℕ) (serves : (s.clients k).phase ≡ serving) where
  -- As long as no call of pthread_create fails, a message of a client that is being served goes to
  -- every client that is being served and counted in clients_num whose socket is greater than 0 and not
  -- the sender's, and never back to the sender's socket; the loop stays within the array. All clients
  -- that are being served are counted, but for one between the pthread_create of its thread and the
  -- increment of clients_num, the last one.
  pub message_lem :
      (targets : List ℤ) × (message k s ≡ some targets)
      × ((j : ℕ)
          → (s.clients j).phase ≡ serving
          → j < s.clients_num
          → ltb_ℤ (pos 0) (s.clients j).socket ≡ true
          → eqb_ℤ (s.clients j).socket (s.clients k).socket ≡ false
          → has (s.clients j).socket targets ≡ true)
      × (has (s.clients k).socket targets ≡ false)
      × ((j : ℕ)
          → (s.clients j).phase ≡ serving
          → (j < s.clients_num) ⊎ ((s.is_creating ≡ true) × (j ≡ s.clients_num)))
  unfolding message
  message_lem =
      let h = Smooth-HasPlaces r in
      let (targets, run, others, self) =
        write_loop_lem s.sockets (s.clients k).socket s.clients_num 0 (omega (arith, h.bound)) in
      (
        targets,
        run,
        λ j e counted p q.
            let slot : s.sockets j ≡ (s.clients j).socket = h.slots j ∙ rw e refl in
            rw slot at (others j (omega arith) (omega (arith, counted)) (rw slot p) (rw slot q)),
        self,
        λ j e. counted_or_last s j h (rw e refl),
      )
