-- ===== src/Chat/Full.antt =====
-- When no place is given any more.
use linux_c_homeworks.Prelude.{◌≡◌, refl, ◌∙◌, true, false, leb}
use linux_c_homeworks.Prelude.Int.{ℤ}
use linux_c_homeworks.Chat.{
  max_num_clients, Server, no_connection, no_memory, no_thread, ready, main_round, count_client,
  begin, leave, Step, mains, counts, begins, leaves, Later, now, after,
}

Step-full :
    {s t : Server}
    → Step s t
    → leb max_num_clients s.clients_num ≡ true
    → s.is_creating ≡ false
    → (t.threads ≡ s.threads) × (t.clients_num ≡ s.clients_num) × (t.is_creating ≡ false)
unfolding main_round count_client begin leave
Step-full (mains no_connection e) full free = (refl, refl, e)
Step-full (mains no_memory e) full free = (refl, refl, e)
Step-full (mains (no_thread newsock) e) full free = rw full (refl, refl, e)
Step-full (mains (ready newsock) e) full free = rw full (refl, refl, e)
Step-full (counts e) full free = absurd (cc (rw free at e))
Step-full (begins k e) full free = (refl, refl, free)
Step-full (leaves k e) full free = (refl, refl, free)

Later-full :
    {s t : Server}
    → Later s t
    → leb max_num_clients s.clients_num ≡ true
    → s.is_creating ≡ false
    → (t.threads ≡ s.threads) × (t.clients_num ≡ s.clients_num) × (t.is_creating ≡ false)
Later-full now full free = (refl, refl, free)
Later-full {s} (after {t} l st) full free =
    let (threads, number, free') = Later-full l full free in
    let (threads', number', free'') = Step-full st (rw number full) free' in
    (threads' ∙ threads, number' ∙ number, free'')

-- Once clients_num is 5 or more and main is not about to increment it, no further thread is ever created, whoever leaves: leaving the chat
-- does not give the place back.
pub full_forever :
    {s t : Server}
    → Later s t
    → leb max_num_clients s.clients_num ≡ true
    → s.is_creating ≡ false
    → t.threads ≡ s.threads
full_forever l full free = (Later-full l full free).0

-- If pthread_create fails before any client is counted, clients_num wraps round to 255, and no thread
-- is ever created.
pub failure_closes :
    {t : Server} (s : Server) (newsock : ℤ)
    → s.clients_num ≡ 0
    → s.is_creating ≡ false
    → Later (main_round (no_thread newsock) s) t
    → ((main_round (no_thread newsock) s).clients_num ≡ 255) × (t.threads ≡ s.threads)
unfolding main_round
failure_closes s newsock e free l =
    let wraps : (main_round (no_thread newsock) s).clients_num ≡ 255 = rw e refl in
    (wraps, full_forever l (rw wraps refl) (rw (e, main_round) free) ∙ rw e refl)
