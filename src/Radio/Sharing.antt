-- ===== src/Radio/Sharing.antt =====
-- Processes that open and release the radio device.
use linux_c_homeworks.Prelude.{ℕ, ◌+◌, ◌-◌, ◌≤◌, ◌<◌, ◌≡◌, ◌⊎◌, Bool, true, false, arith}
use linux_c_homeworks.Prelude.Int.{pos}
use linux_c_homeworks.Radio.{is_refused, radio_open, radio_release}

-- The count, how many processes are between the test of radio_open and its increment, and how many
-- have the device open.
pub record Node : Type 0 where
  pub radio_count : ℕ
  pub entering : ℕ
  pub users : ℕ

-- `overlap` says whether a call of radio_open may begin while another one is between its two halves.
pub data Reach (overlap : Bool) : Node → Type 0 where
  start : Reach overlap (record { radio_count = 0; entering = 0; users = 0 })
  tests :
      {s : Node}
      → Reach overlap s
      → (overlap ≡ true) ⊎ (s.entering ≡ 0)
      → is_refused s.radio_count ≡ false
      → Reach overlap (record s { entering = s.entering + 1 })
  enters :
      {s : Node}
      → Reach overlap s
      → 0 < s.entering
      → Reach overlap (record {
        radio_count = s.radio_count + 1;
        entering = s.entering - 1;
        users = s.users + 1;
      })
  releases :
      {s : Node}
      → Reach overlap s
      → 0 < s.users
      → Reach overlap (record s { radio_count = radio_release s.radio_count; users = s.users - 1 })

counts_users : {overlap : Bool} {s : Node} → Reach overlap s → s.radio_count ≡ s.users
unfolding radio_release
counts_users start = ground arith
counts_users (tests r free open_ok) = ground (arith, counts_users r)
counts_users (enters r e) = ground (arith, counts_users r)
counts_users (releases r u) = ground (arith, counts_users r)

one_user :
    {overlap : Bool} {s : Node} → Reach overlap s → overlap ≡ false → s.users + s.entering ≤ 1
one_user start e = ground arith
one_user (tests r free open_ok) e = ground (arith, one_user r e, counts_users r)
one_user (enters r h) e = ground (arith, one_user r e)
one_user (releases r u) e = ground (arith, one_user r e)

-- radio_count is the number of processes that have the device open; if calls of radio_open do not
-- overlap, that is never more than one; a call that opens it finds it open in no process.
pub radio_lem :
    {overlap : Bool} {s : Node}
    → Reach overlap s
    → (s.radio_count ≡ s.users)
      × (overlap ≡ false → s.users ≤ 1)
      × ((radio_open s.radio_count).0 ≡ pos 0 → s.users ≡ 0)
unfolding radio_open
radio_lem r =
    (counts_users r, λ e. ground (arith, one_user r e), λ e. ground (arith, counts_users r))
