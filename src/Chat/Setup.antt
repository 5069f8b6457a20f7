-- ===== src/Chat/Setup.antt =====
-- The part of main before the loop, and conf_server.
use linux_c_homeworks.Prelude.{ℕ, ◌≡◌, Bool, true, false, ltb, leb, ◌&&◌, not, if◌then◌else◌, arith}
use linux_c_homeworks.Prelude.Int.{ℤ, pos, negsuc, ltb_ℤ, eqb_ℤ}

-- What the system returns.
pub record Answers : Type 0 where
  pub socket : ℤ
  pub bind : ℤ
  pub listen : ℤ

-- The code of conf_server, and whether the socket is still open.
pub record Configured : Type 0 where
  pub err : ℤ
  pub is_open : Bool

pub conf_server : Answers → Configured
conf_server k =
    if ltb_ℤ k.bind (pos 0)
    then record { err = negsuc 0; is_open = false }
    else record { err = pos 0; is_open = true }

-- What main has when it returns 1, or when it comes to the loop.
pub record Outcome : Type 0 where
  pub is_listening : Bool
  pub is_open : Bool

abbrev pub after_listen : Answers → Configured → Outcome
after_listen k c = record { is_listening = eqb_ℤ k.listen (pos 0); is_open = c.is_open }

abbrev pub failed : Bool → Outcome
failed is_open = record { is_listening = false; is_open = is_open }

pub set_up : ℕ → Answers → Outcome
set_up argc k =
    let c = conf_server k in
    if ltb argc 2
    then failed false
    else if ltb_ℤ k.socket (pos 0)
    then failed false
    else if not (eqb_ℤ c.err (pos 0))
    then failed c.is_open
    else after_listen k c

-- main comes to the loop exactly when there is an argument and socket, bind and listen succeed. The
-- socket is open at the end also when only listen has failed, and main returns without closing it.
pub set_up_lem :
    (argc : ℕ) (k : Answers)
    → ((set_up argc k).is_listening ≡ (
        leb 2 argc
        && not (ltb_ℤ k.socket (pos 0))
        && not (ltb_ℤ k.bind (pos 0))
        && eqb_ℤ k.listen (pos 0)))
      × ((set_up argc k).is_open
          ≡ (leb 2 argc && not (ltb_ℤ k.socket (pos 0)) && not (ltb_ℤ k.bind (pos 0))))
unfolding set_up conf_server
set_up_lem argc k = ground arith
