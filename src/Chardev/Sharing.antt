-- ===== src/Chardev/Sharing.antt =====
-- Several processes at one device: calls of node_open and node_release that do not overlap, and
-- calls that do, since the test of already_opened and the assignment after it are two steps.
use linux_c_homeworks.Prelude.{
  ℕ, zero, suc, ◌+◌, ◌≡◌, ◌⊎◌, inr, Bool, true, false, refl, sym, ◌∙◌, some, List, [], ◌∷◌, arith,
}
use mathlib.Core.Path.{subst}
use linux_c_homeworks.Prelude.Int.{ℤ, pos, negsuc}
use linux_c_homeworks.Chardev.Open.{
  Wake, node_open, node_release, node_open_lem, awaits, minus_eintr,
}

-- The device's flag, and how many processes have opened it and not released it.
pub record Node : Type 0 where
  pub already_opened : Bool
  pub users : ℕ

-- Nothing else happens during a call: every wake finds the flag as it is.
abbrev pub Undisturbed : Bool → List Wake → Type 0
Undisturbed opened [] = Unit
Undisturbed opened (wake ∷ wakes) = (wake.already_opened ≡ opened) × Undisturbed opened wakes

pub data Step (s : Node) : Node → Type 0 where
  opened :
      (nonblock : Bool) (wakes : List Wake) (flag : Bool)
      → Undisturbed s.already_opened wakes
      → node_open nonblock wakes s.already_opened ≡ some (pos 0, flag)
      → Step s (record { already_opened = flag; users = s.users + 1 })
  refused :
      (nonblock : Bool) (wakes : List Wake) (n : ℕ) (flag : Bool)
      → Undisturbed s.already_opened wakes
      → node_open nonblock wakes s.already_opened ≡ some (negsuc n, flag)
      → Step s (record s { already_opened = flag })
  released :
      (n : ℕ) → s.users ≡ suc n → Step s (record { already_opened = node_release.1; users = n })

pub data Reach : Node → Type 0 where
  start : Reach (record { already_opened = false; users = 0 })
  next : {s t : Node} → Reach s → Step s t → Reach t

abbrev pub IsExclusive : Node → Type 0
IsExclusive s =
    (s.already_opened ≡ true) × (s.users ≡ 1) ⊎ (s.already_opened ≡ false) × (s.users ≡ 0)

-- A call that waits on an open device with nothing else happening only ends by a signal.
awaits-Undisturbed :
    (wakes : List Wake) (code : ℤ) (flag : Bool)
    → Undisturbed true wakes
    → awaits wakes ≡ some (code, flag)
    → (code ≡ minus_eintr) × (flag ≡ true)
awaits-Undisturbed [] code flag u e = cc
awaits-Undisturbed (wake ∷ wakes) code flag u e =
    ground (arith, awaits-Undisturbed wakes code flag u.1)

opened_free :
    (nonblock : Bool) (wakes : List Wake) (before flag : Bool)
    → Undisturbed before wakes
    → node_open nonblock wakes before ≡ some (pos 0, flag)
    → (before ≡ false) × (flag ≡ true)
opened_free nonblock wakes false flag u e = ground (arith, node_open_lem nonblock wakes false)
opened_free true wakes true flag u e = ground (arith, node_open_lem true wakes true)
opened_free false wakes true flag u e =
    absurd
      (cc (awaits-Undisturbed wakes (pos 0) flag u (sym (node_open_lem false wakes true) ∙ e)).0)

refused_same :
    (nonblock : Bool) (wakes : List Wake) (n : ℕ) (before flag : Bool)
    → Undisturbed before wakes
    → node_open nonblock wakes before ≡ some (negsuc n, flag)
    → flag ≡ before
refused_same nonblock wakes n false flag u e = ground (arith, node_open_lem nonblock wakes false)
refused_same true wakes n true flag u e = ground (arith, node_open_lem true wakes true)
refused_same false wakes n true flag u e =
    (awaits-Undisturbed wakes (negsuc n) flag u (sym (node_open_lem false wakes true) ∙ e)).1

Step-IsExclusive : {s t : Node} → Step s t → IsExclusive s → IsExclusive t
unfolding node_release
Step-IsExclusive {s} (opened nb wakes flag u e) inv =
    ground (arith, opened_free nb wakes s.already_opened flag u e)
Step-IsExclusive {s} (refused nb wakes n flag u e) inv =
    ground (arith, refused_same nb wakes n s.already_opened flag u e)
Step-IsExclusive (released n e) inv = ground arith

-- As long as calls of node_open and node_release do not overlap, at most one process has the
-- device open, and already_opened says whether one has.
pub Reach-IsExclusive : {s : Node} → Reach s → IsExclusive s
Reach-IsExclusive start = inr (refl, refl)
Reach-IsExclusive (next r st) = Step-IsExclusive st (Reach-IsExclusive r)

-- The same device with the steps of node_open apart: `checking` processes have left the loop and
-- not yet set the flag.
pub record Racing : Type 0 where
  pub flag : Bool
  pub checking : ℕ
  pub users : ℕ

pub data Race : Racing → Type 0 where
  idle : Race (record { flag = false; checking = 0; users = 0 })
  check : {s : Racing} → Race s → s.flag ≡ false → Race (record s { checking = s.checking + 1 })
  assign :
      {s : Racing} (n : ℕ)
      → Race s
      → s.checking ≡ suc n
      → Race (record { flag = true; checking = n; users = s.users + 1 })
  free :
      {s : Racing} (n : ℕ) → Race s → s.users ≡ suc n → Race (record s { flag = false; users = n })

all_check : (n : ℕ) → Race (record { flag = false; checking = n; users = 0 })
all_check zero = idle
all_check (suc n) =
    let e : n + 1 ≡ suc n = omega arith in
    subst (λ k. Race (record { flag = false; checking = k; users = 0 })) e
      (check (all_check n) refl)

all_assign :
    (flag : Bool) (n users : ℕ)
    → Race (record { flag = flag; checking = n; users = users })
    → (s : Racing) × Race s × (s.users ≡ users + n)
all_assign flag zero users r = (_, r, omega arith)
all_assign flag (suc n) users r =
    let (s, reached, e) = all_assign true n (users + 1) (assign n r refl) in
    (s, reached, omega arith)

-- With overlapping calls any number of processes can have the device open at once.
pub all_open : (n : ℕ) → (s : Racing) × Race s × (s.users ≡ n)
all_open n = let (s, reached, e) = all_assign false n 0 (all_check n) in (s, reached, omega arith)
