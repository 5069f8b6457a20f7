-- ===== src/Chardev/Open.antt =====
-- node_open and node_release, one text in homework6/rand_or.c (which also draws random numbers),
-- homework9/module_device/module_device_or.c, homework9/module_interface/module_interface_or.c and
-- homework12/keyboard_irq/keyboard_irq_or.c.
-- While the device is open, node_open waits. What it finds each time wait_event_interruptible
-- returns is an argument, a list of Wake; when the list ends the call still waits.
use Prim.Native.Nat.{bit_and}
use linux_c_homeworks.Prelude.{
  ℕ, ◌-◌, ◌%◌, ◌^◌, ◌≡◌, ◌≢◌, inl, inr, Bool, true, false, refl, Option, none, some, List, [], ◌∷◌,
  ◌==◌, ◌&&◌, not, arith, if◌then◌else◌, Bool-cases,
}
use linux_c_homeworks.Prelude.Int.{ℤ, pos, negsuc}

-- A word of signals that are pending, and the word of those that are blocked.
pub record Word : Type 0 where
  pub pending : ℕ
  pub blocked : ℕ

-- What a process finds when it is woken.
pub record Wake : Type 0 where
  pub already_opened : Bool
  pub words : List Word

-- pending & ~blocked, stored in an `int`: the upper 32 bits of the 64-bit word are lost.
abbrev pub word_signal : Word → ℕ
word_signal s = bit_and s.pending (2 ^ 64 - 1 - s.blocked) % 2 ^ 32

-- The loop over the words, which stops at the first that gives a signal.
pub scan_signals : List Word → ℕ → ℕ
scan_signals [] is_sig = is_sig
scan_signals (s ∷ words) is_sig = scan_signals words (if is_sig == 0 then word_signal s else is_sig)

abbrev pub minus_eagain : ℤ
minus_eagain = negsuc 10

abbrev pub minus_eintr : ℤ
minus_eintr = negsuc 3

-- The loop `while(already_opened)`; `some` holds the code and the new value of already_opened.
pub open_loop : List Wake → Bool → Option (ℤ × Bool)
open_loop wakes false = some (pos 0, true)
open_loop [] true = none
open_loop (wake ∷ wakes) true =
    let rest = open_loop wakes wake.already_opened in
    if not (scan_signals wake.words 0 == 0) then some (minus_eintr, wake.already_opened) else rest

pub node_open : Bool → List Wake → Bool → Option (ℤ × Bool)
node_open nonblock wakes already_opened =
    if already_opened && nonblock
    then some (minus_eagain, already_opened)
    else open_loop wakes already_opened

-- The code and the new value of already_opened; the waiting processes are woken.
unfoldable pub node_release : ℤ × Bool
node_release = (pos 0, false)

-- scan_signals finds a signal exactly if some word has one in its lower 32 bits.
abbrev pub any_signal : List Word → Bool
any_signal [] = false
any_signal (s ∷ words) = if word_signal s == 0 then any_signal words else true

scan_signals_found : (words : List Word) (n : ℕ) → n ≢ 0 → scan_signals words n ≡ n
unfolding scan_signals
scan_signals_found [] n h = refl
scan_signals_found (s ∷ words) n h =
    let e : (n == 0) ≡ false = ground arith in rw e (scan_signals_found words n h)

pub scan_signals-any_signal :
    (words : List Word) → (scan_signals words 0 == 0) ≡ not (any_signal words)
unfolding scan_signals
scan_signals-any_signal [] = refl
scan_signals-any_signal (s ∷ words) = elim (Bool-cases (word_signal s == 0)) [
  | inl none_here ↦ let e : word_signal s ≡ 0 = ground arith in rw e (scan_signals-any_signal words)
  | inr found ↦ rw (scan_signals_found words (word_signal s) (λ e. ground (arith, e)), found)
]

-- What a blocking open waits for: the first wake with a signal in a lower half, or the first that
-- finds the device free.
abbrev pub awaits : List Wake → Option (ℤ × Bool)
awaits [] = none
awaits (wake ∷ wakes) =
    if any_signal wake.words
    then some (minus_eintr, wake.already_opened)
    else if wake.already_opened
    then awaits wakes
    else some (pos 0, true)

open_loop-awaits : (wakes : List Wake) → open_loop wakes true ≡ awaits wakes
unfolding open_loop
open_loop-awaits [] = refl
open_loop-awaits (wake ∷ wakes) =
    ground (arith, scan_signals-any_signal wake.words, open_loop-awaits wakes)

-- node_open on every path. On a free device it returns 0 and marks the device open. On an open
-- device a call with O_NONBLOCK returns -EAGAIN and changes nothing; another call returns at the
-- first wake that finds a signal in the lower 32 bits of a word, with -EINTR, or that finds the device free,
-- having marked it open.
pub node_open_lem :
    (nonblock : Bool) (wakes : List Wake) (already_opened : Bool)
    → node_open nonblock wakes already_opened ≡ (
        if not already_opened
        then some (pos 0, true)
        else if nonblock
        then some (minus_eagain, true)
        else awaits wakes)
unfolding node_open open_loop
node_open_lem nonblock wakes false = refl
node_open_lem true wakes true = refl
node_open_lem false [] true = refl
node_open_lem false (wake ∷ wakes) true = open_loop-awaits (wake ∷ wakes)
