-- ===== src/CopyLoops.antt =====
-- Programs that copy what they read: myread.c, myread1.c and rw.c of linux_c_development/homework3/img,
-- to the terminal, and linux_c_development/homework5/pipes/makelog.c, to the terminal and to a log.
-- How many bytes each call of the system moves, and whether it fails, is an argument; each loop has
-- fuel for its rounds, and more than the bytes to read is enough.
pub mod Whole
pub mod Prefixes
pub mod Nulls
mod Tests
use linux_c_homeworks.Prelude.{
  ℕ, zero, suc, ◌+◌, ◌≡◌, Bool, true, false, Option, none, some, List, [], ◌∷◌, ◌++◌, ltb, ◌==◌,
  length, take, drop, if◌then◌else◌,
}
use linux_c_homeworks.Shmem.{c_string}

-- What the system answers to the i-th read: whether it fails, and how many bytes it would like to move
-- at most; how many bytes of the i-th chunk a write moves; and how many of the bytes that putchar, fputs
-- or fwrite is given in the i-th round get out of the buffer of the stream, of which the programs do not
-- ask.
pub record System : Type 0 where
  pub fails : ℕ → Bool
  pub wanted : ℕ → ℕ
  pub writes : ℕ → ℕ
  pub prints : ℕ → ℕ

-- A read into a buffer of `size` bytes moves at least one byte, and no more than the buffer has.
pub amount : ℕ → ℕ → ℕ
amount size wanted = if wanted == 0 then 1 else if ltb size wanted then size else wanted

-- The exit code and what stands on the terminal.
pub record Ended : Type 0 where
  pub code : ℕ
  pub out : List ℕ

-- The loop of myread.c and what follows it: one byte at a time. `none` means that the fuel was too
-- little.
pub myread_loop : ℕ → System → ℕ → List ℕ → List ℕ → Option Ended
myread_loop zero k i file out = none
myread_loop (suc fuel) k i file out =
    let shown = take (k.prints i) (take 1 file) in
    let rest = myread_loop fuel k (i + 1) (drop 1 file) (out ++ shown) in
    if k.fails i
    then some (record { code = 1; out = out })
    else if length file == 0
    then some (record { code = 0; out = out })
    else rest

abbrev pub buffer_size : ℕ
buffer_size = 64

-- myread1.c: chunks of 64 bytes, which fputs prints up to the first 0.
pub myread1_loop : ℕ → System → ℕ → List ℕ → List ℕ → Option Ended
myread1_loop zero k i file out = none
myread1_loop (suc fuel) k i file out =
    let n = amount buffer_size (k.wanted i) in
    let shown = take (k.prints i) (c_string (take n file)) in
    let rest = myread1_loop fuel k (i + 1) (drop n file) (out ++ shown) in
    if k.fails i
    then some (record { code = 1; out = out })
    else if length file == 0
    then some (record { code = 0; out = out })
    else rest

-- rw.c: chunks of 64 bytes, written as they are; a write that moves fewer bytes ends the program.
pub rw_loop : ℕ → System → ℕ → List ℕ → List ℕ → Option Ended
rw_loop zero k i file out = none
rw_loop (suc fuel) k i file out =
    let chunk = take (amount buffer_size (k.wanted i)) file in
    let rest =
      rw_loop fuel k (i + 1) (drop (amount buffer_size (k.wanted i)) file) (out ++ chunk) in
    if k.fails i
    then some (record { code = 1; out = out })
    else if length file == 0
    then some (record { code = 0; out = out })
    else if ltb (k.writes i) (length chunk)
    then some (record { code = 1; out = out ++ take (k.writes i) chunk })
    else rest

abbrev pub buf_size : ℕ
buf_size = 256

-- makelog.c: what stands on the terminal and in the log. fread returns 0 at the end and on an error; a
-- write that moves fewer bytes is not noticed.
pub makelog_loop : ℕ → System → ℕ → List ℕ → List ℕ → List ℕ → Option (List ℕ × List ℕ)
makelog_loop zero k i file out log = none
makelog_loop (suc fuel) k i file out log =
    let chunk = take (amount buf_size (k.wanted i)) file in
    let rest =
      makelog_loop fuel k (i + 1) (drop (amount buf_size (k.wanted i)) file)
        (out ++ take (k.writes i) chunk) (log ++ take (k.prints i) chunk) in
    if k.fails i then some (out, log) else if length file == 0 then some (out, log) else rest
