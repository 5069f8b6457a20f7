-- ===== src/CopyLoops/Tests.antt =====
-- A file of three bytes with a 0 in the middle, copied by each program, and one whose read fails.
use linux_c_homeworks.Prelude.{ℕ, ◌≡◌, refl, false, some, List, [], ◌∷◌, ◌==◌, if◌then◌else◌, arith}
use linux_c_homeworks.Shmem.{c_string}
use linux_c_homeworks.CopyLoops.{System, amount, myread_loop, myread1_loop, rw_loop, makelog_loop}
use linux_c_homeworks.CopyLoops.Whole.{Works, copies_agree}
use linux_c_homeworks.CopyLoops.Prefixes.{Copies, LetsOut, copies_end}

abbrev working : System
working = record { fails = λ i. false; wanted = λ i. 2; writes = λ i. 256; prints = λ i. 256 }

working-Works : Works working
working-Works = λ i. (refl, omega arith, omega arith)

-- The second read fails.
abbrev failing : System
failing = record working { fails = λ i. i == 1 }

abbrev file : List ℕ
file = 7 ∷ 0 ∷ 9 ∷ []

zero_dropped : myread1_loop 4 working 0 file [] ≡ some (record { code = 0; out = 7 ∷ 9 ∷ [] })
unfolding myread1_loop amount c_string
zero_dropped = refl

copies_agree_example :
    (myread_loop 4 working 0 file [] ≡ some (record { code = 0; out = file }))
    × (rw_loop 4 working 0 file [] ≡ myread_loop 4 working 0 file [])
    × (makelog_loop 4 working 0 file [] [] ≡ some (file, file))
copies_agree_example =
    copies_agree 4 working working working file working-Works working-Works working-Works
      (omega arith)

-- The terminal is full after one byte; the program ends with code 0.
abbrev full : System
full = record working { prints = λ i. if i == 0 then 1 else 0 }

not_noticed : myread_loop 4 full 0 file [] ≡ some (record { code = 0; out = 7 ∷ [] })
unfolding myread_loop
not_noticed = refl

copies_end_example :
    LetsOut failing 0 [] file (myread_loop 4 failing 0 file [])
    × Copies file (rw_loop 4 failing 0 file [])
copies_end_example = copies_end 4 failing file (omega arith)
