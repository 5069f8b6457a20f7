-- ===== src/Transfer/Tests.antt =====
-- Runs of the copy loops, and the theorems about node_read and node_write at concrete values.
use linux_c_homeworks.Prelude.{
  ℕ, zero, suc, ◌-◌, ◌+◌, ◌≡◌, some, List, [], ◌∷◌, refl, arith, replicate, length-replicate,
}
use linux_c_homeworks.Prelude.Int.{pos}
use linux_c_homeworks.Transfer.{
  buf_size, Parsed, number, Device, parse_rand, rand_write, strlen, copy_in,
}
use linux_c_homeworks.Transfer.Copy.{Written, clipped}
use linux_c_homeworks.Transfer.Write.{rand_write_lem}
use linux_c_homeworks.Transfer.Read.{read_all, read_all_lem, message}

abbrev zeros : List ℕ
zeros = replicate buf_size 0

abbrev device : Device
device = record { buffer = zeros; rand_nums_amount = pos 1; offset = 0 }

-- A user's memory with "42\n" at the start.
abbrev user : ℕ → ℕ
user zero = 52
user (suc zero) = 50
user (suc (suc zero)) = 10
user (suc (suc (suc i))) = 0

-- A kstrtol that finds 2000 in every text.
abbrev kstrtol : List ℕ → Parsed
kstrtol text = number (pos 2000)

copied : copy_in user 2 1 0 (0 ∷ 0 ∷ 0 ∷ 0 ∷ []) ≡ some (0 ∷ 52 ∷ 50 ∷ 0 ∷ [])
unfolding copy_in
copied = refl

rand_write_lem_example :
    (ys : List ℕ) × (rand_write kstrtol user 3 device
      ≡ some (parse_rand kstrtol user device (clipped 0 (buf_size - 1) 3) ys))
    × Written user 0 (clipped 0 (buf_size - 1) 3) zeros ys
rand_write_lem_example =
    rand_write_lem kstrtol user 3 device (length-replicate {A = ℕ} buf_size 0) (omega arith)
      (omega arith) (omega arith)

abbrev text : List ℕ
text = 52 ∷ 50 ∷ 10 ∷ 0 ∷ 0 ∷ []

read_all_lem_example : read_all (strlen text + 1) text 2 0 ≡ some (message text)
read_all_lem_example = read_all_lem text 2 (omega arith) (omega arith) (omega arith)
