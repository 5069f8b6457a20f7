-- ===== src/Arrays/Program.antt =====
-- main of homework1/main.c: fill ten numbers, show them, sort them, show them again.
use linux_c_homeworks.Prelude.{
  ℕ, zero, suc, ◌+◌, ◌≤◌, ◌<◌, ◌≡◌, refl, ap, ◌∙◌, some, List, [], ◌∷◌, ◌++◌, arith, length, take,
  set, replicate, if◌then◌else◌, ℕ_discrete, length-set, get_or-set_self, get_or-set_ne,
}
use linux_c_homeworks.Prelude.Int.{ℤ, pos, ltb_ℤ}
use linux_c_homeworks.Arrays.{
  at, Piece, started_sorting, finished_sorting, fill_loop, array_fill_with_rand_nums, array_show,
  sort_array, sort_loop,
}
use mathlib.Core.List.{append_assoc}
use linux_c_homeworks.Arrays.Bounds.{length-sort_loop}
use linux_c_homeworks.Arrays.Show.{bracketed, array_show_lem}
use linux_c_homeworks.Arrays.Ordered.{Sorts, sort_loop-Sorts}

-- The exit status of the process and all that it printed.
pub record Exit : Type 0 where
  pub status : ℕ
  pub out : List Piece

-- `nums` has ten elements, SIZE_OF_ARRAY(nums). The seed only chooses `rand`.
pub main : (ℕ → ℤ) → Exit
main rand =
    let filled = array_fill_with_rand_nums rand (some (replicate 10 (pos 0))) 10 in
    let before = array_show filled.array 10 in
    let sorted = sort_array before.array 10 in
    let after = array_show sorted.array 10 in
    if ltb_ℤ filled.ret (pos 0)
    then record { status = 1; out = filled.out }
    else if ltb_ℤ before.ret (pos 0)
    then record { status = 1; out = filled.out ++ before.out }
    else if ltb_ℤ sorted.ret (pos 0)
    then record { status = 1; out = filled.out ++ before.out ++ sorted.out }
    else record {
      status = if ltb_ℤ after.ret (pos 0) then 1 else 0;
      out = filled.out ++ before.out ++ sorted.out ++ after.out;
    }

length-fill_loop :
    (rand : ℕ → ℤ) (rounds i : ℕ) (xs : List ℤ) → length (fill_loop rand rounds i xs) ≡ length xs
unfolding fill_loop
length-fill_loop rand zero i xs = refl
length-fill_loop rand (suc rounds) i xs =
    length-fill_loop rand rounds (i + 1) (set xs i (rand i)) ∙ length-set xs i (rand i)

-- The loop leaves the elements before i alone, and the later ones are the numbers of rand().
at-fill_loop_before :
    (rand : ℕ → ℤ) (rounds i : ℕ) (xs : List ℤ) (k : ℕ)
    → k < i
    → at (fill_loop rand rounds i xs) k ≡ at xs k
unfolding fill_loop
at-fill_loop_before rand zero i xs k h = refl
at-fill_loop_before rand (suc rounds) i xs k h =
    at-fill_loop_before rand rounds (i + 1) (set xs i (rand i)) k (omega arith)
    ∙ get_or-set_ne xs i k (rand i) (pos 0) (omega arith)

at-fill_loop :
    (rand : ℕ → ℤ) (rounds i : ℕ) (xs : List ℤ) (k : ℕ)
    → i + rounds ≤ length xs
    → i ≤ k
    → k < i + rounds
    → at (fill_loop rand rounds i xs) k ≡ rand k
unfolding fill_loop
at-fill_loop rand zero i xs k h p q = absurd (omega arith)
at-fill_loop rand (suc rounds) i xs k h p q = elim (ℕ_discrete i k) [
  | yes e ↦
      at-fill_loop_before rand rounds (i + 1) (set xs i (rand i)) k (omega arith)
      ∙ rw e (get_or-set_self xs k (rand k) (pos 0) (omega arith))
  | no later ↦
      at-fill_loop rand rounds (i + 1) (set xs i (rand i)) k
        (omega (arith, length-set xs i (rand i))) (omega arith) (omega arith)
]

take_all : (n : ℕ) (xs : List ℤ) → length xs ≡ n → take n xs ≡ xs
take_all zero [] h = refl
take_all zero (x ∷ xs) h = absurd (omega arith)
take_all (suc n) [] h = refl
take_all (suc n) (x ∷ xs) h = ap (◌∷◌ x) (take_all n xs (omega arith))

-- array_fill_with_rand_nums, array_show and sort_array on the ten elements of `nums`.
fill_ten :
    (rand : ℕ → ℤ) (xs : List ℤ)
    → array_fill_with_rand_nums rand (some xs) 10
      ≡ record { ret = pos 0; array = some (fill_loop rand 10 0 xs); out = [] }
unfolding array_fill_with_rand_nums
fill_ten rand xs = refl

show_ten :
    (xs : List ℤ)
    → length xs ≡ 10
    → array_show (some xs) 10 ≡ record { ret = pos 0; array = some xs; out = bracketed xs }
show_ten xs h = rw (take_all 10 xs h) at ((array_show_lem xs 10 (omega arith)).1)

sort_ten :
    (xs : List ℤ)
    → sort_array (some xs) 10 ≡ record {
      ret = pos 0;
      array = some (sort_loop 9 xs 10 0);
      out = started_sorting ∷ finished_sorting ∷ [];
    }
unfolding sort_array
sort_ten xs = refl

sort_ten-Sorts : (xs : List ℤ) → length xs ≡ 10 → Sorts xs (sort_loop 9 xs 10 0) 10
sort_ten-Sorts xs h = sort_loop-Sorts xs 10 (omega arith) (omega arith)

module _ (rand : ℕ → ℤ) where
  drawn : List ℤ
  drawn = fill_loop rand 10 0 (replicate 10 (pos 0))

  length-drawn : length drawn ≡ 10
  unfolding drawn
  length-drawn = length-fill_loop rand 10 0 (replicate 10 (pos 0))

  main_eq : main rand ≡ record {
    status = 0;
    out =
        bracketed drawn
        ++ (started_sorting ∷ finished_sorting ∷ bracketed (sort_loop 9 drawn 10 0));
  }
  unfolding main
  main_eq =
      rw
        (
          fill_drawn,
          show_ten drawn length-drawn,
          sort_ten drawn,
          show_ten (sort_loop 9 drawn 10 0) (length-sort_loop 9 drawn 10 0 ∙ length-drawn),
        )
        (ap (λ o. record { status = 0; out = o })
          (append_assoc (bracketed drawn) (started_sorting ∷ finished_sorting ∷ [])
            (bracketed (sort_loop 9 drawn 10 0))))
    where
      fill_drawn :
          array_fill_with_rand_nums rand (some (replicate 10 (pos 0))) 10
          ≡ record { ret = pos 0; array = some drawn; out = [] }
      fill_drawn = unfold drawn in fill_ten rand (replicate 10 (pos 0))

-- What the program does: it ends with status 0 and prints ten numbers, those that the ten calls of
-- rand() return, then the two lines about sorting, then an ascending rearrangement of the ten.
pub main_lem :
    (rand : ℕ → ℤ)
    → (xs : List ℤ) × (ys : List ℤ) × (main rand ≡ record {
      status = 0;
      out = bracketed xs ++ (started_sorting ∷ finished_sorting ∷ bracketed ys);
    })
      × (length xs ≡ 10)
      × ((k : ℕ) → k < 10 → at xs k ≡ rand k)
      × Sorts xs ys 10
unfolding drawn
main_lem rand = (
  drawn rand,
  sort_loop 9 (drawn rand) 10 0,
  main_eq rand,
  length-drawn rand,
  λ k h. at-fill_loop rand 10 0 (replicate 10 (pos 0)) k (omega arith) (omega arith) (omega arith),
  sort_ten-Sorts (drawn rand) (length-drawn rand),
)
