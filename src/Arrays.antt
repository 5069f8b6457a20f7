-- ===== src/Arrays.antt =====
-- linux_c_development/homework1: array.c, sort.c and main.c (homework2/static, homework2/dynamic and
-- homework3/array hold copies). An array argument is `none` for NULL, or the memory it points to.
-- The size of the array and the numbers that rand() returns are arguments.
pub mod Bounds
pub mod Counts
pub mod Ordered
pub mod Show
pub mod Program
pub mod Copies
mod Tests
use linux_c_homeworks.Prelude.{
  ℕ, zero, suc, ◌+◌, ◌-◌, Bool, Option, none, some, List, [], ◌∷◌, ◌++◌, ltb, leb, ◌==◌, not,
  if◌then◌else◌, get_or, set,
}
use linux_c_homeworks.Prelude.Int.{ℤ, pos, negsuc, ltb_ℤ}

-- What the program writes to the standard output, a piece for each printf.
pub data Piece : Type 0 where
  started_sorting finished_sorting array_open separator array_close : Piece
  number : ℤ → Piece

-- A call's return value, the memory after it, and what it printed.
pub record Call : Type 0 where
  pub ret : ℤ
  pub array : Option (List ℤ)
  pub out : List Piece

-- `array[i]`, 0 for an index that is out of range.
abbrev pub at : List ℤ → ℕ → ℤ
at xs i = get_or xs i (pos 0)

-- The inner loop of sort_array, with `rounds` values of j left.
pub min_scan : List ℤ → ℕ → ℕ → ℕ → ℕ
min_scan xs zero j min_index = min_index
min_scan xs (suc rounds) j min_index =
    min_scan xs rounds (j + 1) (if ltb_ℤ (at xs j) (at xs min_index) then j else min_index)

abbrev pub swap : List ℤ → ℕ → ℕ → List ℤ
swap xs i m = set (set xs i (at xs m)) m (at xs i)

-- The body of the outer loop.
pub sort_step : List ℤ → ℕ → ℕ → List ℤ
sort_step xs len i =
    let min_index = min_scan xs (len - (i + 1)) (i + 1) i in
    if not (min_index == i) then swap xs i min_index else xs

-- The outer loop, with `rounds` values of i left.
pub sort_loop : ℕ → List ℤ → ℕ → ℕ → List ℤ
sort_loop zero xs len i = xs
sort_loop (suc rounds) xs len i = sort_loop rounds (sort_step xs len i) len (i + 1)

pub sort_array : Option (List ℤ) → ℕ → Call
sort_array none len = record { ret = negsuc 0; array = none; out = [] }
sort_array (some xs) len =
    if len == 0 then record { ret = negsuc 0; array = some xs; out = [] } else record {
      ret = pos 0;
      array = some (sort_loop (len - 1) xs len 0);
      out = started_sorting ∷ finished_sorting ∷ [];
    }

-- The loop of array_show.
pub show_loop : List ℤ → ℕ → ℕ → ℕ → List Piece
show_loop xs len zero i = []
show_loop xs len (suc rounds) i =
    number (at xs i)
    ∷ ((if ltb i (len - 1) then separator ∷ [] else []) ++ show_loop xs len rounds (i + 1))

pub array_show : Option (List ℤ) → ℕ → Call
array_show none len = record { ret = negsuc 0; array = none; out = [] }
array_show (some xs) len =
    if leb len 0 then record { ret = negsuc 0; array = some xs; out = [] } else record {
      ret = pos 0;
      array = some xs;
      out = array_open ∷ (show_loop xs len len 0 ++ (array_close ∷ []));
    }

-- The loop of array_fill_with_rand_nums; `rand k` is what the k-th call of rand() returns.
pub fill_loop : (ℕ → ℤ) → ℕ → ℕ → List ℤ → List ℤ
fill_loop rand zero i xs = xs
fill_loop rand (suc rounds) i xs = fill_loop rand rounds (i + 1) (set xs i (rand i))

pub array_fill_with_rand_nums : (ℕ → ℤ) → Option (List ℤ) → ℕ → Call
array_fill_with_rand_nums rand none len = record { ret = negsuc 0; array = none; out = [] }
array_fill_with_rand_nums rand (some xs) len =
    if leb len 0
    then record { ret = negsuc 0; array = some xs; out = [] }
    else record { ret = pos 0; array = some (fill_loop rand len 0 xs); out = [] }
