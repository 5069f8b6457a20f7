-- ===== src/Arrays/Show.antt =====
-- What array_show prints: the elements between brackets, with a comma between neighbours.
use linux_c_homeworks.Prelude.{
  ℕ, zero, suc, ◌+◌, ◌-◌, ◌≤◌, ◌≡◌, refl, ap, none, some, List, [], ◌∷◌, ◌++◌, arith, length, take,
  take-drop, drop, ltb, ◌==◌, true, false, if◌then◌else◌,
}
use linux_c_homeworks.Prelude.Int.{ℤ, pos, negsuc}
use linux_c_homeworks.Arrays.{
  at, Piece, number, separator, array_open, array_close, show_loop, array_show,
}

-- The numbers with a separator between neighbours.
abbrev pub joined : List ℤ → List Piece
joined [] = []
joined (x ∷ []) = number x ∷ []
joined (x ∷ y ∷ xs) = number x ∷ separator ∷ joined (y ∷ xs)

abbrev pub bracketed : List ℤ → List Piece
bracketed xs = array_open ∷ (joined xs ++ (array_close ∷ []))

show_loop-joined :
    (xs : List ℤ) (len rounds i : ℕ)
    → i + rounds ≡ len
    → len ≤ length xs
    → show_loop xs len rounds i ≡ joined (take rounds (drop i xs))
unfolding show_loop
show_loop-joined xs len zero i e h = refl
show_loop-joined xs len (suc zero) i e h =
    let last : ltb i (len - 1) ≡ false = ground arith in
    rw (take-drop xs i 0 (pos 0) (omega arith), last)
show_loop-joined xs len (suc (suc n)) i e h =
    let more : ltb i (len - 1) ≡ true = ground arith in
    rw
      (
        take-drop xs i (suc n) (pos 0) (omega arith),
        more,
        take-drop xs (i + 1) n (pos 0) (omega arith),
      )
      (ap (λ r. number (at xs i) ∷ separator ∷ r)
        (rw (take-drop xs (i + 1) n (pos 0) (omega arith)) at
          (show_loop-joined xs len (suc n) (i + 1) (omega arith) h)))

-- array_show returns -1 and prints nothing for NULL and for a length of 0. For an array of at
-- least `len` elements, `len` not 0, it returns 0 and prints the first `len` elements between
-- brackets, with a separator between neighbours. The array is never changed.
pub array_show_lem :
    (xs : List ℤ) (len : ℕ)
    → len ≤ length xs
    → (array_show none len ≡ record { ret = negsuc 0; array = none; out = [] })
      × (array_show (some xs) len ≡ (
          if len == 0
          then record { ret = negsuc 0; array = some xs; out = [] }
          else record { ret = pos 0; array = some xs; out = bracketed (take len xs) }))
unfolding array_show
array_show_lem xs zero h = (refl, refl)
array_show_lem xs (suc n) h =
    (refl, ground (arith, show_loop-joined xs (suc n) (suc n) 0 (omega arith) h))
