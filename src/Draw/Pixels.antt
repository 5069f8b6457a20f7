-- ===== src/Draw/Pixels.antt =====
-- What a write changes in the file, character by character.
use linux_c_homeworks.Prelude.{
  ℕ, zero, suc, ◌+◌, ◌-◌, ◌*◌, ◌≤◌, ◌≡◌, refl, List, [], ◌∷◌, ◌++◌, ltb, leb, ◌==◌, ◌&&◌, length,
  drop, get_or, replicate, length-replicate, if◌then◌else◌, arith, Bool-cases, inl, inr,
}
use linux_c_homeworks.Draw.{n_cols, fg_char, write_at, draw_point}

pub get_or-append :
    (xs ys : List ℕ) (k : ℕ)
    → get_or (xs ++ ys) k 0
      ≡ (if ltb k (length xs) then get_or xs k 0 else get_or ys (k - length xs) 0)
get_or-append [] ys k = let e : k - 0 ≡ k = omega arith in rw e (ground arith)
get_or-append (x ∷ xs) ys zero = ground arith
get_or-append (x ∷ xs) ys (suc k) =
    let e : suc k - suc (length xs) ≡ k - length xs = omega arith in
    rw e (ground (arith, get_or-append xs ys k))

get_or-drop : (n k : ℕ) (xs : List ℕ) → get_or (drop n xs) k 0 ≡ get_or xs (n + k) 0
get_or-drop zero k xs = let e : 0 + k ≡ k = omega arith in rw e refl
get_or-drop (suc n) k [] = refl
get_or-drop (suc n) k (x ∷ xs) =
    let e : suc n + k ≡ suc (n + k) = omega arith in rw e (get_or-drop n k xs)

pub get_or-replicate : (n k c : ℕ) → get_or (replicate n c) k 0 ≡ (if ltb k n then c else 0)
get_or-replicate zero k c = ground arith
get_or-replicate (suc n) zero c = ground arith
get_or-replicate (suc n) (suc k) c = ground (arith, get_or-replicate n k c)

-- The character at k after a write of n equal characters.
pub write_at-get :
    (offset n c : ℕ) (file : List ℕ) (k : ℕ)
    → get_or (write_at offset (replicate n c) file) k 0
      ≡ (if leb offset k && ltb k (offset + n) then c else get_or file k 0)
unfolding write_at
write_at-get zero n c file k =
    let whole = get_or-append (replicate n c) (drop n file) k in
    let parts = rw (length-replicate n c) at whole in
    elim (Bool-cases (ltb k n)) [
      | inl inside ↦ rw (length-replicate n c) (ground (arith, parts, get_or-replicate n k c))
      | inr behind ↦
          let e : n + (k - n) ≡ k = ground arith in
          let there = rw e at (get_or-drop n (k - n) file) in
          rw (length-replicate n c) (ground (arith, parts, there))
    ]
write_at-get (suc offset) n c [] zero = ground arith
write_at-get (suc offset) n c [] (suc k) = ground (arith, write_at-get offset n c [] k)
write_at-get (suc offset) n c (x ∷ file) zero = ground arith
write_at-get (suc offset) n c (x ∷ file) (suc k) = ground (arith, write_at-get offset n c file k)

-- The character in column x and row y.
abbrev pub pixel : List ℕ → ℕ → ℕ → ℕ
pixel file x y = get_or file (y * 41 + x) 0

-- A point changes the character in its place, and no other.
pub draw_point-pixel :
    (file : List ℕ) (a b x y : ℕ)
    → a ≤ n_cols
    → x ≤ n_cols
    → pixel (draw_point file a b) x y ≡ (if x == a && y == b then fg_char else pixel file x y)
unfolding draw_point
draw_point-pixel file a b x y ha hx =
    ground (arith, write_at-get (b * 41 + a) 1 fg_char file (y * 41 + x))
