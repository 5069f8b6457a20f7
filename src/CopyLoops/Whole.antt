-- ===== src/CopyLoops/Whole.antt =====
-- The loops where no call fails: they end, and what they leave.
use linux_c_homeworks.Prelude.{
  ℕ, zero, suc, ◌+◌, ◌-◌, ◌≤◌, ◌<◌, ◌≡◌, refl, sym, ap, ◌∙◌, false, some, List, [], ◌∷◌, ◌++◌, ltb,
  ◌==◌, length, take, drop, arith,
}
use mathlib.Core.List.{append_assoc, append-nil}
use linux_c_homeworks.CopyLoops.{
  System, amount, myread_loop, buffer_size, rw_loop, buf_size, makelog_loop,
}

pub take-append-drop : (n : ℕ) (xs : List ℕ) → take n xs ++ drop n xs ≡ xs
take-append-drop zero xs = refl
take-append-drop (suc n) [] = refl
take-append-drop (suc n) (x ∷ xs) = ap (λ ys. x ∷ ys) (take-append-drop n xs)

pub length-drop : (n : ℕ) (xs : List ℕ) → length (drop n xs) ≡ length xs - n
length-drop zero xs = omega arith
length-drop (suc n) [] = omega arith
length-drop (suc n) (x ∷ xs) = omega (arith, length-drop n xs)

pub length-take-le : (n : ℕ) (xs : List ℕ) → length (take n xs) ≤ n
length-take-le zero xs = omega arith
length-take-le (suc n) [] = omega arith
length-take-le (suc n) (x ∷ xs) = omega (arith, length-take-le n xs)

pub take-all : (n : ℕ) (xs : List ℕ) → length xs ≤ n → take n xs ≡ xs
take-all zero [] h = refl
take-all zero (x ∷ xs) h = absurd (omega arith)
take-all (suc n) [] h = refl
take-all (suc n) (x ∷ xs) h = ap (λ ys. x ∷ ys) (take-all n xs (omega arith))

-- A chunk has at least one byte, and fits into the buffer.
pub amount_bounds :
    (size wanted : ℕ) → 1 ≤ size → (1 ≤ amount size wanted) × (amount size wanted ≤ size)
unfolding amount
amount_bounds size wanted h = (ground arith, ground arith)

-- The fuel that is left is still enough after a chunk.
pub shrinks :
    (fuel n x : ℕ) (xs : List ℕ)
    → length (x ∷ xs) < suc fuel
    → 1 ≤ n
    → length (drop n (x ∷ xs)) < fuel
shrinks fuel n x xs h one = omega (arith, length-drop n (x ∷ xs))

pub appended : (n : ℕ) (out file : List ℕ) → (out ++ take n file) ++ drop n file ≡ out ++ file
appended n out file =
    append_assoc out (take n file) (drop n file) ∙ ap (λ ys. out ++ ys) (take-append-drop n file)

-- No read fails, every write moves the whole chunk, and all that is printed gets out.
abbrev pub Works : System → Type 0
Works k = (i : ℕ) → (k.fails i ≡ false) × (256 ≤ k.writes i) × (256 ≤ k.prints i)

pub myread_whole :
    (fuel : ℕ) (k : System) (i : ℕ) (file out : List ℕ)
    → Works k
    → length file < fuel
    → myread_loop fuel k i file out ≡ some (record { code = 0; out = out ++ file })
unfolding myread_loop
myread_whole zero k i file out w h = absurd (omega arith)
myread_whole (suc fuel) k i [] out w h = rw ((w i).0, append-nil out, myread_loop) refl
myread_whole (suc fuel) k i (x ∷ xs) out w h =
    let more : (length (x ∷ xs) == 0) ≡ false = ground arith in
    let shown : take (k.prints i) (take 1 (x ∷ xs)) ≡ take 1 (x ∷ xs) =
      take-all (k.prints i) (take 1 (x ∷ xs)) (omega (arith, length-take-le 1 (x ∷ xs), (w i).2)) in
    rw ((w i).0, more, shown, myread_loop)
      (myread_whole fuel k (i + 1) (drop 1 (x ∷ xs)) (out ++ take 1 (x ∷ xs)) w
          (shrinks fuel 1 x xs h (omega arith))
        ∙ ap (λ ys. some (record { code = 0; out = ys })) (appended 1 out (x ∷ xs)))

pub rw_whole :
    (fuel : ℕ) (k : System) (i : ℕ) (file out : List ℕ)
    → Works k
    → length file < fuel
    → rw_loop fuel k i file out ≡ some (record { code = 0; out = out ++ file })
unfolding rw_loop
rw_whole zero k i file out w h = absurd (omega arith)
rw_whole (suc fuel) k i [] out w h = rw ((w i).0, append-nil out, rw_loop) refl
rw_whole (suc fuel) k i (x ∷ xs) out w h =
    let n = amount buffer_size (k.wanted i) in
    let bounds = amount_bounds buffer_size (k.wanted i) (omega arith) in
    let more : (length (x ∷ xs) == 0) ≡ false = ground arith in
    let whole : ltb (k.writes i) (length (take n (x ∷ xs))) ≡ false =
      ground (arith, bounds, length-take-le n (x ∷ xs), (w i).1) in
    rw ((w i).0, more, whole, rw_loop)
      (rw_whole fuel k (i + 1) (drop n (x ∷ xs)) (out ++ take n (x ∷ xs)) w
          (shrinks fuel n x xs h (bounds.0))
        ∙ ap (λ ys. some (record { code = 0; out = ys })) (appended n out (x ∷ xs)))

makelog_whole :
    (fuel : ℕ) (k : System) (i : ℕ) (file out log : List ℕ)
    → Works k
    → length file < fuel
    → makelog_loop fuel k i file out log ≡ some (out ++ file, log ++ file)
unfolding makelog_loop
makelog_whole zero k i file out log w h = absurd (omega arith)
makelog_whole (suc fuel) k i [] out log w h =
    rw ((w i).0, append-nil out, append-nil log, makelog_loop) refl
makelog_whole (suc fuel) k i (x ∷ xs) out log w h =
    let n = amount buf_size (k.wanted i) in
    let bounds = amount_bounds buf_size (k.wanted i) (omega arith) in
    let more : (length (x ∷ xs) == 0) ≡ false = ground arith in
    let whole : take (k.writes i) (take n (x ∷ xs)) ≡ take n (x ∷ xs) =
      take-all (k.writes i) (take n (x ∷ xs))
        (omega (arith, bounds, length-take-le n (x ∷ xs), (w i).1)) in
    let logged : take (k.prints i) (take n (x ∷ xs)) ≡ take n (x ∷ xs) =
      take-all (k.prints i) (take n (x ∷ xs))
        (omega (arith, bounds, length-take-le n (x ∷ xs), (w i).2)) in
    let rest =
      makelog_whole fuel k (i + 1) (drop n (x ∷ xs)) (out ++ take n (x ∷ xs))
        (log ++ take n (x ∷ xs)) w (shrinks fuel n x xs h (bounds.0)) in
    rw ((w i).0, more, whole, logged, makelog_loop)
      (rest
        ∙ ap (λ ys. some (ys, (log ++ take n (x ∷ xs)) ++ drop n (x ∷ xs)))
            (appended n out (x ∷ xs))
        ∙ ap (λ ys. some (out ++ (x ∷ xs), ys)) (appended n log (x ∷ xs)))

-- Where no call fails and all that is printed gets out, myread.c and rw.c end with code 0, makelog.c ends too, and what they leave on the
-- terminal and in the log is the same, the bytes of the file or of the command, whatever size the reads
-- have; a fuel greater than the number of bytes is enough.
pub copies_agree :
    (fuel : ℕ) (k l m : System) (file : List ℕ)
    → Works k
    → Works l
    → Works m
    → length file < fuel
    → (myread_loop fuel k 0 file [] ≡ some (record { code = 0; out = file }))
      × (rw_loop fuel l 0 file [] ≡ myread_loop fuel k 0 file [])
      × (makelog_loop fuel m 0 file [] [] ≡ some (file, file))
copies_agree fuel k l m file wk wl wm h =
    let a = myread_whole fuel k 0 file [] wk h in
    (a, rw_whole fuel l 0 file [] wl h ∙ sym a, makelog_whole fuel m 0 file [] [] wm h)
