-- ===== src/CopyLoops/Nulls.antt =====
-- myread1.c, which prints each chunk as a text that ends at the first 0.
use linux_c_homeworks.Prelude.{
  ℕ, zero, suc, ◌+◌, ◌≤◌, ◌<◌, ◌≡◌, refl, sym, ap, ◌∙◌, true, false, Option, some, List, [], ◌∷◌,
  ◌++◌, ◌==◌, ◌||◌, length, take, drop, if◌then◌else◌, arith, length-append,
}
use mathlib.Core.List.{append-nil}
use linux_c_homeworks.Shmem.{c_string}
use linux_c_homeworks.Radio.Message.{has_zero}
use linux_c_homeworks.CopyLoops.{System, amount, Ended, buffer_size, myread1_loop}
use linux_c_homeworks.CopyLoops.Whole.{amount_bounds, shrinks, appended, take-all, length-take-le}

c_string_whole : (cs : List ℕ) → has_zero cs ≡ false → c_string cs ≡ cs
unfolding c_string
c_string_whole [] h = refl
c_string_whole (c ∷ cs) h = let ih = c_string_whole cs (ground arith) in ground (arith, ih)

c_string_short : (cs : List ℕ) → length (c_string cs) + (if has_zero cs then 1 else 0) ≤ length cs
unfolding c_string
c_string_short [] = omega arith
c_string_short (c ∷ cs) = ground (arith, c_string_short cs)

has_zero-split :
    (n : ℕ) (cs : List ℕ) → has_zero cs ≡ (has_zero (take n cs) || has_zero (drop n cs))
has_zero-split zero cs = refl
has_zero-split (suc n) [] = refl
has_zero-split (suc n) (c ∷ cs) = ground (arith, has_zero-split n cs)

length-split : (n : ℕ) (cs : List ℕ) → length (take n cs) + length (drop n cs) ≡ length cs
length-split zero cs = omega arith
length-split (suc n) [] = refl
length-split (suc n) (c ∷ cs) = omega (arith, length-split n cs)

-- What is printed of `file` after `out`: all of it where it has no 0, and else less than it has.
abbrev pub PrintsUpToZeros : List ℕ → List ℕ → Option Ended → Type 0
PrintsUpToZeros out file o =
    (e : Ended) × (o ≡ some e)
    × (e.code ≡ 0)
    × (has_zero file ≡ false → e.out ≡ out ++ file)
    × (length e.out + (if has_zero file then 1 else 0) ≤ length out + length file)

prints_end : (out : List ℕ) → PrintsUpToZeros out [] (some (record { code = 0; out = out }))
prints_end out =
    (record { code = 0; out = out }, refl, refl, λ h. sym (append-nil out), omega arith)

prints_on :
    (n : ℕ) (out file : List ℕ) (o : Option Ended)
    → PrintsUpToZeros (out ++ c_string (take n file)) (drop n file) o
    → PrintsUpToZeros out file o
prints_on n out file o (e, ends, ok, whole, short) =
    let split = has_zero-split n file in
    let kept = λ (h : has_zero (take n file) ≡ false). c_string_whole (take n file) h in
    (
      e,
      ends,
      ok,
      λ h.
          let chunk : has_zero (take n file) ≡ false = ground arith in
          whole (ground arith)
          ∙ ap (λ ys. (out ++ ys) ++ drop n file) (kept chunk)
          ∙ appended n out file,
      ground (
        arith,
        short,
        length-append out (c_string (take n file)),
        length-split n file,
        c_string_short (take n file),
      ),
    )

myread1_prints :
    (fuel : ℕ) (k : System) (i : ℕ) (file out : List ℕ)
    → ((j : ℕ) → (k.fails j ≡ false) × (64 ≤ k.prints j))
    → length file < fuel
    → PrintsUpToZeros out file (myread1_loop fuel k i file out)
unfolding myread1_loop
myread1_prints zero k i file out good h = absurd (omega arith)
myread1_prints (suc fuel) k i [] out good h = rw ((good i).0, myread1_loop) (prints_end out)
myread1_prints (suc fuel) k i (x ∷ xs) out good h =
    let n = amount buffer_size (k.wanted i) in
    let bounds = amount_bounds buffer_size (k.wanted i) (omega arith) in
    let more : (length (x ∷ xs) == 0) ≡ false = ground arith in
    let shown : take (k.prints i) (c_string (take n (x ∷ xs))) ≡ c_string (take n (x ∷ xs)) =
      take-all (k.prints i) (c_string (take n (x ∷ xs))) (
        ground (
          arith,
          bounds,
          length-take-le n (x ∷ xs),
          c_string_short (take n (x ∷ xs)),
          (good i).1,
        )) in
    rw ((good i).0, more, shown, myread1_loop)
      (prints_on n out (x ∷ xs) _ (
        myread1_prints fuel k (i + 1) (drop n (x ∷ xs)) (out ++ c_string (take n (x ∷ xs))) good
          (shrinks fuel n x xs h (bounds.0))))

-- Where no read fails and all that is printed gets out, myread1.c ends with code 0, with a fuel greater than the number of bytes of the
-- file. It prints the whole file where that has no byte 0, and fewer bytes than the file has where it
-- has one, whatever size the reads have.
pub zeros_lost :
    (fuel : ℕ) (k : System) (file : List ℕ)
    → ((j : ℕ) → (k.fails j ≡ false) × (64 ≤ k.prints j))
    → length file < fuel
    → (e : Ended) × (myread1_loop fuel k 0 file [] ≡ some e)
      × (e.code ≡ 0)
      × (has_zero file ≡ false → e.out ≡ file)
      × (has_zero file ≡ true → length e.out < length file)
zeros_lost fuel k file good h =
    let (e, ends, ok, whole, short) = myread1_prints fuel k 0 file [] good h in
    (e, ends, ok, whole, λ z. ground (arith, short))
