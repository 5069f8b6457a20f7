-- ===== src/CopyLoops/Prefixes.antt =====
-- The loops where reads and writes may fail: they end all the same, with a part of the file copied.
use linux_c_homeworks.Prelude.{
  ℕ, zero, suc, ◌+◌, ◌<◌, ◌≡◌, refl, sym, ap, ◌∙◌, false, Option, some, List, [], ◌∷◌, ◌++◌, ltb,
  ◌==◌, length, take, drop, arith, Bool-cases, inl, inr,
}
use mathlib.Core.List.{append_assoc, append-nil}
use linux_c_homeworks.CopyLoops.{System, amount, Ended, myread_loop, buffer_size, rw_loop}
use linux_c_homeworks.CopyLoops.Whole.{amount_bounds, shrinks, appended}

-- The loop has ended; what stands on the terminal is a beginning of `all`, and all of it at exit code 0.
abbrev pub Copies : List ℕ → Option Ended → Type 0
Copies all o =
    (e : Ended) × (o ≡ some e)
    × (rest : List ℕ) × (e.out ++ rest ≡ all)
    × (e.code ≡ 0 → e.out ≡ all)

stops_early : (out file : List ℕ) → Copies (out ++ file) (some (record { code = 1; out = out }))
stops_early out file = (record { code = 1; out = out }, refl, file, refl, λ e. absurd (cc e))

at_end : (out : List ℕ) → Copies (out ++ []) (some (record { code = 0; out = out }))
at_end out = (record { code = 0; out = out }, refl, [], refl, λ e. sym (append-nil out))

goes_on :
    (n : ℕ) (out file : List ℕ) (o : Option Ended)
    → Copies ((out ++ take n file) ++ drop n file) o
    → Copies (out ++ file) o
goes_on n out file o h = rw (appended n out file) at h

cut_short :
    (n w : ℕ) (out file : List ℕ)
    → Copies (out ++ file) (some (record { code = 1; out = out ++ take w (take n file) }))
cut_short n w out file =
    let chunk = take n file in
    let all : (out ++ take w chunk) ++ (drop w chunk ++ drop n file) ≡ out ++ file =
      sym (append_assoc (out ++ take w chunk) (drop w chunk) (drop n file))
      ∙ ap (λ ys. ys ++ drop n file) (appended w out chunk)
      ∙ appended n out file in
    (
      record { code = 1; out = out ++ take w chunk },
      refl,
      drop w chunk ++ drop n file,
      all,
      λ e. absurd (cc e),
    )

-- The bytes of a file that get out when they are printed one in each round, from the i-th on.
pub let_out : System → ℕ → List ℕ → List ℕ
let_out k i [] = []
let_out k i (x ∷ xs) = take (k.prints i) (x ∷ []) ++ let_out k (i + 1) xs

-- The loop has ended; what it has put behind `out` is what got out of a beginning of `file`, and of all of
-- it at exit code 0.
abbrev pub LetsOut : System → ℕ → List ℕ → List ℕ → Option Ended → Type 0
LetsOut k i out file o =
    (e : Ended) × (o ≡ some e)
    × (front : List ℕ) × (rest : List ℕ) × (front ++ rest ≡ file)
    × (e.out ≡ out ++ let_out k i front)
    × (e.code ≡ 0 → front ≡ file)

prints_on :
    (k : System) (i x : ℕ) (out xs : List ℕ) (o : Option Ended)
    → LetsOut k (i + 1) (out ++ take (k.prints i) (x ∷ [])) xs o
    → LetsOut k i out (x ∷ xs) o
unfolding let_out
prints_on k i x out xs o (e, ends, front, rest, all, shown, whole) = (
  e,
  ends,
  x ∷ front,
  rest,
  ap (λ ys. x ∷ ys) all,
  shown ∙ append_assoc out (take (k.prints i) (x ∷ [])) (let_out k (i + 1) front),
  λ ok. ap (λ ys. x ∷ ys) (whole ok),
)

myread_prints :
    (fuel : ℕ) (k : System) (i : ℕ) (file out : List ℕ)
    → length file < fuel
    → LetsOut k i out file (myread_loop fuel k i file out)
unfolding myread_loop let_out
myread_prints zero k i file out h = absurd (omega arith)
myread_prints (suc fuel) k i [] out h = elim (Bool-cases (k.fails i)) [
  | inl bad ↦
      rw (bad, myread_loop)
        (record { code = 1; out = out }, refl, [], [], refl, sym (append-nil out), λ e. refl)
  | inr good ↦
      rw (good, myread_loop)
        (record { code = 0; out = out }, refl, [], [], refl, sym (append-nil out), λ e. refl)
]
myread_prints (suc fuel) k i (x ∷ xs) out h =
    let more : (length (x ∷ xs) == 0) ≡ false = ground arith in
    elim (Bool-cases (k.fails i)) [
      | inl bad ↦
          rw (bad, myread_loop)
            (
              record { code = 1; out = out },
              refl,
              [],
              x ∷ xs,
              refl,
              sym (append-nil out),
              λ e. absurd (cc e),
            )
      | inr good ↦
          rw (good, more, myread_loop)
            (prints_on k i x out xs _ (
              myread_prints fuel k (i + 1) xs (out ++ take (k.prints i) (x ∷ []))
                (omega (arith, h))))
    ]

rw_copies :
    (fuel : ℕ) (k : System) (i : ℕ) (file out : List ℕ)
    → length file < fuel
    → Copies (out ++ file) (rw_loop fuel k i file out)
unfolding rw_loop
rw_copies zero k i file out h = absurd (omega arith)
rw_copies (suc fuel) k i [] out h = elim (Bool-cases (k.fails i)) [
  | inl bad ↦ rw (bad, rw_loop) (stops_early out [])
  | inr good ↦ rw (good, rw_loop) (at_end out)
]
rw_copies (suc fuel) k i (x ∷ xs) out h =
    let n = amount buffer_size (k.wanted i) in
    let bounds = amount_bounds buffer_size (k.wanted i) (omega arith) in
    let more : (length (x ∷ xs) == 0) ≡ false = ground arith in
    elim (Bool-cases (k.fails i)) [
      | inl bad ↦ rw (bad, rw_loop) (stops_early out (x ∷ xs))
      | inr good ↦ elim (Bool-cases (ltb (k.writes i) (length (take n (x ∷ xs))))) [
        | inl short ↦ rw (good, more, short, rw_loop) (cut_short n (k.writes i) out (x ∷ xs))
        | inr whole ↦
            rw (good, more, whole, rw_loop)
              (goes_on n out (x ∷ xs) _ (
                rw_copies fuel k (i + 1) (drop n (x ∷ xs)) (out ++ take n (x ∷ xs))
                  (shrinks fuel n x xs h (bounds.0))))
      ]
    ]

-- Whatever the system answers, myread.c and rw.c end, with a fuel greater than the number of bytes of
-- the file. What rw.c leaves on the terminal is a beginning of the file, and the whole file if its exit
-- code is 0. What myread.c leaves is so much of a beginning of the file as got out of the buffer of the
-- stream, and of the whole file if its exit code is 0, which does not say that all of it got out.
pub copies_end :
    (fuel : ℕ) (k : System) (file : List ℕ)
    → length file < fuel
    → LetsOut k 0 [] file (myread_loop fuel k 0 file []) × Copies file (rw_loop fuel k 0 file [])
copies_end fuel k file h = (myread_prints fuel k 0 file [] h, rw_copies fuel k 0 file [] h)
