-- ===== src/Draw/Commands.antt =====
-- What a list of commands draws, and the picture of main.
use linux_c_homeworks.Prelude.{
  ℕ, ◌≤◌, ◌≡◌, refl, Bool, true, false, Option, some, List, [], ◌∷◌, ltb, leb, ◌==◌, ◌&&◌, ◌||◌,
  if◌then◌else◌, arith, Bool-cases, inl, inr,
}
use linux_c_homeworks.Draw.{
  n_cols, fg_char, draw_point, n_min, n_max, draw_vline, Command, draw, draw_all,
}
use linux_c_homeworks.Draw.Pixels.{pixel, draw_point-pixel}
use linux_c_homeworks.Draw.Strokes.{draw_vline-pixel, draw_hline-pixel}

-- Whether a command is one of the three and stays left of the newlines.
abbrev pub is_inside : Command → Bool
is_inside k =
    if k.ch == 118
    then ltb k.a n_cols
    else if k.ch == 104
    then ltb (n_max k.b k.c) n_cols
    else if k.ch == 112
    then ltb k.a n_cols
    else false

-- Whether it draws column x of row y.
abbrev pub covers : Command → ℕ → ℕ → Bool
covers k x y =
    if k.ch == 118
    then x == k.a && leb (n_min k.b k.c) y && leb y (n_max k.b k.c)
    else if k.ch == 104
    then y == k.a && leb (n_min k.b k.c) x && leb x (n_max k.b k.c)
    else x == k.a && y == k.b

abbrev pub all_inside : List Command → Bool
all_inside [] = true
all_inside (k ∷ ks) = is_inside k && all_inside ks

abbrev pub is_covered : List Command → ℕ → ℕ → Bool
is_covered [] x y = false
is_covered (k ∷ ks) x y = covers k x y || is_covered ks x y

-- The next picture, for all its places.
abbrev pub Draws : (ℕ → ℕ → Bool) → List ℕ → Option (List ℕ) → Type 0
Draws covered file o =
    (next : List ℕ) × (o ≡ some next)
    × ((x y : ℕ) → x ≤ n_cols → pixel next x y ≡ (if covered x y then fg_char else pixel file x y))

draw-Draws :
    (file : List ℕ) (k : Command) → is_inside k ≡ true → Draws (covers k) file (draw file k)
unfolding draw
draw-Draws file k inside = elim (Bool-cases (k.ch == 118)) [
  | inl vertical ↦ (
    draw_vline file k.a k.b k.c,
    rw vertical refl,
    λ x y hx. ground (arith, draw_vline-pixel file k.a k.b k.c x y (ground arith) hx),
  )
  | inr other ↦ elim (Bool-cases (k.ch == 104)) [
    | inl horizontal ↦
        let (next, runs, shows) = draw_hline-pixel file k.a k.b k.c (ground arith) in
        (next, rw (other, horizontal, draw) runs, λ x y hx. ground (arith, shows x y hx))
    | inr neither ↦ elim (Bool-cases (k.ch == 112)) [
      | inl point ↦ (
        draw_point file k.a k.b,
        rw (other, neither, point, draw) refl,
        λ x y hx. ground (arith, draw_point-pixel file k.a k.b x y (ground arith) hx),
      )
      | inr unknown ↦ absurd (ground arith)
    ]
  ]
]

-- If every command is one of the three and stays left of the newlines, then none fails, and a place of
-- the picture shows the foreground exactly when some command covers it, and else what it showed before;
-- so the newlines stay.
pub draw_all_lem :
    (file : List ℕ) (ks : List Command)
    → all_inside ks ≡ true
    → Draws (is_covered ks) file (draw_all file ks)
unfolding draw_all
draw_all_lem file [] inside = (file, refl, λ x y hx. refl)
draw_all_lem file (k ∷ ks) inside =
    let (next, draws, shows) = draw-Draws file k (ground arith) in
    let (last, runs, shows_all) = draw_all_lem next ks (ground arith) in
    (last, rw (draws, draw_all) runs, λ x y hx. ground (arith, shows x y hx, shows_all x y hx))
