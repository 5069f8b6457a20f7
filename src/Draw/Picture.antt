-- ===== src/Draw/Picture.antt =====
-- The empty picture of init_draw, and the picture that main leaves.
use linux_c_homeworks.Prelude.{
  ℕ, zero, suc, ◌+◌, ◌-◌, ◌*◌, ◌≤◌, ◌<◌, ◌≡◌, refl, ◌∙◌, some, List, [], ◌∷◌, ◌++◌, ltb, ◌==◌,
  length, length-append, get_or, replicate, if◌then◌else◌, arith, Bool-cases, inl, inr,
}
use linux_c_homeworks.Draw.{n_rows, n_cols, empty_row, fg_char, init_loop, init_draw, icode, main}
use linux_c_homeworks.Draw.Pixels.{pixel, get_or-append}
use linux_c_homeworks.Draw.Commands.{is_covered, draw_all_lem}

abbrev pub blank : ℕ → ℕ
blank x = if x == n_cols then 10 else 32

row_get : (m c d x : ℕ) → x ≤ m → get_or (replicate m c ++ (d ∷ [])) x 0 ≡ (if x == m then d else c)
row_get zero c d zero h = refl
row_get zero c d (suc x) h = absurd (omega arith)
row_get (suc m) c d zero h = ground arith
row_get (suc m) c d (suc x) h = ground (arith, row_get m c d x (omega arith))

empty_row-get : (x : ℕ) → x ≤ n_cols → get_or empty_row x 0 ≡ blank x
unfolding empty_row
empty_row-get x h = row_get 40 32 10 x h

length-empty_row : length empty_row ≡ 41
unfolding empty_row
length-empty_row = refl

-- The place in row y, r or a later one, of a file of r rows with an empty one added.
added_row :
    (r : ℕ) (file : List ℕ) (x y : ℕ)
    → length file ≡ r * 41
    → x ≤ n_cols
    → (if ltb y (r + 1) then pixel (file ++ empty_row) x y else blank x)
      ≡ (if ltb y r then pixel file x y else blank x)
added_row r file x y size hx =
    let whole = get_or-append file empty_row (y * 41 + x) in
    elim (Bool-cases (ltb y r)) [
      | inl before ↦ ground (arith, whole)
      | inr here ↦ elim (Bool-cases (y == r)) [
        | inl last ↦
            let e : y * 41 + x - length file ≡ x = ground arith in
            ground (arith, rw e at whole, empty_row-get x hx)
        | inr behind ↦ ground arith
      ]
    ]

init_loop-pixel :
    (fuel r : ℕ) (file : List ℕ) (x y : ℕ)
    → length file ≡ r * 41
    → 15 < r + fuel
    → x ≤ n_cols
    → y < 15
    → pixel (init_loop fuel (r * 41) file) x y ≡ (if ltb y r then pixel file x y else blank x)
unfolding init_loop
init_loop-pixel zero r file x y size enough hx hy = ground arith
init_loop-pixel (suc fuel) r file x y size enough hx hy = elim (Bool-cases (ltb (r * 41) 615)) [
  | inl more ↦
      let grown : length (file ++ empty_row) ≡ (r + 1) * 41 =
        omega (arith, size, length-append file empty_row, length-empty_row) in
      let next : r * 41 + 41 ≡ (r + 1) * 41 = omega arith in
      rw (more, init_loop, next)
        (init_loop-pixel fuel (r + 1) (file ++ empty_row) x y grown (omega arith) hx hy
          ∙ added_row r file x y size hx)
  | inr full ↦ rw (full, init_loop) (ground arith)
]

pub init_draw-pixel : (x y : ℕ) → x ≤ n_cols → y < n_rows → pixel init_draw x y ≡ blank x
unfolding init_draw
init_draw-pixel x y hx hy = ground (arith, init_loop-pixel 16 0 [] x y refl (omega arith) hx hy)

-- main draws without a failure, and in each of the 15 rows the picture shows the foreground exactly where
-- a command of icode covers the place, a newline at the end, and blanks everywhere else.
pub main_picture :
    (last : List ℕ) × (main ≡ some last)
    × ((x y : ℕ)
        → x ≤ n_cols
        → y < n_rows
        → pixel last x y ≡ (if is_covered icode x y then fg_char else blank x))
unfolding main
main_picture =
    let (last, runs, shows) = draw_all_lem init_draw icode refl in
    (last, runs, λ x y hx hy. rw (init_draw-pixel x y hx hy) at (shows x y hx))
