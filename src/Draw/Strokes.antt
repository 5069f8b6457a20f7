-- ===== src/Draw/Strokes.antt =====
-- What a line draws.
use linux_c_homeworks.Prelude.{
  ℕ, zero, suc, ◌+◌, ◌-◌, ◌*◌, ◌≤◌, ◌<◌, ◌≡◌, refl, false, some, List, ltb, leb, ◌==◌, ◌&&◌,
  replicate, if◌then◌else◌, arith, Bool-cases, inl, inr,
}
use linux_c_homeworks.Draw.{
  n_cols, fg_char, write_at, draw_point, n_min, n_max, draw_hline, vline_loop, draw_vline,
}
use linux_c_homeworks.Draw.Pixels.{pixel, write_at-get, draw_point-pixel}

vline_loop-pixel :
    (fuel : ℕ) (file : List ℕ) (a i last x y : ℕ)
    → a ≤ n_cols
    → x ≤ n_cols
    → last < i + fuel
    → pixel (vline_loop fuel file a i last) x y
      ≡ (if x == a && leb i y && leb y last then fg_char else pixel file x y)
unfolding vline_loop
vline_loop-pixel zero file a i last x y ha hx h = ground arith
vline_loop-pixel (suc fuel) file a i last x y ha hx h =
    let ih = vline_loop-pixel fuel (draw_point file a i) a (i + 1) last x y ha hx (omega arith) in
    let here = draw_point-pixel file a i x y ha hx in
    elim (Bool-cases (leb i last)) [
      | inl more ↦ rw (more, vline_loop) (ground (arith, ih, here))
      | inr over ↦ rw (over, vline_loop) (ground arith)
    ]

-- Column a between the rows, and no other place.
pub draw_vline-pixel :
    (file : List ℕ) (a y1 y2 x y : ℕ)
    → a ≤ n_cols
    → x ≤ n_cols
    → pixel (draw_vline file a y1 y2) x y
      ≡ (if x == a && leb (n_min y1 y2) y && leb y (n_max y1 y2) then fg_char else pixel file x y)
unfolding draw_vline
draw_vline-pixel file a y1 y2 x y ha hx = ground (
  arith,
  vline_loop-pixel (n_max y2 y1 + 1) file a (n_min y1 y2) (n_max y2 y1) x y ha hx (ground arith),
)

-- Row b between the columns, and no other place.
pub draw_hline-pixel :
    (file : List ℕ) (b x1 x2 : ℕ)
    → n_max x1 x2 ≤ n_cols
    → (next : List ℕ) × (draw_hline file b x1 x2 ≡ some next)
      × ((x y : ℕ)
          → x ≤ n_cols
          → pixel next x y ≡ (
              if y == b && leb (n_min x1 x2) x && leb x (n_max x1 x2)
              then fg_char
              else pixel file x y))
unfolding draw_hline
draw_hline-pixel file b x1 x2 h =
    let n = n_max x1 x2 - n_min x1 x2 + 1 in
    let start = b * 41 + n_min x1 x2 in
    let fits : ltb 41 n ≡ false = ground arith in
    (
      write_at start (replicate n fg_char) file,
      rw fits refl,
      λ x y hx. ground (arith, write_at-get start n fg_char file (y * 41 + x)),
    )
