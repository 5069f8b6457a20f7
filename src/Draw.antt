-- ===== src/Draw.antt =====
-- linux_c_development/homework3/img/draw.c: points and lines drawn by writes into a file of 15 rows of 40
-- characters and a newline. Coordinates are numbers that are not negative, as they are in main; every
-- write moves all its bytes.
pub mod Pixels
pub mod Strokes
pub mod Commands
pub mod Picture
mod Tests
use linux_c_homeworks.Prelude.{
  ℕ, zero, suc, ◌+◌, ◌-◌, ◌*◌, ◌≡◌, Bool, true, false, Option, none, some, List, [], ◌∷◌, ◌++◌, ltb,
  leb, ◌==◌, length, drop, replicate, if◌then◌else◌,
}

abbrev pub n_rows : ℕ
n_rows = 15

abbrev pub n_cols : ℕ
n_cols = 40

abbrev pub fg_char : ℕ
fg_char = 79

-- lseek to an offset and a write there; a gap behind the end of the file is filled with 0.
pub write_at : ℕ → List ℕ → List ℕ → List ℕ
write_at zero bytes file = bytes ++ drop (length bytes) file
write_at (suc offset) bytes [] = 0 ∷ write_at offset bytes []
write_at (suc offset) bytes (c ∷ file) = c ∷ write_at offset bytes file

-- The buffer that init_draw fills: one empty row.
pub empty_row : List ℕ
empty_row = replicate n_cols 32 ++ (10 ∷ [])

-- The loop of init_draw with `bytes_written` so far, each round one row; 15 rounds are enough.
pub init_loop : ℕ → ℕ → List ℕ → List ℕ
init_loop zero bytes_written file = file
init_loop (suc fuel) bytes_written file =
    let rest = init_loop fuel (bytes_written + 41) (file ++ empty_row) in
    if ltb bytes_written 615 then rest else file

pub init_draw : List ℕ
init_draw = init_loop 16 0 []

pub draw_point : List ℕ → ℕ → ℕ → List ℕ
draw_point file x y = write_at (y * 41 + x) (fg_char ∷ []) file

abbrev pub n_min : ℕ → ℕ → ℕ
n_min a b = if ltb a b then a else b

abbrev pub n_max : ℕ → ℕ → ℕ
n_max a b = if ltb b a then a else b

-- `none` where memset writes behind the 41 characters of the buffer.
pub draw_hline : List ℕ → ℕ → ℕ → ℕ → Option (List ℕ)
draw_hline file y x1 x2 =
    let bytes_write = n_max x1 x2 - n_min x1 x2 + 1 in
    if ltb 41 bytes_write
    then none
    else some (write_at (y * 41 + n_min x1 x2) (replicate bytes_write fg_char) file)

-- The loop of draw_vline from i to `last`.
pub vline_loop : ℕ → List ℕ → ℕ → ℕ → ℕ → List ℕ
vline_loop zero file x i last = file
vline_loop (suc fuel) file x i last =
    let rest = vline_loop fuel (draw_point file x i) x (i + 1) last in
    if leb i last then rest else file

pub draw_vline : List ℕ → ℕ → ℕ → ℕ → List ℕ
draw_vline file x y1 y2 = vline_loop (n_max y2 y1 + 1) file x (n_min y1 y2) (n_max y2 y1)

-- What sscanf reads from one text of icode.
pub record Command : Type 0 where
  pub ch : ℕ
  pub a : ℕ
  pub b : ℕ
  pub c : ℕ

-- The switch of main; `none` for abort() too.
pub draw : List ℕ → Command → Option (List ℕ)
draw file k =
    if k.ch == 118
    then some (draw_vline file k.a k.b k.c)
    else if k.ch == 104
    then draw_hline file k.a k.b k.c
    else if k.ch == 112
    then some (draw_point file k.a k.b)
    else none

-- The loop over icode.
pub draw_all : List ℕ → List Command → Option (List ℕ)
draw_all file [] = some file
draw_all file (k ∷ ks) = elim (draw file k) [ none ↦ none | some next ↦ draw_all next ks ]

abbrev v : ℕ → ℕ → ℕ → Command
v a b c = record { ch = 118; a = a; b = b; c = c }

abbrev h : ℕ → ℕ → ℕ → Command
h a b c = record { ch = 104; a = a; b = b; c = c }

abbrev p : ℕ → ℕ → ℕ → Command
p a b c = record { ch = 112; a = a; b = b; c = c }

abbrev pub icode : List Command
icode =
    v 1 1 11
    ∷ v 11 7 11
    ∷ v 14 5 11
    ∷ v 18 6 11
    ∷ v 21 5 10
    ∷ v 25 5 10
    ∷ v 29 5 6
    ∷ v 33 5 6
    ∷ v 29 10 11
    ∷ v 33 10 11
    ∷ h 11 1 8
    ∷ h 5 16 17
    ∷ h 11 22 24
    ∷ p 11 5 0
    ∷ p 15 6 0
    ∷ p 26 11 0
    ∷ p 30 7 0
    ∷ p 32 7 0
    ∷ p 31 8 0
    ∷ p 30 9 0
    ∷ p 32 9 0
    ∷ v 36 3 9
    ∷ p 36 11 12
    ∷ []

-- What main leaves in the file.
pub main : Option (List ℕ)
main = draw_all init_draw icode
