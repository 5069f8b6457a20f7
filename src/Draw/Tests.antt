-- ===== src/Draw/Tests.antt =====
-- The commands of main on the empty picture.
use linux_c_homeworks.Prelude.{◌≡◌, refl, none}
use linux_c_homeworks.Draw.{init_draw, draw_all, icode, draw_hline}
use linux_c_homeworks.Draw.Commands.{Draws, is_covered, draw_all_lem}

-- A horizontal line of 42 characters does not fit into the buffer.
too_long : draw_hline init_draw 3 0 41 ≡ none
unfolding draw_hline
too_long = refl

draw_all_lem_example : Draws (is_covered icode) init_draw (draw_all init_draw icode)
draw_all_lem_example = draw_all_lem init_draw icode refl
