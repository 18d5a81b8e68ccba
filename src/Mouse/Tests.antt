-- ===== src/Mouse/Tests.antt =====
-- A pointer in the middle of a screen of 1280 by 800 pixels.
use flyos.Base.{◌≡◌, refl, [], ◌∷◌, ◌++◌, arith}
use flyos.Mouse.Defs.{Mouse, clamp, fb_cursor_move, mouse_handler}
use flyos.Mouse.Packets.{Packet, bytes, run, apply_all, IsOnScreen, run-apply_all}

abbrev middle : Mouse
middle = record {
  buttons = 0;
  mouse_cycle = 0;
  byte0 = 0;
  byte1 = 0;
  byte2 = 0;
  cur_x = 640;
  cur_y = 400;
}

abbrev left_up : Packet
left_up = record { flags = 9; dx = 246; dy = 20 }

-- Ten to the left and twenty up, halved, with the left button down.
run_runs : (run 1280 800 (bytes (left_up ∷ [])) middle).cur_x ≡ 635
unfolding mouse_handler fb_cursor_move clamp
run_runs = refl

run-apply_all_example :
    (run 1280 800 ((2 ∷ []) ++ bytes (left_up ∷ [])) middle
      ≡ apply_all 1280 800 (left_up ∷ []) middle)
    × IsOnScreen 1280 800 (run 1280 800 ((2 ∷ []) ++ bytes (left_up ∷ [])) middle)
run-apply_all_example =
    run-apply_all 1280 800 (omega arith) (omega arith) (omega arith) (omega arith) (2 ∷ [])
      (left_up ∷ []) middle (refl, tt) (refl, tt) refl
      (record { across = omega arith; down = omega arith })
