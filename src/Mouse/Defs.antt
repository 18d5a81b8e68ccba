-- ===== src/Mouse/Defs.antt =====
-- The interrupt handler of kernel/drivers/mouse.c, and the pointer of kernel/drivers/fb_cursor.c without its
-- picture. An `int` is the number of its 32 bits.
use flyos.Base.{ℕ, ◌-◌, ◌/◌, ◌%◌, ◌^◌, ltb, ◌==◌, if◌then◌else◌}
use flyos.Gui.Defs.{add, int_lt}

-- CUR_W, CUR_H
abbrev pub cur_w : ℕ
cur_w = 12

abbrev pub cur_h : ℕ
cur_h = 19

pub record Mouse : Type 0 where
  pub buttons : ℕ
  pub mouse_cycle : ℕ
  pub byte0 : ℕ
  pub byte1 : ℕ
  pub byte2 : ℕ
  pub cur_x : ℕ
  pub cur_y : ℕ

-- `(int8_t)d / 2` and `-(int8_t)d / 2`
abbrev pub half : ℕ → ℕ
half d = if ltb d 128 then d / 2 else (2 ^ 32 - (256 - d) / 2) % 2 ^ 32

abbrev pub minus_half : ℕ → ℕ
minus_half d = if ltb d 128 then (2 ^ 32 - d / 2) % 2 ^ 32 else (256 - d) / 2

-- `if (cur < 0) cur = 0; if (cur > size - room) cur = size - room;`
unfoldable pub clamp : (cur size room : ℕ) → ℕ
clamp cur size room =
    let cur' = if int_lt cur 0 then 0 else cur in
    let last = add size (2 ^ 32 - room) in if int_lt last cur' then last else cur'

module _ (width height : ℕ) where
  unfoldable pub fb_cursor_move : (dx dy : ℕ) → Mouse → Mouse
  unfolding clamp
  fb_cursor_move dx dy m = record m {
    cur_x = clamp (add m.cur_x dx) width cur_w;
    cur_y = clamp (add m.cur_y dy) height cur_h;
  }

  -- `status` is what the status port gives, `byte` what the data port gives.
  unfoldable pub mouse_handler : (status byte : ℕ) → Mouse → Mouse
  unfolding fb_cursor_move
  mouse_handler status byte m =
      if status / 32 % 2 == 0
      then m
      else if m.mouse_cycle == 0
      then if byte / 8 % 2 == 0 then m else record m { byte0 = byte; mouse_cycle = 1 }
      else if m.mouse_cycle == 1
      then record m { byte1 = byte; mouse_cycle = 2 }
      else if m.mouse_cycle == 2
      then fb_cursor_move (half m.byte1) (minus_half byte)
          (record m { byte2 = byte; mouse_cycle = 0; buttons = m.byte0 % 8 })
      else m
