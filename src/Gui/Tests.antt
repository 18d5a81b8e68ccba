-- ===== src/Gui/Tests.antt =====
-- Two windows that overlap, 100 under 200, and a mouse with the left button down.
use flyos.Base.{
  ℕ, ◌<◌, ◌≡◌, refl, true, false, [], ◌∷◌, ◌++◌, ◌==◌, if◌then◌else◌, arith, ◌⊎◌, remove, inr,
}
use flyos.Gui.Defs.{
  Window, Gui, Callbacks, window_hit, window_close_hit, top_of, gui_top_window_at, find_index,
  shift_down, bring_to_front, gui_on_mouse,
}
use flyos.Gui.Order.{contents, order, top_window, bring_to_front-order}
use flyos.Gui.Click.{Pressed, MovedTo, gui_on_mouse-Pressed, gui_on_mouse-MovedTo}

abbrev window : (x : ℕ) → Window
window x = record {
  x = x;
  y = 50;
  w = 300;
  h = 200;
  title_bg = 0;
  title_fg = 0;
  bg_color = 0;
  border_color = 0;
  visible = true;
  focused = false;
  on_draw = false;
  on_click = false;
  on_close = true;
  on_move = false;
}

abbrev two : Gui
two = record {
  windows = λ i. if i == 0 then 100 else 200;
  window_count = 2;
  last_buttons = 0;
  focus = 200;
  drag_win = 0;
  drag_off_x = 0;
  drag_off_y = 0;
  store = λ p. if p == 100 then window 10 else window 200;
}

abbrev dragging : Gui
dragging = record two { last_buttons = 1; drag_win = 100; drag_off_x = 5; drag_off_y = 10 }

abbrev calls : Callbacks
calls = record { close = λ p store. store; click = λ p x y store. store; move = λ p store. store }

top_runs : gui_top_window_at 250 100 two ≡ 200
unfolding gui_top_window_at top_of window_hit
top_runs = refl

bring_to_front_runs : order (bring_to_front 100 two) ≡ 200 ∷ 100 ∷ []
unfolding bring_to_front find_index shift_down contents
bring_to_front_runs = refl

bring_to_front-order_example :
    ((bring_to_front 100 two).window_count ≡ 2)
    × (((bring_to_front 100 two ≡ two) × (remove 100 (order two) ≡ order two))
        ⊎ ((bring_to_front 100 two ≡ two) × (0 < 2) × (top_window two ≡ 100))
        ⊎ (order (bring_to_front 100 two) ≡ remove 100 (order two) ++ (100 ∷ [])))
bring_to_front-order_example = bring_to_front-order 100 two

-- A press on the part of the lower window that is not covered.
gui_on_mouse-Pressed_example :
    Pressed 100 1 (bring_to_front 100 two) (gui_on_mouse calls 20 60 1 two)
unfolding gui_top_window_at top_of window_hit window_close_hit
gui_on_mouse-Pressed_example =
    gui_on_mouse-Pressed calls 20 60 1 100 two refl refl refl (λ e. absurd (omega (arith, e))) refl

gui_on_mouse-MovedTo_example :
    MovedTo 100 395 290 dragging.store (gui_on_mouse calls 400 300 1 dragging).store
    × (order (gui_on_mouse calls 400 300 1 dragging) ≡ order dragging)
    × ((gui_on_mouse calls 400 300 1 dragging).drag_win ≡ 100)
gui_on_mouse-MovedTo_example =
    gui_on_mouse-MovedTo calls 400 300 1 dragging refl refl (λ e. absurd (omega (arith, e)))
      (inr (λ p q st. (refl, refl)))
