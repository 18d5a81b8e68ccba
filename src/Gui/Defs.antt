-- ===== src/Gui/Defs.antt =====
-- The windows of kernel/gui/window.c and the mouse handling of kernel/gui/gui.c. A window is named by its
-- address; an `int` is the number of its 32 bits. What the functions of a program do when they are called
-- back is a parameter; drawing is left out.
use flyos.Base.{
  ℕ, zero, suc, ◌+◌, ◌-◌, ◌%◌, ◌^◌, ◌/◌, Bool, true, false, ◌&&◌, ◌||◌, not, Option, none, some,
  ltb, leb, ◌==◌, if◌then◌else◌,
}

-- `window_t`; a callback is set or NULL.
pub record Window : Type 0 where
  pub x : ℕ
  pub y : ℕ
  pub w : ℕ
  pub h : ℕ
  pub title_bg : ℕ
  pub title_fg : ℕ
  pub bg_color : ℕ
  pub border_color : ℕ
  pub visible : Bool
  pub focused : Bool
  pub on_draw : Bool
  pub on_click : Bool
  pub on_close : Bool
  pub on_move : Bool

abbrev pub Store : Type 0
Store = ℕ → Window

pub record Gui : Type 0 where
  pub windows : ℕ → ℕ
  pub window_count : ℕ
  pub last_buttons : ℕ
  pub focus : ℕ
  pub drag_win : ℕ
  pub drag_off_x : ℕ
  pub drag_off_y : ℕ
  pub store : Store

abbrev pub add : (a b : ℕ) → ℕ
add a b = (a + b) % 2 ^ 32

abbrev pub sub : (a b : ℕ) → ℕ
sub a b = (a + 2 ^ 32 - b) % 2 ^ 32

-- `a < b` of two `int`s
abbrev pub int_lt : (a b : ℕ) → Bool
int_lt a b = ltb (add a (2 ^ 31)) (add b (2 ^ 31))

abbrev pub int_le : (a b : ℕ) → Bool
int_le a b = leb (add a (2 ^ 31)) (add b (2 ^ 31))

-- WIN_TITLE_H
abbrev pub title_h : ℕ
title_h = 24

-- WIN_BORDER
abbrev pub border : ℕ
border = 2

-- WIN_CLOSE_SIZE
abbrev pub close_size : ℕ
close_size = 14

-- `px >= x && px < x + w && py >= y && py < y + h`
abbrev pub is_in : (px py x y w h : ℕ) → Bool
is_in px py x y w h = int_le x px && int_lt px (add x w) && int_le y py && int_lt py (add y h)

-- The colours are those of `fb_rgb`, which depends on the screen.
unfoldable pub window_init : (rgb : ℕ → ℕ → ℕ → ℕ) (x y w h : ℕ) → Window
window_init rgb x y w h = record {
  x = x;
  y = y;
  w = w;
  h = h;
  bg_color = rgb 40 40 50;
  title_bg = rgb 70 100 200;
  title_fg = rgb 255 255 255;
  border_color = rgb 20 20 30;
  visible = true;
  focused = false;
  on_draw = false;
  on_click = false;
  on_close = false;
  on_move = false;
}

abbrev pub window_set_colors : (bg title_bg title_fg : ℕ) → Window → Window
window_set_colors bg title_bg title_fg win = record win {
  bg_color = bg;
  title_bg = title_bg;
  title_fg = title_fg;
}

abbrev pub close_btn_rect : Window → ℕ × ℕ
close_btn_rect win = (
  sub (sub (sub (add win.x win.w) border) close_size) 4,
  add (add win.y border) ((title_h - close_size) / 2),
)

unfoldable pub window_close_hit : Window → (px py : ℕ) → Bool
window_close_hit win px py =
    let (bx, by) = close_btn_rect win in
    if not win.on_close then false else is_in px py bx by close_size close_size

unfoldable pub window_hit : Window → (px py : ℕ) → Bool
window_hit win px py = is_in px py win.x win.y win.w win.h

unfoldable pub in_title_bar : Window → (px py : ℕ) → Bool
in_title_bar win px py = is_in px py win.x win.y win.w (border + title_h)

unfoldable pub gui_init : Gui → Gui
gui_init s = record s { window_count = 0; last_buttons = 0; focus = 0; drag_win = 0 }

-- MAX_WINDOWS
abbrev pub max_windows : ℕ
max_windows = 8

abbrev pub put : (ℕ → ℕ) → (i win : ℕ) → ℕ → ℕ
put windows i win j = if i == j then win else windows j

abbrev pub put_window : Store → (p : ℕ) → Window → Store
put_window store p win q = if p == q then win else store q

unfoldable pub gui_add_window : ℕ → Gui → Gui
gui_add_window win s =
    if leb max_windows s.window_count
    then s
    else record s { windows = put s.windows s.window_count win; window_count = s.window_count + 1 }

-- `for (i ...) if (windows[i] == win) { idx = i; break; }`, from `i` on with `n` windows to go
unfoldable pub find_index : (n i win : ℕ) → (ℕ → ℕ) → Option ℕ
find_index zero i win windows = none
find_index (suc n) i win windows =
    let rest = find_index n (i + 1) win windows in if windows i == win then some i else rest

-- `for (...) windows[i] = windows[i + 1];`, from `i` on for `n` places
unfoldable pub shift_down : (n i : ℕ) → (ℕ → ℕ) → ℕ → ℕ
shift_down zero i windows = windows
shift_down (suc n) i windows = shift_down n (i + 1) (put windows i (windows (i + 1)))

abbrev pub set_focused : Bool → ℕ → Store → Store
set_focused b p store = put_window store p (record (store p) { focused = b })

-- The end of `gui_remove_window`, when the window has left the array.
abbrev pub refocus : ℕ → Gui → Gui
refocus win s =
    let top = if ltb 0 s.window_count then s.windows (s.window_count - 1) else 0 in
    let s' : Gui =
      if s.focus == win
      then record s {
        focus = top;
        store = if top == 0 then s.store else set_focused true top s.store;
      }
      else s in
    if s'.drag_win == win then record s' { drag_win = 0 } else s'

unfoldable pub gui_remove_window : ℕ → Gui → Gui
unfolding find_index shift_down
gui_remove_window win s = elim (find_index s.window_count 0 win s.windows) [
  | none ↦ s
  | some idx ↦ refocus win (record s {
    windows = shift_down (s.window_count - 1 - idx) idx s.windows;
    window_count = s.window_count - 1;
  })
]

unfoldable pub bring_to_front : ℕ → Gui → Gui
unfolding find_index shift_down
bring_to_front win s =
    let moved : Gui = elim (find_index s.window_count 0 win s.windows) [
      | none ↦ s
      | some idx ↦ record s {
        windows =
            put (shift_down (s.window_count - 1 - idx) idx s.windows) (s.window_count - 1) win;
      }
    ] in
    if s.window_count == 0 then s else if win == s.windows (s.window_count - 1) then s else moved

-- The loop of `gui_redraw` over `n` windows from `i` on, without the drawing.
unfoldable pub mark_focus : (n i : ℕ) → Gui → Store → Store
mark_focus zero i s store = store
mark_focus (suc n) i s store =
    let win = s.windows i in
    mark_focus n (i + 1) s
      (if (store win).visible then set_focused (win == s.focus) win store else store)

unfoldable pub gui_redraw : Gui → Gui
unfolding mark_focus
gui_redraw s = record s { store = mark_focus s.window_count 0 s s.store }

-- The loop of `gui_top_window_at` over the `n` lowest windows, from the highest of them down.
unfoldable pub top_of : (n : ℕ) → (x y : ℕ) → Gui → ℕ
top_of zero x y s = 0
top_of (suc n) x y s =
    let win = s.windows n in
    if (s.store win).visible && window_hit (s.store win) x y then win else top_of n x y s

unfoldable pub gui_top_window_at : (x y : ℕ) → Gui → ℕ
unfolding top_of
gui_top_window_at x y s = top_of s.window_count x y s

-- `if (focus) focus->focused = 0; focus = w; focus->focused = 1;`
unfoldable pub give_focus : ℕ → Gui → Gui
give_focus win s =
    let blurred = if s.focus == 0 then s.store else set_focused false s.focus s.store in
    record s { focus = win; store = set_focused true win blurred }

-- A press in the title bar starts to drag the window.
unfoldable pub grab : (mx my win : ℕ) → Gui → Gui
unfolding in_title_bar
grab mx my win s =
    let at = s.store win in
    if in_title_bar at mx my
    then record s { drag_win = win; drag_off_x = sub mx at.x; drag_off_y = sub my at.y }
    else s

-- What a program's callbacks do to the windows.
pub record Callbacks : Type 0 where
  pub close : ℕ → Store → Store
  pub click : (p mx my : ℕ) → Store → Store
  pub move : ℕ → Store → Store

-- `gui_on_mouse`, when the left button goes down on the window `win`.
module _ (calls : Callbacks) (mx my b : ℕ) where
  unfoldable pub close_window : ℕ → Gui → Gui
  unfolding gui_remove_window gui_redraw
  close_window win s =
      let store = if (s.store win).on_close then calls.close win s.store else s.store in
      record (gui_redraw (gui_remove_window win (record s { store = store }))) { last_buttons = b }

  unfoldable pub call_click : ℕ → Gui → Gui
  call_click win s =
      if (s.store win).on_click then record s { store = calls.click win mx my s.store } else s

  unfoldable pub press_window : ℕ → Gui → Gui
  unfolding bring_to_front give_focus grab gui_redraw
  press_window win s =
      record (gui_redraw
        (call_click win (grab mx my win (give_focus win (bring_to_front win s))))) {
          last_buttons = b;
        }

  unfoldable pub move_window : (win nx ny : ℕ) → Store → Store
  move_window win nx ny store =
      let moved = put_window store win (record (store win) { x = nx; y = ny }) in
      if (store win).on_move then calls.move win moved else moved

  -- While the button is held: the window that is dragged follows the mouse.
  unfoldable pub drag : Gui → Gui
  unfolding gui_redraw move_window
  drag s =
      let nx = sub mx s.drag_off_x in
      let ny = sub my s.drag_off_y in
      let win = s.store s.drag_win in
      let s' : Gui =
        if not (nx == win.x) || not (ny == win.y)
        then gui_redraw (record s { store = move_window s.drag_win nx ny s.store })
        else s in
      record s' { last_buttons = b }

  unfoldable pub gui_on_mouse : Gui → Gui
  gui_on_mouse s =
      let left_now = b % 2 == 1 in
      let left_prev = s.last_buttons % 2 == 1 in
      let win = gui_top_window_at mx my s in
      let quiet : Gui = record s { last_buttons = b } in
      if left_now && not left_prev
      then if win == 0
        then quiet
        else if window_close_hit (s.store win) mx my
        then close_window win s
        else press_window win s
      else if not left_now && left_prev
      then record quiet { drag_win = 0 }
      else if left_now && not (s.drag_win == 0)
      then drag s
      else quiet
