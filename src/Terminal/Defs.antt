-- ===== src/Terminal/Defs.antt =====
-- The character buffer and the cursor of kernel/drivers/fb_term.c, without the drawing. An `int` is the number of
-- its 32 bits; `screen_buf` gives the character at a row and a column.
use flyos.Base.{
  ℕ, zero, suc, ◌+◌, ◌*◌, ◌-◌, ◌/◌, ◌%◌, ◌^◌, Bool, ◌&&◌, ◌||◌, not, List, [], ◌∷◌, ltb, ◌==◌,
  if◌then◌else◌,
}
use flyos.Gui.Defs.{add, sub, int_lt, int_le, border, title_h, Window}

-- CHAR_W, CHAR_H, MAX_COLS, MAX_ROWS
abbrev pub char_w : ℕ
char_w = 8

abbrev pub char_h : ℕ
char_h = 16

abbrev pub max_cols : ℕ
max_cols = 160

abbrev pub max_rows : ℕ
max_rows = 64

abbrev pub Cells : Type 0
Cells = ℕ → ℕ → ℕ

pub record Term : Type 0 where
  pub region_x : ℕ
  pub region_y : ℕ
  pub region_w : ℕ
  pub region_h : ℕ
  pub cols : ℕ
  pub rows : ℕ
  pub cursor_x : ℕ
  pub cursor_y : ℕ
  pub fg_color : ℕ
  pub bg_color : ℕ
  pub screen_buf : Cells

abbrev pub space : ℕ
space = 32

abbrev pub put_cell : (r c x : ℕ) → Cells → Cells
put_cell r c x b r' c' = if r == r' then if c == c' then x else b r' c' else b r' c'

-- `a / k` of an `int` and a positive constant, rounded towards zero
abbrev pub int_div : (a k : ℕ) → ℕ
int_div a k = if ltb a (2 ^ 31) then a / k else (2 ^ 32 - (2 ^ 32 - a) / k) % 2 ^ 32

-- The rounds of a loop from 0 to an `int`.
abbrev pub count : ℕ → ℕ
count n = if ltb n (2 ^ 31) then n else 0

-- `for (c ...) screen_buf[r][c] = ' ';`, from the column `c` on for `n` columns
unfoldable pub blank_cells : (n c r : ℕ) → Cells → Cells
blank_cells zero c r b = b
blank_cells (suc n) c r b = blank_cells n (c + 1) r (put_cell r c space b)

-- The same for `n` rows from `r` on.
unfoldable pub blank_rows : (n r cols : ℕ) → Cells → Cells
unfolding blank_cells
blank_rows zero r cols b = b
blank_rows (suc n) r cols b = blank_rows n (r + 1) cols (blank_cells cols 0 r b)

-- `for (c ...) screen_buf[r][c] = screen_buf[r + 1][c];`
unfoldable pub copy_cells : (n c r : ℕ) → Cells → Cells
copy_cells zero c r b = b
copy_cells (suc n) c r b = copy_cells n (c + 1) r (put_cell r c (b (r + 1) c) b)

unfoldable pub copy_rows : (n r cols : ℕ) → Cells → Cells
unfolding copy_cells
copy_rows zero r cols b = b
copy_rows (suc n) r cols b = copy_rows n (r + 1) cols (copy_cells cols 0 r b)

abbrev pub at_most : (a m : ℕ) → ℕ
at_most a m = if int_lt m a then m else a

unfoldable pub set_region : (x y w h : ℕ) → Term → Term
unfolding blank_rows
set_region x y w h t =
    let new_cols = at_most (int_div w char_w) max_cols in
    let new_rows = at_most (int_div h char_h) max_rows in
    let t' : Term = record t { region_x = x; region_y = y; region_w = w; region_h = h } in
    if not (new_cols == t.cols) || not (new_rows == t.rows)
    then record t' {
      cols = new_cols;
      rows = new_rows;
      screen_buf = blank_rows (count new_rows) 0 (count new_cols) t.screen_buf;
      cursor_x = 0;
      cursor_y = 0;
    }
    else t'

unfoldable pub clear : Term → Term
unfolding blank_rows
clear t = record t {
  screen_buf = blank_rows (count t.rows) 0 (count t.cols) t.screen_buf;
  cursor_x = 0;
  cursor_y = 0;
}

abbrev pub set_color : (fg bg : ℕ) → Term → Term
set_color fg bg t = record t { fg_color = fg; bg_color = bg }

-- For a screen of `width` by `height` pixels, with the colours of `fb_rgb`.
unfoldable pub term_init : (rgb : ℕ → ℕ → ℕ → ℕ) (width height : ℕ) → Term → Term
unfolding blank_rows
term_init rgb width height t = record {
  region_x = 0;
  region_y = 0;
  region_w = width;
  region_h = height;
  cols = at_most (width / char_w) max_cols;
  rows = at_most (height / char_h) max_rows;
  cursor_x = 0;
  cursor_y = 0;
  fg_color = rgb 220 220 220;
  bg_color = rgb 10 10 40;
  screen_buf = blank_rows max_rows 0 max_cols t.screen_buf;
}

-- The end of `fb_term_putc`: below the last row everything moves up.
unfoldable pub scroll : Term → Term
unfolding copy_rows blank_cells
scroll t =
    let last = sub t.rows 1 in
    if int_le t.rows t.cursor_y
    then record t {
      screen_buf =
          blank_cells (count t.cols) 0 last (copy_rows (count last) 0 (count t.cols) t.screen_buf);
      cursor_y = last;
    }
    else t

-- `cursor_y < rows && cursor_x < cols`
abbrev pub has_cell : Term → Bool
has_cell t = int_lt t.cursor_y t.rows && int_lt t.cursor_x t.cols

abbrev pub put_at_cursor : ℕ → Term → Term
put_at_cursor c t =
    if has_cell t
    then record t { screen_buf = put_cell t.cursor_y t.cursor_x c t.screen_buf }
    else t

abbrev pub advance : Term → Term
advance t =
    if int_le t.cols (add t.cursor_x 1)
    then record t { cursor_x = 0; cursor_y = add t.cursor_y 1 }
    else record t { cursor_x = add t.cursor_x 1 }

-- A character other than the five below.
unfoldable pub put_plain : ℕ → Term → Term
put_plain c t = scroll (advance (put_at_cursor c t))

unfoldable pub put_spaces : ℕ → Term → Term
put_spaces zero t = t
put_spaces (suc n) t = put_spaces n (put_plain space t)

abbrev pub backspace : Term → Term
backspace t =
    if int_lt 0 t.cursor_x
    then put_at_cursor space (record t { cursor_x = sub t.cursor_x 1 })
    else t

-- `cursor_x` is not negative, so the remainder is that of numbers.
unfoldable pub putc : ℕ → Term → Term
putc c t =
    if c == 10
    then scroll (record t { cursor_x = 0; cursor_y = add t.cursor_y 1 })
    else if c == 13
    then scroll (record t { cursor_x = 0 })
    else if c == 8
    then backspace t
    else if c == 9
    then put_spaces (4 - t.cursor_x % 4) t
    else put_plain c t

unfoldable pub term_write : List ℕ → Term → Term
term_write [] t = t
term_write (c ∷ s) t = term_write s (putc c t)

-- `term_update_region` of kernel/gui/term_window.c: the inside of the window.
unfoldable pub update_region : Window → Term → Term
update_region win =
    set_region (add win.x border) (add (add win.y border) title_h) (sub win.w (2 * border))
      (sub (sub win.h (2 * border)) title_h)
