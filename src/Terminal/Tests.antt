-- ===== src/Terminal/Tests.antt =====
-- A region of three columns and two rows.
use flyos.Base.{◌≡◌, refl, [], ◌∷◌, arith}
use flyos.Terminal.Defs.{
  Term, scroll, put_plain, putc, term_write, copy_rows, copy_cells, blank_cells,
}
use flyos.Terminal.Scroll.{IsTerm, Stays}
use flyos.Terminal.Text.{Typed}
use flyos.Terminal.Write.{putc-Typed, term_write-Stays}

abbrev small : Term
small = record {
  region_x = 0;
  region_y = 0;
  region_w = 24;
  region_h = 32;
  cols = 3;
  rows = 2;
  cursor_x = 0;
  cursor_y = 0;
  fg_color = 0;
  bg_color = 0;
  screen_buf = λ r c. 32;
}

small-IsTerm : IsTerm small
small-IsTerm = record {
  some_cols = omega arith;
  cols = omega arith;
  some_rows = omega arith;
  rows = omega arith;
}

-- "a", a line end and "bcd", which fills the second row: it is now the first.
write_runs : (term_write (97 ∷ 10 ∷ 98 ∷ 99 ∷ 100 ∷ []) small).screen_buf 0 2 ≡ 100
unfolding term_write putc put_plain scroll copy_rows copy_cells blank_cells
write_runs = refl

putc-Typed_example : Typed 97 small (putc 97 small)
putc-Typed_example = putc-Typed 97 small small-IsTerm refl

term_write-Stays_example : Stays small (term_write (97 ∷ 10 ∷ 9 ∷ 8 ∷ []) small)
term_write-Stays_example = term_write-Stays (97 ∷ 10 ∷ 9 ∷ 8 ∷ []) small small-IsTerm
