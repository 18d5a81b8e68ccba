-- ===== src/Terminal/Write.antt =====
-- Texts on the screen: `fb_term_putc` and `fb_term_write`.
use flyos.Base.{
  ℕ, Bool, ◌||◌, zero, suc, ◌+◌, ◌-◌, ◌^◌, ◌%◌, ◌≤◌, ◌<◌, ◌≡◌, refl, false, List, [], ◌∷◌, ◌==◌,
  arith, sym, subst, Bool-cases, inl, inr,
}
use flyos.Gui.Defs.{int_lt}
use flyos.Terminal.Defs.{Term, space, scroll, put_plain, put_spaces, backspace, putc, term_write}
use flyos.Terminal.Scroll.{IsTerm, Stays, Stays-trans, scroll-Stays}
use flyos.Terminal.Text.{typed, typed-outside, put_at_cursor-typed, Typed, put_plain-Typed}

Stays-refl : (t : Term) → IsTerm t → Stays t t
Stays-refl t i = record { valid = i; cols = refl; rows = refl; outside = λ r k out. refl }

put_spaces-Stays : (n : ℕ) (t : Term) → IsTerm t → Stays t (put_spaces n t)
unfolding put_spaces
put_spaces-Stays zero t i = Stays-refl t i
put_spaces-Stays (suc n) t i =
    let s = (put_plain-Typed space t i).stays in
    Stays-trans s (put_spaces-Stays n (put_plain space t) s.valid)

-- A move of the cursor that stores nothing.
moved :
    (x y : ℕ) (t : Term)
    → IsTerm t
    → x < t.cols
    → y ≤ t.rows
    → Stays t (scroll (record t { cursor_x = x; cursor_y = y }))
moved x y t i lt le =
    let t' : Term = record t { cursor_x = x; cursor_y = y } in
    let s = scroll-Stays t' lt i.cols le (omega (arith, i.some_rows)) i.rows in
    record { valid = s.valid; cols = s.cols; rows = s.rows; outside = s.outside }

backspace-Stays : (t : Term) → IsTerm t → Stays t (backspace t)
backspace-Stays t i = elim (Bool-cases (int_lt 0 t.cursor_x)) [
  | inr e ↦ rw e (Stays-refl t i)
  | inl e ↦
      let less : (t.cursor_x + 2 ^ 32 - 1) % 2 ^ 32 ≡ t.cursor_x - 1 =
        ground (arith, i.some_cols, i.cols) in
      let t' : Term = record t { cursor_x = t.cursor_x - 1 } in
      let i' : IsTerm t' = record {
        some_cols = omega (arith, i.some_cols);
        cols = i.cols;
        some_rows = i.some_rows;
        rows = i.rows;
      } in
      let eq : backspace t ≡ typed space t' = rw (e, less) (put_at_cursor-typed space t' i') in
      subst (Stays t) (sym eq) (record {
        valid = record {
          some_cols = i'.some_cols;
          cols = i.cols;
          some_rows = i.some_rows;
          rows = i.rows;
        };
        cols = refl;
        rows = refl;
        outside = typed-outside space t' i';
      })
]

-- `\n`, `\r`, the backspace and the tab.
abbrev pub is_control : ℕ → Bool
is_control c = (c == 10) || ((c == 13) || ((c == 8) || (c == 9)))

putc-Stays : (c : ℕ) (t : Term) → IsTerm t → Stays t (putc c t)
unfolding putc
putc-Stays c t i = elim (Bool-cases (c == 10)) [
  | inl a ↦
      let down : (t.cursor_y + 1) % 2 ^ 32 ≡ t.cursor_y + 1 = omega (arith, i.some_rows, i.rows) in
      rw a (
        rw down
          (moved 0 (t.cursor_y + 1) t i (omega (arith, i.some_cols)) (omega (arith, i.some_rows))))
  | inr a ↦ elim (Bool-cases (c == 13)) [
    | inl b ↦
        rw (a, b) (moved 0 t.cursor_y t i (omega (arith, i.some_cols)) (omega (arith, i.some_rows)))
    | inr b ↦ elim (Bool-cases (c == 8)) [
      | inl d ↦ rw (a, b) (rw d (backspace-Stays t i))
      | inr d ↦ elim (Bool-cases (c == 9)) [
        | inl e ↦ rw (a, b) (rw (d, e) (put_spaces-Stays (4 - t.cursor_x % 4) t i))
        | inr e ↦ rw (a, b) (rw (d, e) (put_plain-Typed c t i).stays)
      ]
    ]
  ]
]

-- `fb_term_putc` of any other character than the line ends, the backspace and the tab puts it into the cell at
-- the cursor, changes no other cell of the region, and moves to the next cell, at the start of the next row behind
-- the last column; behind the last cell all rows move up by one, the last row is blank, and the cursor is at
-- its start.
pub putc-Typed : (c : ℕ) (t : Term) → IsTerm t → is_control c ≡ false → Typed c t (putc c t)
unfolding putc
putc-Typed c t i plain =
    let a : (c == 10) ≡ false = ground arith in
    let b : (c == 13) ≡ false = ground arith in
    let d : (c == 8) ≡ false = ground arith in
    let e : (c == 9) ≡ false = ground arith in rw (a, b) (rw (d, e) (put_plain-Typed c t i))

-- On a region of at least one cell that fits into the buffer, `fb_term_write` of any text keeps the cursor on a cell
-- of the region and stores nothing outside of the region, so never outside of the buffer.
pub term_write-Stays : (s : List ℕ) (t : Term) → IsTerm t → Stays t (term_write s t)
unfolding term_write
term_write-Stays [] t i = Stays-refl t i
term_write-Stays (c ∷ s) t i =
    let first = putc-Stays c t i in Stays-trans first (term_write-Stays s (putc c t) first.valid)
