-- ===== src/Terminal/Text.antt =====
-- One character on the screen.
use flyos.Base.{
  ℕ, ◌+◌, ◌-◌, ◌^◌, ◌%◌, ◌≤◌, ◌<◌, ◌≡◌, refl, true, false, ◌==◌, arith, ◌∙◌, sym, ap, subst,
  Bool-cases, inl, inr, ◌⊎◌,
}
use flyos.Gui.Defs.{add, int_lt, int_le}
use flyos.Terminal.Defs.{
  Term, put_cell, space, max_cols, max_rows, put_at_cursor, advance, scroll, put_plain,
}
use flyos.Terminal.Cells.{put_cell-other}
use flyos.Terminal.Scroll.{
  IsTerm, Stays, scrolled-up, scrolled-last, scroll-below, scroll-at, scroll-Stays,
}

-- The character at the cursor.
abbrev pub typed : ℕ → Term → Term
typed c t = record t { screen_buf = put_cell t.cursor_y t.cursor_x c t.screen_buf }

pub put_at_cursor-typed : (c : ℕ) (t : Term) → IsTerm t → put_at_cursor c t ≡ typed c t
put_at_cursor-typed c t i =
    let a : int_lt t.cursor_y t.rows ≡ true = ground (arith, i.some_rows, i.rows) in
    let b : int_lt t.cursor_x t.cols ≡ true = ground (arith, i.some_cols, i.cols) in rw (a, b) refl

advance-right :
    (t : Term)
    → t.cursor_x + 1 < t.cols
    → t.cols ≤ max_cols
    → advance t ≡ record t { cursor_x = t.cursor_x + 1 }
advance-right t lt le =
    let a : int_le t.cols (add t.cursor_x 1) ≡ false = ground arith in
    let b : (t.cursor_x + 1) % 2 ^ 32 ≡ t.cursor_x + 1 = omega arith in rw a (rw b refl)

advance-down :
    (t : Term)
    → t.cursor_x + 1 ≡ t.cols
    → t.cols ≤ max_cols
    → t.cursor_y < max_rows
    → advance t ≡ record t { cursor_x = 0; cursor_y = t.cursor_y + 1 }
advance-down t at le y =
    let a : int_le t.cols (add t.cursor_x 1) ≡ true = ground arith in
    let b : (t.cursor_y + 1) % 2 ^ 32 ≡ t.cursor_y + 1 = omega arith in rw a (rw b refl)

-- The cursor after a character in the cell before.
abbrev NextCell : Term → Term → Type 0
NextCell t t' =
    ((t.cursor_x + 1 < t.cols) × (t'.cursor_x ≡ t.cursor_x + 1) × (t'.cursor_y ≡ t.cursor_y))
    ⊎ ((t.cursor_x + 1 ≡ t.cols) × (t'.cursor_x ≡ 0) × (t'.cursor_y ≡ t.cursor_y + 1))

-- The character `c` is at the cursor; behind the last cell of the region all rows have moved up by one, and the
-- last row is blank.
pub record Typed (c : ℕ) (t t' : Term) : Type 0 where
  pub stays : Stays t t'
  pub cells :
      (NextCell t t' × (t'.screen_buf ≡ put_cell t.cursor_y t.cursor_x c t.screen_buf))
      ⊎ ((t.cursor_x + 1 ≡ t.cols)
          × (t.cursor_y + 1 ≡ t.rows)
          × (t'.cursor_x ≡ 0)
          × (t'.cursor_y ≡ t.cursor_y)
          × ((r k : ℕ)
              → r + 1 < t.rows
              → k < t.cols
              → t'.screen_buf r k ≡ put_cell t.cursor_y t.cursor_x c t.screen_buf (r + 1) k)
          × ((k : ℕ) → k < t.cols → t'.screen_buf (t.rows - 1) k ≡ space))

pub typed-outside :
    (c : ℕ) (t : Term)
    → IsTerm t
    → (r k : ℕ) → (t.rows ≤ r) ⊎ (t.cols ≤ k)
    → (typed c t).screen_buf r k ≡ t.screen_buf r k
typed-outside c t i r k (inl le) =
    put_cell-other t.cursor_y t.cursor_x c r k t.screen_buf
      (inl (λ e. absurd (omega (arith, e, i.some_rows))))
typed-outside c t i r k (inr le) =
    put_cell-other t.cursor_y t.cursor_x c r k t.screen_buf
      (inr (λ e. absurd (omega (arith, e, i.some_cols))))

put_plain-eq : (c : ℕ) (t t' : Term) → put_at_cursor c t ≡ t' → put_plain c t ≡ scroll (advance t')
unfolding put_plain
put_plain-eq c t t' e = ap (λ u. scroll (advance u)) e

module _ (c : ℕ) (t : Term) (i : IsTerm t) where
  plain_right : t.cursor_x + 1 < t.cols → Typed c t (put_plain c t)
  plain_right lt =
      let after : Term = record t {
        screen_buf = put_cell t.cursor_y t.cursor_x c t.screen_buf;
        cursor_x = t.cursor_x + 1;
      } in
      let eq : put_plain c t ≡ after =
        put_plain-eq c t (typed c t) (put_at_cursor-typed c t i)
        ∙ ap scroll (advance-right (typed c t) lt i.cols)
        ∙ scroll-below after i.some_rows i.rows in
      subst (Typed c t) (sym eq) (record {
        stays = record {
          valid = record { some_cols = lt; cols = i.cols; some_rows = i.some_rows; rows = i.rows };
          cols = refl;
          rows = refl;
          outside = typed-outside c t i;
        };
        cells = inl (inl (lt, refl, refl), refl);
      })

  module _ (at : t.cursor_x + 1 ≡ t.cols) where
    abbrev down : Term
    down = record t {
      screen_buf = put_cell t.cursor_y t.cursor_x c t.screen_buf;
      cursor_x = 0;
      cursor_y = t.cursor_y + 1;
    }

    plain_eq : put_plain c t ≡ scroll down
    plain_eq =
        put_plain-eq c t (typed c t) (put_at_cursor-typed c t i)
        ∙ ap scroll (advance-down (typed c t) at i.cols (omega (arith, i.some_rows, i.rows)))

    plain_Stays : Stays t (put_plain c t)
    plain_Stays =
        let s =
          scroll-Stays down (omega (arith, at)) i.cols (omega (arith, i.some_rows))
            (omega (arith, i.some_rows)) i.rows in
        subst (Stays t) (sym plain_eq) (record {
          valid = s.valid;
          cols = s.cols;
          rows = s.rows;
          outside = λ r k out. s.outside r k out ∙ typed-outside c t i r k out;
        })

    plain_down : t.cursor_y + 1 < t.rows → Typed c t (put_plain c t)
    plain_down lt =
        let eq = plain_eq ∙ scroll-below down lt i.rows in
        record { stays = plain_Stays; cells = rw eq (inl (inr (at, refl, refl), refl)) }

    plain_scroll : t.cursor_y + 1 ≡ t.rows → Typed c t (put_plain c t)
    plain_scroll last =
        let eq = plain_eq ∙ scroll-at down last (omega (arith, i.some_rows)) i.rows i.cols in
        record {
          stays = plain_Stays;
          cells = rw eq (
              inr (
                at,
                last,
                refl,
                omega (arith, last),
                λ r k lt in_cols. scrolled-up down r k lt in_cols,
                λ k in_cols. scrolled-last down k in_cols,
              ));
        }

  pub put_plain-Typed : Typed c t (put_plain c t)
  put_plain-Typed = elim (Bool-cases (t.cursor_x + 1 == t.cols)) [
    | inr e ↦ plain_right (ground (arith, i.some_cols))
    | inl e ↦ elim (Bool-cases (t.cursor_y + 1 == t.rows)) [
      | inl u ↦ plain_scroll (ground arith) (ground arith)
      | inr u ↦ plain_down (ground arith) (ground (arith, i.some_rows))
    ]
  ]
