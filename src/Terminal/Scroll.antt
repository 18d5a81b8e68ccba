-- ===== src/Terminal/Scroll.antt =====
-- The rows of the terminal move up when the cursor leaves the last one.
use flyos.Base.{
  ℕ, ◌+◌, ◌-◌, ◌^◌, ◌%◌, ◌≤◌, ◌<◌, ◌≡◌, refl, ◌≢◌, true, false, ◌==◌, arith, ◌∙◌, sym, subst,
  Bool-cases, inl, inr, ◌⊎◌,
}
use flyos.Gui.Defs.{int_le}
use flyos.Terminal.Defs.{Term, space, max_cols, max_rows, count, scroll, blank_cells, copy_rows}
use flyos.Terminal.Cells.{blank_cells-Beyond, blank_cells-at, copy_rows-Beyond, copy_rows-at}

-- The region has cells, no more than the buffer, and the cursor is on one of them.
pub record IsTerm (t : Term) : Type 0 where
  pub some_cols : t.cursor_x < t.cols
  pub cols : t.cols ≤ max_cols
  pub some_rows : t.cursor_y < t.rows
  pub rows : t.rows ≤ max_rows

-- Only cells of the region have changed, and the cursor is still in it.
pub record Stays (t t' : Term) : Type 0 where
  pub valid : IsTerm t'
  pub cols : t'.cols ≡ t.cols
  pub rows : t'.rows ≡ t.rows
  pub outside : (r k : ℕ) → (t.rows ≤ r) ⊎ (t.cols ≤ k) → t'.screen_buf r k ≡ t.screen_buf r k

pub Stays-trans : {t t' t'' : Term} → Stays t t' → Stays t' t'' → Stays t t''
Stays-trans a b = record {
  valid = b.valid;
  cols = b.cols ∙ a.cols;
  rows = b.rows ∙ a.rows;
  outside = λ r k out. b.outside r k (rw (a.rows, a.cols) out) ∙ a.outside r k out;
}

-- All rows moved up by one, and a blank row below.
abbrev pub scrolled : Term → Term
scrolled t = record t {
  screen_buf = blank_cells t.cols 0 (t.rows - 1) (copy_rows (t.rows - 1) 0 t.cols t.screen_buf);
  cursor_y = t.rows - 1;
}

pub scrolled-up :
    (t : Term) (r k : ℕ)
    → r + 1 < t.rows
    → k < t.cols
    → (scrolled t).screen_buf r k ≡ t.screen_buf (r + 1) k
scrolled-up t r k lt in_cols =
    blank_cells-Beyond t.cols 0 (t.rows - 1) r k (copy_rows (t.rows - 1) 0 t.cols t.screen_buf)
      (inl (λ e. absurd (omega (arith, e))))
    ∙ copy_rows-at (t.rows - 1) 0 t.cols r k t.screen_buf (omega arith) (omega arith) in_cols

pub scrolled-last : (t : Term) (k : ℕ) → k < t.cols → (scrolled t).screen_buf (t.rows - 1) k ≡ space
scrolled-last t k in_cols =
    blank_cells-at t.cols 0 (t.rows - 1) k (copy_rows (t.rows - 1) 0 t.cols t.screen_buf)
      (omega arith) (omega arith)

scrolled-outside :
    (t : Term) (r k : ℕ)
    → 0 < t.rows
    → (t.rows ≤ r) ⊎ (t.cols ≤ k)
    → (scrolled t).screen_buf r k ≡ t.screen_buf r k
scrolled-outside t r k some out =
    let a : (t.rows - 1 ≢ r) ⊎ (k < 0) ⊎ (0 + t.cols ≤ k) = elim out [
      | inl le ↦ inl (λ e. absurd (omega (arith, e)))
      | inr le ↦ inr (inr (omega arith))
    ] in
    let b : (r < 0) ⊎ (0 + (t.rows - 1) ≤ r) ⊎ (t.cols ≤ k) = elim out [
      | inl le ↦ inr (inl (omega arith))
      | inr le ↦ inr (inr le)
    ] in
    blank_cells-Beyond t.cols 0 (t.rows - 1) r k (copy_rows (t.rows - 1) 0 t.cols t.screen_buf) a
    ∙ copy_rows-Beyond (t.rows - 1) 0 t.cols r k t.screen_buf b

pub scroll-below : (t : Term) → t.cursor_y < t.rows → t.rows ≤ max_rows → scroll t ≡ t
unfolding scroll
scroll-below t lt le = let e : int_le t.rows t.cursor_y ≡ false = ground arith in rw e refl

pub scroll-at :
    (t : Term)
    → t.cursor_y ≡ t.rows
    → 0 < t.rows
    → t.rows ≤ max_rows
    → t.cols ≤ max_cols
    → scroll t ≡ scrolled t
unfolding scroll
scroll-at t at some le le' =
    let e : int_le t.rows t.cursor_y ≡ true = ground arith in
    let last : (t.rows + 2 ^ 32 - 1) % 2 ^ 32 ≡ t.rows - 1 = omega arith in
    let c : count t.cols ≡ t.cols = ground arith in
    let r : count (t.rows - 1) ≡ t.rows - 1 = ground arith in rw e (rw (last, c) (rw r refl))

-- `scroll` after the cursor has gone down by at most one row.
pub scroll-Stays :
    (t : Term)
    → t.cursor_x < t.cols
    → t.cols ≤ max_cols
    → t.cursor_y ≤ t.rows
    → 0 < t.rows
    → t.rows ≤ max_rows
    → Stays t (scroll t)
scroll-Stays t x cs y some rs = elim (Bool-cases (t.cursor_y == t.rows)) [
  | inl e ↦ subst (Stays t) (sym (scroll-at t (ground arith) some rs cs)) (record {
    valid = record { some_cols = x; cols = cs; some_rows = omega arith; rows = rs };
    cols = refl;
    rows = refl;
    outside = λ r k out. scrolled-outside t r k some out;
  })
  | inr e ↦ subst (Stays t) (sym (scroll-below t (ground arith) rs)) (record {
    valid = record { some_cols = x; cols = cs; some_rows = ground arith; rows = rs };
    cols = refl;
    rows = refl;
    outside = λ r k out. refl;
  })
]
