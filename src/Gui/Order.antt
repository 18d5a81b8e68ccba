-- ===== src/Gui/Order.antt =====
-- The order of the windows: the array as a list, the lowest window first.
use flyos.Base.{
  ℕ, zero, suc, ◌+◌, ◌-◌, ◌≤◌, ◌<◌, ◌≡◌, refl, true, false, List, [], ◌∷◌, ◌++◌, none, some, leb,
  ◌==◌, arith, ◌∙◌, sym, ap, Bool-cases, inl, inr, ◌⊎◌, remove,
}
use flyos.Gui.Defs.{
  Gui, put, find_index, shift_down, refocus, gui_add_window, gui_remove_window, bring_to_front,
  max_windows,
}

-- The `n` windows from the index `i` on.
unfoldable pub contents : (n i : ℕ) → (ℕ → ℕ) → List ℕ
contents zero i windows = []
contents (suc n) i windows = windows i ∷ contents n (i + 1) windows

abbrev pub order : Gui → List ℕ
order s = contents s.window_count 0 s.windows

abbrev pub IsAbsent : ℕ → List ℕ → Type 0
IsAbsent win ps = remove win ps ≡ ps

contents-put :
    (n i j win : ℕ) (a : ℕ → ℕ)
    → (j < i) ⊎ (i + n ≤ j)
    → contents n i (put a j win) ≡ contents n i a
unfolding contents
contents-put zero i j win a out = refl
contents-put (suc n) i j win a out =
    let ne : (j == i) ≡ false = ground (arith, out) in
    let later : (j < i + 1) ⊎ (i + 1 + n ≤ j) = ground (arith, out) in
    rw (ne, contents-put n (i + 1) j win a later) refl

pub contents-snoc :
    (n i : ℕ) (a : ℕ → ℕ) → contents (suc n) i a ≡ contents n i a ++ (a (i + n) ∷ [])
unfolding contents
contents-snoc zero i a = let e : i + 0 ≡ i = omega arith in rw e refl
contents-snoc (suc n) i a =
    let e : i + suc n ≡ i + 1 + n = omega arith in
    ap (λ ps. a i ∷ ps) (rw e (contents-snoc n (i + 1) a))

shift_down-below : (n i j : ℕ) (a : ℕ → ℕ) → j < i → shift_down n i a j ≡ a j
unfolding shift_down
shift_down-below zero i j a lt = refl
shift_down-below (suc n) i j a lt =
    let ne : (i == j) ≡ false = ground arith in
    shift_down-below n (i + 1) j (put a i (a (i + 1))) (omega arith) ∙ rw ne refl

contents-shift_down : (n i : ℕ) (a : ℕ → ℕ) → contents n i (shift_down n i a) ≡ contents n (i + 1) a
unfolding contents shift_down
contents-shift_down zero i a = refl
contents-shift_down (suc n) i a =
    let a' = put a i (a (i + 1)) in
    let here : (i == i) ≡ true = ground arith in
    let first : shift_down n (i + 1) a' i ≡ a (i + 1) =
      shift_down-below n (i + 1) i a' (omega arith) ∙ rw here refl in
    let others : contents n (i + 1) (shift_down n (i + 1) a') ≡ contents n (i + 1 + 1) a =
      contents-shift_down n (i + 1) a'
      ∙ contents-put n (i + 1 + 1) i (a (i + 1)) a (inl (omega arith)) in
    rw (first, others) refl

contents-shift_later :
    (n i j : ℕ) (a : ℕ → ℕ) {ps : List ℕ}
    → i + 1 ≤ j
    → j < i + 1 + n
    → contents (n - 1) (i + 1) (shift_down (i + 1 + n - 1 - j) j a) ≡ ps
    → contents (suc n - 1) i (shift_down (i + suc n - 1 - j) j a) ≡ a i ∷ ps
unfolding contents
contents-shift_later zero i j a lo hi e = absurd (omega arith)
contents-shift_later (suc m) i j a {ps} lo hi e =
    let size : suc (suc m) - 1 ≡ suc m = omega arith in
    let less : suc m - 1 ≡ m = omega arith in
    let places : i + suc (suc m) - 1 - j ≡ i + 1 + suc m - 1 - j = omega arith in
    let places' = i + 1 + suc m - 1 - j in
    let e' : contents m (i + 1) (shift_down places' j a) ≡ ps = rw less at e in
    rw (size, places) (rw (shift_down-below places' j i a (omega arith), e') refl)

-- The array without the first `win` of the `n` windows from `i` on.
find_index_lem :
    (n i win : ℕ) (a : ℕ → ℕ)
    → ((find_index n i win a ≡ none) × (remove win (contents n i a) ≡ contents n i a))
      ⊎ ((j : ℕ) × (find_index n i win a ≡ some j)
          × (i ≤ j)
          × (j < i + n)
          × (contents (n - 1) i (shift_down (i + n - 1 - j) j a) ≡ remove win (contents n i a)))
unfolding find_index contents
find_index_lem zero i win a = inl (refl, refl)
find_index_lem (suc n) i win a = elim (Bool-cases (a i == win)) [
  | inl t ↦
      let size : i + suc n - 1 - i ≡ n = omega arith in
      let less : suc n - 1 ≡ n = omega arith in
      inr
        (i, rw t refl, omega arith, omega arith, rw (t, size) (rw less (contents-shift_down n i a)))
  | inr t ↦ elim (find_index_lem n (i + 1) win a) [
    | inl r ↦ inl (rw t r.0, rw t (ap (λ ps. a i ∷ ps) r.1))
    | inr (j, found, lo, hi, e) ↦
        inr (j, rw t found, omega arith, omega arith, rw t (contents-shift_later n i j a lo hi e))
  ]
]

pub gui_add_window-order :
    (win : ℕ) (s : Gui)
    → ((max_windows ≤ s.window_count) × (gui_add_window win s ≡ s))
      ⊎ ((s.window_count < max_windows) × (order (gui_add_window win s) ≡ order s ++ (win ∷ [])))
unfolding gui_add_window
gui_add_window-order win s = elim (Bool-cases (leb max_windows s.window_count)) [
  | inl t ↦ inl (ground arith, rw t refl)
  | inr t ↦
      let n = s.window_count in
      let plus : n + 1 ≡ suc n = omega arith in
      let here : (n == 0 + n) ≡ true = ground arith in
      inr (
        ground arith,
        rw t (
            rw plus (
              contents-snoc n 0 (put s.windows n win)
              ∙ (rw (contents-put n 0 n win s.windows (inr (omega arith))) (rw here refl)))),
      )
]

refocus-same :
    (win : ℕ) (s : Gui)
    → ((refocus win s).windows ≡ s.windows) × ((refocus win s).window_count ≡ s.window_count)
refocus-same win s = elim (Bool-cases (s.focus == win)) [
  | inl t ↦ elim (Bool-cases (s.drag_win == win)) [
    | inl u ↦ (rw t (rw u refl), rw t (rw u refl))
    | inr u ↦ (rw t (rw u refl), rw t (rw u refl))
  ]
  | inr t ↦ elim (Bool-cases (s.drag_win == win)) [
    | inl u ↦ (rw t (rw u refl), rw t (rw u refl))
    | inr u ↦ (rw t (rw u refl), rw t (rw u refl))
  ]
]

refocus-order : (win : ℕ) (s : Gui) → order (refocus win s) ≡ order s
refocus-order win s = let (a, b) = refocus-same win s in rw (a, b) refl

-- What `shift_down` leaves when the window at `j` is taken out.
abbrev without : (j : ℕ) → Gui → Gui
without j s = record s {
  windows = shift_down (s.window_count - 1 - j) j s.windows;
  window_count = s.window_count - 1;
}

remove-none :
    (win : ℕ) (s : Gui)
    → find_index s.window_count 0 win s.windows ≡ none
    → gui_remove_window win s ≡ s
unfolding gui_remove_window
remove-none win s found = rw (found, gui_remove_window) refl

remove-some :
    (win j : ℕ) (s : Gui)
    → find_index s.window_count 0 win s.windows ≡ some j
    → gui_remove_window win s ≡ refocus win (without j s)
unfolding gui_remove_window
remove-some win j s found = rw (found, gui_remove_window) refl

-- `gui_remove_window` takes the first `win` out of the order and leaves the order of the others; if `win` is not
-- there, nothing changes.
pub gui_remove_window-order :
    (win : ℕ) (s : Gui)
    → (order (gui_remove_window win s) ≡ remove win (order s))
      × ((gui_remove_window win s ≡ s)
          ⊎ ((gui_remove_window win s).window_count + 1 ≡ s.window_count))
gui_remove_window-order win s = elim (find_index_lem s.window_count 0 win s.windows) [
  | inl r ↦ (rw (remove-none win s r.0) (sym r.1), inl (remove-none win s r.0))
  | inr (j, found, lo, hi, e) ↦
      let start : 0 + s.window_count ≡ s.window_count = omega arith in
      let e' : order (without j s) ≡ remove win (order s) = rw start at e in
      (
        rw (remove-some win j s found) (refocus-order win (without j s) ∙ e'),
        inr (rw (remove-some win j s found) (omega (arith, (refocus-same win (without j s)).1))),
      )
]

-- The window at the top.
abbrev pub top_window : Gui → ℕ
top_window s = s.windows (s.window_count - 1)

abbrev raised : (j win : ℕ) → Gui → Gui
raised j win s = record s {
  windows = put (shift_down (s.window_count - 1 - j) j s.windows) (s.window_count - 1) win;
}

contents-raised :
    (n j win : ℕ) (a : ℕ → ℕ) {ps : List ℕ}
    → j < n
    → contents (n - 1) 0 (shift_down (n - 1 - j) j a) ≡ ps
    → contents n 0 (put (shift_down (n - 1 - j) j a) (n - 1) win) ≡ ps ++ (win ∷ [])
contents-raised zero j win a lt e = absurd (omega arith)
contents-raised (suc m) j win a {ps} lt e =
    let size : suc m - 1 ≡ m = omega arith in
    let a' = shift_down (m - j) j a in
    let here : (m == 0 + m) ≡ true = ground arith in
    let e' : contents m 0 a' ≡ ps = rw size at e in
    rw size (
      contents-snoc m 0 (put a' m win)
      ∙ (rw (contents-put m 0 m win a' (inr (omega arith))) (rw (here, e') refl)))

bring-none :
    (win : ℕ) (s : Gui)
    → find_index s.window_count 0 win s.windows ≡ none
    → bring_to_front win s ≡ s
unfolding bring_to_front
bring-none win s found = elim (Bool-cases (s.window_count == 0)) [
  | inl t ↦ rw t refl
  | inr t ↦ elim (Bool-cases (win == top_window s)) [
    | inl u ↦ rw (t, u) refl
    | inr u ↦ rw (t, u) (rw (found, bring_to_front) refl)
  ]
]

bring-some :
    (win j : ℕ) (s : Gui)
    → (s.window_count == 0) ≡ false
    → (win == top_window s) ≡ false
    → find_index s.window_count 0 win s.windows ≡ some j
    → bring_to_front win s ≡ raised j win s
unfolding bring_to_front
bring-some win j s some_left t found = rw (some_left, t) (rw (found, bring_to_front) refl)

bring-top : (win : ℕ) (s : Gui) → (win == top_window s) ≡ true → bring_to_front win s ≡ s
unfolding bring_to_front
bring-top win s t = elim (Bool-cases (s.window_count == 0)) [
  | inl u ↦ rw u refl
  | inr u ↦ rw (u, t) refl
]

-- `bring_to_front` keeps the windows, their number and the order of the others: a window that is not there
-- changes nothing, one at the top stays there, and another goes from its place to the top.
pub bring_to_front-order :
    (win : ℕ) (s : Gui)
    → ((bring_to_front win s).window_count ≡ s.window_count)
      × (((bring_to_front win s ≡ s) × (remove win (order s) ≡ order s))
          ⊎ ((bring_to_front win s ≡ s) × (0 < s.window_count) × (top_window s ≡ win))
          ⊎ (order (bring_to_front win s) ≡ remove win (order s) ++ (win ∷ [])))
bring_to_front-order win s = elim (find_index_lem s.window_count 0 win s.windows) [
  | inl r ↦ (rw (bring-none win s r.0) refl, inl (bring-none win s r.0, r.1))
  | inr (j, found, lo, hi, e) ↦ elim (Bool-cases (win == top_window s)) [
    | inl t ↦
        (rw (bring-top win s t) refl, inr (inl (bring-top win s t, omega arith, ground arith)))
    | inr t ↦
        let eq = bring-some win j s (ground arith) t found in
        let start : 0 + s.window_count ≡ s.window_count = omega arith in
        let e' : contents (s.window_count - 1) 0 (shift_down (s.window_count - 1 - j) j s.windows)
            ≡ remove win (order s) =
          rw start at e in
        (
          rw eq refl,
          inr (inr (rw eq (contents-raised s.window_count j win s.windows (omega arith) e'))),
        )
  ]
]
