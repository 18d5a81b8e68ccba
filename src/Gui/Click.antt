-- ===== src/Gui/Click.antt =====
-- What a press of the left button and a move with the button held do to the windows.
use flyos.Base.{
  ℕ, subst, ◌%◌, ◌<◌, ◌≡◌, refl, ◌≢◌, true, false, ◌||◌, not, ◌==◌, arith, ◌∙◌, sym, ap, Bool-cases,
  inl, inr, ◌⊎◌,
}
use flyos.Gui.Defs.{
  put_window, Gui, Store, Callbacks, sub, gui_redraw, bring_to_front, give_focus, grab, call_click,
  gui_top_window_at, window_close_hit, in_title_bar, press_window, move_window, drag, gui_on_mouse,
}
use flyos.Gui.Order.{order}
use flyos.Gui.Redraw.{gui_redraw_lem}

-- The windows and their order are those of `t`, and `win` has the focus.
pub record Pressed (win b : ℕ) (t s' : Gui) : Type 0 where
  pub windows : s'.windows ≡ t.windows
  pub count : s'.window_count ≡ t.window_count
  pub focus : s'.focus ≡ win
  pub flags :
      (k : ℕ)
      → k < s'.window_count
      → (s'.store (s'.windows k)).visible ≡ true
      → (s'.store (s'.windows k)).focused ≡ (s'.windows k == win)
  pub buttons : s'.last_buttons ≡ b

redrawn :
    (win b : ℕ) (t s4 : Gui)
    → s4.windows ≡ t.windows
    → s4.window_count ≡ t.window_count
    → s4.focus ≡ win
    → Pressed win b t (record (gui_redraw s4) { last_buttons = b })
unfolding gui_redraw
redrawn win b t s4 e1 e2 e3 =
    let (o, flags, only) = gui_redraw_lem s4 in
    record {
      windows = e1;
      count = e2;
      focus = e3;
      flags = λ k lt v.
          rw (sym e3) (flags k lt (ap (λ w. w.visible) (sym (only (s4.windows k)).1) ∙ v));
      buttons = refl;
    }

-- The windows, their number and the focus are those of `t`.
abbrev Same : Gui → Gui → Type 0
Same t s = (s.windows ≡ t.windows) × (s.window_count ≡ t.window_count) × (s.focus ≡ t.focus)

grab-Same : (mx my win : ℕ) (s : Gui) → Same s (grab mx my win s)
unfolding grab
grab-Same mx my win s = elim (Bool-cases (in_title_bar (s.store win) mx my)) [
  | inl t ↦ (rw t refl, rw t refl, rw t refl)
  | inr t ↦ (rw t refl, rw t refl, rw t refl)
]

call_click-Same :
    (calls : Callbacks) (mx my b win : ℕ) (s : Gui) → Same s (call_click calls mx my b win s)
unfolding call_click
call_click-Same calls mx my b win s = elim (Bool-cases (s.store win).on_click) [
  | inl t ↦ (rw t refl, rw t refl, rw t refl)
  | inr t ↦ (rw t refl, rw t refl, rw t refl)
]

give_focus-fields :
    (win : ℕ) (s : Gui)
    → ((give_focus win s).windows ≡ s.windows)
      × ((give_focus win s).window_count ≡ s.window_count)
      × ((give_focus win s).focus ≡ win)
unfolding give_focus
give_focus-fields win s = (refl, refl, refl)

press_window-Pressed :
    (calls : Callbacks) (mx my b win : ℕ) (s : Gui)
    → Pressed win b (bring_to_front win s) (press_window calls mx my b win s)
unfolding press_window
press_window-Pressed calls mx my b win s =
    let s1 = bring_to_front win s in
    let s2 = give_focus win s1 in
    let (a, c, f) = give_focus-fields win s1 in
    let (a', c', f') = grab-Same mx my win s2 in
    let (a'', c'', f'') = call_click-Same calls mx my b win (grab mx my win s2) in
    redrawn win b s1 (call_click calls mx my b win (grab mx my win s2)) (a'' ∙ a' ∙ a)
      (c'' ∙ c' ∙ c) (f'' ∙ f' ∙ f)

press-eq :
    (calls : Callbacks) (mx my b win : ℕ) (s : Gui)
    → b % 2 ≡ 1
    → s.last_buttons % 2 ≡ 0
    → gui_top_window_at mx my s ≡ win
    → win ≢ 0
    → window_close_hit (s.store win) mx my ≡ false
    → gui_on_mouse calls mx my b s ≡ press_window calls mx my b win s
unfolding gui_on_mouse
press-eq calls mx my b win s now prev top ne not_close =
    let nonzero : (win == 0) ≡ false = ground arith in
    rw (now, prev) (rw top (rw (nonzero, not_close) refl))

-- When the left button goes down on the window `win`, not on its close button, this window comes to the front,
-- gets the focus, and is the only visible one whose flag is set, whatever its callback does to the windows.
pub gui_on_mouse-Pressed :
    (calls : Callbacks) (mx my b win : ℕ) (s : Gui)
    → b % 2 ≡ 1
    → s.last_buttons % 2 ≡ 0
    → gui_top_window_at mx my s ≡ win
    → win ≢ 0
    → window_close_hit (s.store win) mx my ≡ false
    → Pressed win b (bring_to_front win s) (gui_on_mouse calls mx my b s)
gui_on_mouse-Pressed calls mx my b win s now prev top ne not_close =
    subst (Pressed win b (bring_to_front win s))
      (sym (press-eq calls mx my b win s now prev top ne not_close))
      (press_window-Pressed calls mx my b win s)

-- The window `win` is at (nx, ny), and every other one is where it was.
abbrev pub MovedTo : (win nx ny : ℕ) → Store → Store → Type 0
MovedTo win nx ny old new =
    ((new win).x ≡ nx)
    × ((new win).y ≡ ny)
    × ((p : ℕ) → p ≢ win → ((new p).x ≡ (old p).x) × ((new p).y ≡ (old p).y))

-- The callback for moves moves no window.
abbrev pub KeepsPlaces : Callbacks → Type 0
KeepsPlaces calls =
    (p q : ℕ) (store : Store)
    → ((calls.move p store q).x ≡ (store q).x) × ((calls.move p store q).y ≡ (store q).y)

placed-MovedTo :
    (win nx ny : ℕ) (store : Store)
    → MovedTo win nx ny store (put_window store win (record (store win) { x = nx; y = ny }))
placed-MovedTo win nx ny store =
    let here : (win == win) ≡ true = ground arith in
    (
      rw here refl,
      rw here refl,
      λ p ne. let e : (win == p) ≡ false = ground arith in (rw e refl, rw e refl),
    )

move_window-quiet :
    (calls : Callbacks) (mx my b win nx ny : ℕ) (store : Store)
    → (store win).on_move ≡ false
    → move_window calls mx my b win nx ny store
      ≡ put_window store win (record (store win) { x = nx; y = ny })
unfolding move_window
move_window-quiet calls mx my b win nx ny store e = rw e refl

move_window-calls :
    (calls : Callbacks) (mx my b win nx ny : ℕ) (store : Store)
    → (store win).on_move ≡ true
    → move_window calls mx my b win nx ny store
      ≡ calls.move win (put_window store win (record (store win) { x = nx; y = ny }))
unfolding move_window
move_window-calls calls mx my b win nx ny store e = rw e refl

move_window-MovedTo :
    (calls : Callbacks) (mx my b win nx ny : ℕ) (store : Store)
    → ((store win).on_move ≡ false) ⊎ KeepsPlaces calls
    → MovedTo win nx ny store (move_window calls mx my b win nx ny store)
move_window-MovedTo calls mx my b win nx ny store (inl no_call) =
    subst (MovedTo win nx ny store) (sym (move_window-quiet calls mx my b win nx ny store no_call))
      (placed-MovedTo win nx ny store)
move_window-MovedTo calls mx my b win nx ny store (inr keeps) =
    let placed : Store = put_window store win (record (store win) { x = nx; y = ny }) in
    let (ex, ey, others) = placed-MovedTo win nx ny store in
    elim (Bool-cases (store win).on_move) [
      | inr e ↦
          subst (MovedTo win nx ny store) (sym (move_window-quiet calls mx my b win nx ny store e))
            (ex, ey, others)
      | inl e ↦
          subst (MovedTo win nx ny store) (sym (move_window-calls calls mx my b win nx ny store e))
            (
              (keeps win win placed).0 ∙ ex,
              (keeps win win placed).1 ∙ ey,
              λ p ne. (
                (keeps win p placed).0 ∙ (others p ne).0,
                (keeps win p placed).1 ∙ (others p ne).1,
              ),
            )
    ]

MovedTo-gui_redraw :
    (win nx ny b : ℕ) (old : Store) (s : Gui)
    → MovedTo win nx ny old s.store
    → MovedTo win nx ny old (gui_redraw s).store
MovedTo-gui_redraw win nx ny b old s (ex, ey, others) =
    let only = (gui_redraw_lem s).2 in
    (
      ap (λ w. w.x) (only win).1 ∙ ex,
      ap (λ w. w.y) (only win).1 ∙ ey,
      λ p ne.
          (ap (λ w. w.x) (only p).1 ∙ (others p ne).0, ap (λ w. w.y) (only p).1 ∙ (others p ne).1),
    )

drag-moves :
    (calls : Callbacks) (mx my b : ℕ) (s : Gui)
    → (not (sub mx s.drag_off_x == (s.store s.drag_win).x)
        || not (sub my s.drag_off_y == (s.store s.drag_win).y))
      ≡ true
    → drag calls mx my b s
      ≡ record (gui_redraw (record s {
        store =
            move_window calls mx my b s.drag_win
              (sub mx s.drag_off_x)
              (sub my s.drag_off_y)
              s.store;
      })) { last_buttons = b }
unfolding drag
drag-moves calls mx my b s t = rw t refl

drag-stays :
    (calls : Callbacks) (mx my b : ℕ) (s : Gui)
    → (not (sub mx s.drag_off_x == (s.store s.drag_win).x)
        || not (sub my s.drag_off_y == (s.store s.drag_win).y))
      ≡ false
    → drag calls mx my b s ≡ record s { last_buttons = b }
unfolding drag
drag-stays calls mx my b s t = rw t refl

gui_redraw-fields :
    (s : Gui) → (order (gui_redraw s) ≡ order s) × ((gui_redraw s).drag_win ≡ s.drag_win)
unfolding gui_redraw
gui_redraw-fields s = (refl, refl)

drag-MovedTo :
    (calls : Callbacks) (mx my b : ℕ) (s : Gui)
    → ((s.store s.drag_win).on_move ≡ false) ⊎ KeepsPlaces calls
    → MovedTo s.drag_win
        (sub mx s.drag_off_x)
        (sub my s.drag_off_y)
        s.store
        (drag calls mx my b s).store
      × (order (drag calls mx my b s) ≡ order s)
      × ((drag calls mx my b s).drag_win ≡ s.drag_win)
drag-MovedTo calls mx my b s no_call =
    let nx = sub mx s.drag_off_x in
    let ny = sub my s.drag_off_y in
    let win = s.drag_win in
    elim (Bool-cases (not (nx == (s.store win).x) || not (ny == (s.store win).y))) [
      | inl t ↦
          let moved = move_window calls mx my b win nx ny s.store in
          let (o, d) = gui_redraw-fields (record s { store = moved }) in
          rw (drag-moves calls mx my b s t) (
            MovedTo-gui_redraw win nx ny b s.store (record s { store = moved })
                (move_window-MovedTo calls mx my b win nx ny s.store no_call),
            o,
            d,
          )
      | inr t ↦
          let ex : (s.store win).x ≡ nx = ground arith in
          let ey : (s.store win).y ≡ ny = ground arith in
          rw (drag-stays calls mx my b s t) ((ex, ey, λ p ne. (refl, refl)), refl, refl)
    ]

-- While the left button is held and a window is dragged that has no callback for moves, or where this callback moves
-- no window itself, the window goes to where the mouse holds it, every other window stays, and their order is kept.
pub gui_on_mouse-MovedTo :
    (calls : Callbacks) (mx my b : ℕ) (s : Gui)
    → b % 2 ≡ 1
    → s.last_buttons % 2 ≡ 1
    → s.drag_win ≢ 0
    → ((s.store s.drag_win).on_move ≡ false) ⊎ KeepsPlaces calls
    → MovedTo s.drag_win
        (sub mx s.drag_off_x)
        (sub my s.drag_off_y)
        s.store
        (gui_on_mouse calls mx my b s).store
      × (order (gui_on_mouse calls mx my b s) ≡ order s)
      × ((gui_on_mouse calls mx my b s).drag_win ≡ s.drag_win)
unfolding gui_on_mouse
gui_on_mouse-MovedTo calls mx my b s now prev ne no_call =
    let nonzero : (s.drag_win == 0) ≡ false = ground arith in
    rw (now, prev) (rw nonzero (drag-MovedTo calls mx my b s no_call))
