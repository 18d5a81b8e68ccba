-- ===== src/Gui/Redraw.antt =====
-- The flags that `gui_redraw` sets.
use flyos.Base.{
  ℕ, zero, suc, ◌+◌, ◌≤◌, ◌<◌, ◌≡◌, refl, true, false, ◌==◌, arith, ◌∙◌, ap, Bool, Bool-cases, inl,
  inr, ◌⊎◌, if◌then◌else◌,
}
use flyos.Gui.Defs.{Gui, Store, Window, set_focused, mark_focus, gui_redraw}
use flyos.Gui.Order.{order}

-- The window `p` with the flag `f`.
abbrev flagged : Store → ℕ → Bool → Window
flagged store p f = record (store p) { focused = f }

abbrev marked : (v f : Bool) → ℕ → Store → Store
marked v f win store = if v then set_focused f win store else store

marked-flagged :
    (v f : Bool) (win : ℕ) (store : Store) (p : ℕ)
    → (g : Bool) × (marked v f win store p ≡ flagged store p g)
marked-flagged false f win store p = ((store p).focused, refl)
marked-flagged true f win store p = elim (Bool-cases (win == p)) [
  | inl u ↦ let same : win ≡ p = ground arith in (f, rw u (ap (λ q. flagged store q f) same))
  | inr u ↦ ((store p).focused, rw u refl)
]

-- Only the flag changes.
mark_focus-flagged :
    (n i : ℕ) (s : Gui) (store : Store) (p : ℕ)
    → (f : Bool) × (mark_focus n i s store p ≡ flagged store p f)
unfolding mark_focus
mark_focus-flagged zero i s store p = ((store p).focused, refl)
mark_focus-flagged (suc n) i s store p =
    let win = s.windows i in
    let store' = marked (store win).visible (win == s.focus) win store in
    let (f, e) = mark_focus-flagged n (i + 1) s store' p in
    let (g, e') = marked-flagged (store win).visible (win == s.focus) win store p in
    let put_flag : Window → Window = λ w. record w { focused = f } in (f, e ∙ ap put_flag e')

-- The window `p` has the flag that it must have.
abbrev IsRight : Gui → Store → ℕ → Type 0
IsRight s store p = (store p).focused ≡ (p == s.focus)

marked-IsRight :
    (v : Bool) (win : ℕ) (s : Gui) (store : Store) (p : ℕ)
    → (IsRight s store p ⊎ ((v ≡ true) × (win ≡ p)))
    → IsRight s (marked v (win == s.focus) win store) p
marked-IsRight false win s store p (inl r) = r
marked-IsRight false win s store p (inr (a, b)) = absurd (ground arith)
marked-IsRight true win s store p r = elim (Bool-cases (win == p)) [
  | inl u ↦ let same : win ≡ p = ground arith in rw u (ap (λ q. q == s.focus) same)
  | inr u ↦ rw u (elim r [ inl r ↦ r | inr (a, b) ↦ absurd (ground arith) ])
]

mark_focus-IsRight :
    (n i : ℕ) (s : Gui) (store : Store) (p : ℕ)
    → (IsRight s store p
        ⊎ (((store p).visible ≡ true) × ((k : ℕ) × (i ≤ k) × (k < i + n) × (s.windows k ≡ p))))
    → IsRight s (mark_focus n i s store) p
unfolding mark_focus
mark_focus-IsRight zero i s store p (inl r) = r
mark_focus-IsRight zero i s store p (inr (v, (k, lo, hi, e))) = absurd (omega arith)
mark_focus-IsRight (suc n) i s store p r =
    let win = s.windows i in
    let store' = marked (store win).visible (win == s.focus) win store in
    let visible : (store' p).visible ≡ (store p).visible =
      ap (λ w. w.visible) (marked-flagged (store win).visible (win == s.focus) win store p).1 in
    mark_focus-IsRight n (i + 1) s store' p (elim r [
      | inl r ↦ inl (marked-IsRight (store win).visible win s store p (inl r))
      | inr (v, (k, lo, hi, e)) ↦ elim (Bool-cases (i == k)) [
        | inl t ↦
            let here : win ≡ p = ap s.windows (let same : i ≡ k = ground arith in same) ∙ e in
            inl (
              marked-IsRight (store win).visible win s store p
                (inr (ap (λ q. (store q).visible) here ∙ v, here)))
        | inr t ↦ inr (visible ∙ v, (k, ground arith, omega arith, e))
      ]
    ])

-- After `gui_redraw`, of the visible windows exactly the one in `focus` has its flag set, and only the flags
-- have changed.
pub gui_redraw_lem :
    (s : Gui)
    → (order (gui_redraw s) ≡ order s)
      × ((k : ℕ)
          → k < s.window_count
          → (s.store (s.windows k)).visible ≡ true
          → ((gui_redraw s).store (s.windows k)).focused ≡ (s.windows k == s.focus))
      × ((p : ℕ) → (f : Bool) × ((gui_redraw s).store p ≡ record (s.store p) { focused = f }))
unfolding gui_redraw
gui_redraw_lem s = (
  refl,
  λ k lt v.
      mark_focus-IsRight s.window_count 0 s s.store (s.windows k)
        (inr (v, (k, omega arith, omega arith, refl))),
  λ p. mark_focus-flagged s.window_count 0 s s.store p,
)
