-- ===== src/Gui/Top.antt =====
-- `gui_top_window_at` finds the topmost window under a point.
use flyos.Base.{
  ℕ, zero, suc, ◌<◌, ◌≡◌, refl, true, false, ◌&&◌, arith, Bool, Bool-cases, inl, inr, ◌⊎◌,
}
use flyos.Gui.Defs.{Gui, window_hit, top_of, gui_top_window_at}

-- The window at the index `i` shows the point.
abbrev pub shows : (i x y : ℕ) → Gui → Bool
shows i x y s = (s.store (s.windows i)).visible && window_hit (s.store (s.windows i)) x y

top_of_lem :
    (n x y : ℕ) (s : Gui)
    → ((top_of n x y s ≡ 0) × ((i : ℕ) → i < n → shows i x y s ≡ false))
      ⊎ ((k : ℕ) × (k < n)
          × (top_of n x y s ≡ s.windows k)
          × (shows k x y s ≡ true)
          × ((i : ℕ) → k < i → i < n → shows i x y s ≡ false))
unfolding top_of
top_of_lem zero x y s = inl (refl, λ i lt. absurd (omega arith))
top_of_lem (suc n) x y s = elim (Bool-cases (shows n x y s)) [
  | inl t ↦ inr (n, omega arith, rw t refl, t, λ i lo hi. absurd (omega arith))
  | inr t ↦
      let at : (i : ℕ) → i < suc n → (i ≡ n) ⊎ (i < n) = λ i lt. omega arith in
      elim (top_of_lem n x y s) [
        | inl (e, below) ↦
            inl (rw t e, λ i lt. elim (at i lt) [ inl same ↦ rw same t | inr lt' ↦ below i lt' ])
        | inr (k, lt, e, hit, above) ↦ inr (
          k,
          omega arith,
          rw t e,
          hit,
          λ i lo hi. elim (at i hi) [ inl same ↦ rw same t | inr lt' ↦ above i lo lt' ],
        )
      ]
]

-- `gui_top_window_at` returns the window in the array that is visible and contains the point, such that no
-- window above it is and does, or 0 if there is none.
pub gui_top_window_at_lem :
    (x y : ℕ) (s : Gui)
    → ((gui_top_window_at x y s ≡ 0) × ((i : ℕ) → i < s.window_count → shows i x y s ≡ false))
      ⊎ ((k : ℕ) × (k < s.window_count)
          × (gui_top_window_at x y s ≡ s.windows k)
          × (shows k x y s ≡ true)
          × ((i : ℕ) → k < i → i < s.window_count → shows i x y s ≡ false))
unfolding gui_top_window_at
gui_top_window_at_lem x y s = top_of_lem s.window_count x y s
