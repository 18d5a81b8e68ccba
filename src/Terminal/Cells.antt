-- ===== src/Terminal/Cells.antt =====
-- The loops over the character buffer.
use flyos.Base.{
  ℕ, zero, suc, ◌+◌, ◌≤◌, ◌<◌, ◌≡◌, refl, ◌≢◌, true, false, ◌==◌, arith, ◌∙◌, Bool-cases, inl, inr,
  ◌⊎◌,
}
use flyos.Terminal.Defs.{Cells, put_cell, space, blank_cells, copy_cells, copy_rows}

pub put_cell-other :
    (r c x r' c' : ℕ) (b : Cells) → (r ≢ r') ⊎ (c ≢ c') → put_cell r c x b r' c' ≡ b r' c'
put_cell-other r c x r' c' b (inl ne) = let e : (r == r') ≡ false = ground arith in rw e refl
put_cell-other r c x r' c' b (inr ne) =
    let e : (c == c') ≡ false = ground arith in
    elim (Bool-cases (r == r')) [ inl t ↦ rw (t, e) refl | inr t ↦ rw t refl ]

pub put_cell-here : (r c x : ℕ) (b : Cells) → put_cell r c x b r c ≡ x
put_cell-here r c x b =
    let e : (r == r) ≡ true = ground arith in
    let e' : (c == c) ≡ true = ground arith in rw (e, e') refl

-- The cell at the row `r'` and the column `k` is not one of the `n` from the column `c` on in the row `r`.
abbrev pub Beyond : (n c r r' k : ℕ) → Type 0
Beyond n c r r' k = (r ≢ r') ⊎ (k < c) ⊎ (c + n ≤ k)

Beyond-first : (n c r r' k : ℕ) → Beyond (suc n) c r r' k → (r ≢ r') ⊎ (c ≢ k)
Beyond-first n c r r' k (inl ne) = inl ne
Beyond-first n c r r' k (inr (inl lt)) = inr (λ e. absurd (omega arith))
Beyond-first n c r r' k (inr (inr le)) = inr (λ e. absurd (omega arith))

Beyond-rest : (n c r r' k : ℕ) → Beyond (suc n) c r r' k → Beyond n (c + 1) r r' k
Beyond-rest n c r r' k (inl ne) = inl ne
Beyond-rest n c r r' k (inr (inl lt)) = inr (inl (omega arith))
Beyond-rest n c r r' k (inr (inr le)) = inr (inr (omega arith))

pub blank_cells-Beyond :
    (n c r r' k : ℕ) (b : Cells) → Beyond n c r r' k → blank_cells n c r b r' k ≡ b r' k
unfolding blank_cells
blank_cells-Beyond zero c r r' k b out = refl
blank_cells-Beyond (suc n) c r r' k b out =
    blank_cells-Beyond n (c + 1) r r' k (put_cell r c space b) (Beyond-rest n c r r' k out)
    ∙ put_cell-other r c space r' k b (Beyond-first n c r r' k out)

pub blank_cells-at : (n c r k : ℕ) (b : Cells) → c ≤ k → k < c + n → blank_cells n c r b r k ≡ space
unfolding blank_cells
blank_cells-at zero c r k b lo hi = absurd (omega arith)
blank_cells-at (suc n) c r k b lo hi = elim (Bool-cases (c == k)) [
  | inl t ↦
      let same : c ≡ k = ground arith in
      blank_cells-Beyond n (c + 1) r r k (put_cell r c space b) (inr (inl (omega arith)))
      ∙ rw same (put_cell-here r k space b)
  | inr t ↦ blank_cells-at n (c + 1) r k (put_cell r c space b) (ground arith) (omega arith)
]

copy_cells-Beyond :
    (n c r r' k : ℕ) (b : Cells) → Beyond n c r r' k → copy_cells n c r b r' k ≡ b r' k
unfolding copy_cells
copy_cells-Beyond zero c r r' k b out = refl
copy_cells-Beyond (suc n) c r r' k b out =
    copy_cells-Beyond n (c + 1) r r' k (put_cell r c (b (r + 1) c) b) (Beyond-rest n c r r' k out)
    ∙ put_cell-other r c (b (r + 1) c) r' k b (Beyond-first n c r r' k out)

copy_cells-at : (n c r k : ℕ) (b : Cells) → c ≤ k → k < c + n → copy_cells n c r b r k ≡ b (r + 1) k
unfolding copy_cells
copy_cells-at zero c r k b lo hi = absurd (omega arith)
copy_cells-at (suc n) c r k b lo hi =
    let b' = put_cell r c (b (r + 1) c) b in
    elim (Bool-cases (c == k)) [
      | inl t ↦
          let same : c ≡ k = ground arith in
          copy_cells-Beyond n (c + 1) r r k b' (inr (inl (omega arith)))
          ∙ rw same (put_cell-here r k (b (r + 1) k) b)
      | inr t ↦
          copy_cells-at n (c + 1) r k b' (ground arith) (omega arith)
          ∙ put_cell-other r c (b (r + 1) c) (r + 1) k b (inl (λ e. absurd (omega (arith, e))))
    ]

pub copy_rows-Beyond :
    (n r cols r' k : ℕ) (b : Cells)
    → (r' < r) ⊎ (r + n ≤ r') ⊎ (cols ≤ k)
    → copy_rows n r cols b r' k ≡ b r' k
unfolding copy_rows
copy_rows-Beyond zero r cols r' k b out = refl
copy_rows-Beyond (suc n) r cols r' k b out =
    let rest : (r' < r + 1) ⊎ (r + 1 + n ≤ r') ⊎ (cols ≤ k) = ground (arith, out) in
    let here : Beyond cols 0 r r' k = ground (arith, out) in
    copy_rows-Beyond n (r + 1) cols r' k (copy_cells cols 0 r b) rest
    ∙ copy_cells-Beyond cols 0 r r' k b here

pub copy_rows-at :
    (n r cols r' k : ℕ) (b : Cells)
    → r ≤ r'
    → r' < r + n
    → k < cols
    → copy_rows n r cols b r' k ≡ b (r' + 1) k
unfolding copy_rows
copy_rows-at zero r cols r' k b lo hi in_cols = absurd (omega arith)
copy_rows-at (suc n) r cols r' k b lo hi in_cols =
    let b' = copy_cells cols 0 r b in
    elim (Bool-cases (r == r')) [
      | inl t ↦
          let same : r ≡ r' = ground arith in
          copy_rows-Beyond n (r + 1) cols r' k b' (inl (omega arith))
          ∙ rw same (copy_cells-at cols 0 r' k b (omega arith) (omega arith))
      | inr t ↦
          copy_rows-at n (r + 1) cols r' k b' (ground arith) (omega arith) in_cols
          ∙ copy_cells-Beyond cols 0 r (r' + 1) k b (inl (λ e. absurd (omega (arith, e))))
    ]
