-- ===== src/Heap/Fit.antt =====
-- First fit on the list of blocks: what a client gets, and what it leaves alone.
use flyos.Base.{
  ℕ, ◌+◌, ◌-◌, ◌≤◌, ◌<◌, ◌≡◌, refl, true, false, ◌&&◌, [], ◌∷◌, leb, ◌==◌, arith, ◌∙◌, some,
  Bool-cases, inl, inr, ◌⊎◌, ap,
}
use flyos.Heap.Spec
use flyos.Heap.Spec.{Seg, Segs, seg, carve, total, merge_from, merge, release, block_at}
use flyos.Heap.Valid.{
  Sized, IsMerged, starts_free, merge_from-join, merge_from-keep, merge_from-nil,
}

-- A block of the list lies inside the bytes of the list.
pub block_at-range :
    (a p : ℕ) (bs : Segs) {b : Seg}
    → block_at a p bs ≡ some b
    → (p ≤ a) × (a + b.size ≤ p + total bs)
unfolding block_at total
block_at-range a p [] e = absurd (ground arith)
block_at-range a p (c ∷ bs) {b} e = elim (Bool-cases (p == a)) [
  | inl t ↦ ground arith
  | inr t ↦ ground (arith, block_at-range a (p + c.size) bs {b = b})
]

-- No free block has `need` bytes.
abbrev pub NoFit : ℕ → Segs → Type 0
NoFit need [] = Unit
NoFit need (b ∷ bs) = ((b.is_free && leb need b.size) ≡ false) × NoFit need bs

-- What a request for a block of `need` bytes does to the blocks from `p` on.
pub record Fitted (need p ptr : ℕ) (bs bs' : Segs) : Type 0 where
  pub a : ℕ
  pub address : ptr ≡ a + 32
  pub old : Seg
  pub new : Seg
  pub was : block_at a p bs ≡ some old
  pub was_free : old.is_free ≡ true
  pub now : block_at a p bs' ≡ some new
  pub now_used : new.is_free ≡ false
  pub large : need ≤ new.size
  pub inside : new.size ≤ old.size
  pub others :
      (c : ℕ) (b : Seg) → block_at c p bs ≡ some b → b.is_free ≡ false → block_at c p bs' ≡ some b

carve-Fitted :
    (need p : ℕ) (b : Seg) (bs : Segs)
    → Sized (b ∷ bs)
    → 48 ≤ need
    → (b.is_free && leb need b.size) ≡ true
    → Fitted need p (p + 32) (b ∷ bs) (carve need b bs)
unfolding carve block_at
carve-Fitted need p b bs z lo t = elim (Bool-cases (leb (need + 96) b.size)) [
  | inl big ↦ rw big (record {
    a = p;
    address = refl;
    old = b;
    new = seg need false;
    was = ground arith;
    was_free = ground arith;
    now = ground arith;
    now_used = refl;
    large = omega arith;
    inside = ground arith;
    others = λ c d e u. ground (arith, block_at-range c (p + b.size) bs {b = d});
  })
  | inr small ↦ rw small (record {
    a = p;
    address = refl;
    old = b;
    new = seg b.size false;
    was = ground arith;
    was_free = ground arith;
    now = ground arith;
    now_used = refl;
    large = ground arith;
    inside = omega arith;
    others = λ c d e u. ground arith;
  })
]

cons-Fitted :
    (need p ptr : ℕ) (b : Seg) (bs bs' : Segs)
    → 0 < b.size
    → Fitted need (p + b.size) ptr bs bs'
    → Fitted need p ptr (b ∷ bs) (b ∷ bs')
unfolding block_at
cons-Fitted need p ptr b bs bs' pos f =
    let r = block_at-range f.a (p + b.size) bs f.was in
    let ne : (p == f.a) ≡ false = ground arith in
    record {
      a = f.a;
      address = f.address;
      old = f.old;
      new = f.new;
      was = rw ne f.was;
      was_free = f.was_free;
      now = rw ne f.now;
      now_used = f.now_used;
      large = f.large;
      inside = f.inside;
      others = λ c d e u. ground (arith, f.others c d);
    }

-- A request fails exactly where no free block is large enough, and then changes nothing.
pub alloc-Fitted :
    (need p : ℕ) (bs : Segs)
    → Sized bs
    → 48 ≤ need
    → let (ptr, bs') = Spec.alloc need p bs in
      Fitted need p ptr bs bs' ⊎ (NoFit need bs × (ptr ≡ 0) × (bs' ≡ bs))
unfolding Spec.alloc
alloc-Fitted need p [] z lo = inr (tt, refl, refl)
alloc-Fitted need p (b ∷ bs) z lo = elim (Bool-cases (b.is_free && leb need b.size)) [
  | inl t ↦ rw t (inl (carve-Fitted need p b bs z lo t))
  | inr t ↦ elim (alloc-Fitted need (p + b.size) bs z.2 lo) [
    | inl f ↦ rw t (inl (cons-Fitted need p _ b bs _ (omega arith) f))
    | inr (none_fits, e, same) ↦ rw t (inr ((refl, none_fits), e, ap (λ r. b ∷ r) same))
  ]
]

-- Nothing is left to merge in a merged list.
merge_from-merged : (b : Seg) (bs : Segs) → IsMerged (b ∷ bs) → merge_from b bs ≡ b ∷ bs
merge_from-merged b [] m = merge_from-nil b
merge_from-merged b (c ∷ bs) (pair, m) =
    rw (merge_from-keep b c bs pair) (ap (λ r. b ∷ r) (merge_from-merged c bs m))

merge_from-merge :
    (b : Seg) (bs : Segs) → (b.is_free && starts_free bs) ≡ false → merge_from b bs ≡ b ∷ merge bs
unfolding merge
merge_from-merge b [] h = merge_from-nil b
merge_from-merge b (c ∷ bs) h = merge_from-keep b c bs h

carve-undo :
    (need p : ℕ) (b : Seg) (bs : Segs)
    → (b.is_free && leb need b.size) ≡ true
    → IsMerged (b ∷ bs)
    → merge (release p p (carve need b bs)) ≡ b ∷ bs
unfolding carve release merge
carve-undo need p b bs t m = elim (Bool-cases (leb (need + 96) b.size)) [
  | inl big ↦
      let e : seg (need + (b.size - need)) true ≡ b = ground arith in
      let here : (p == p) ≡ true = ground arith in
      rw (big, here)
        (merge_from-join (seg need true) (seg (b.size - need) true) bs refl
          ∙ ap (λ (x : Seg). merge_from x bs) e
          ∙ merge_from-merged b bs m)
  | inr small ↦
      let e : seg b.size true ≡ b = ground arith in
      let here : (p == p) ≡ true = ground arith in
      rw (small, here) (ap (λ (x : Seg). merge_from x bs) e ∙ merge_from-merged b bs m)
]

module _ (need p : ℕ) (b : Seg) (bs : Segs) where
  alloc-here :
      (b.is_free && leb need b.size) ≡ true → Spec.alloc need p (b ∷ bs) ≡ (p + 32, carve need b bs)
  unfolding Spec.alloc
  alloc-here t = rw t

  alloc-past :
      (b.is_free && leb need b.size) ≡ false
      → Spec.alloc need p (b ∷ bs)
        ≡ ((Spec.alloc need (p + b.size) bs).0, b ∷ (Spec.alloc need (p + b.size) bs).1)
  unfolding Spec.alloc
  alloc-past t = rw t

alloc-beyond :
    (need p a : ℕ) (bs : Segs) → Sized bs → 48 ≤ need → (Spec.alloc need p bs).0 ≡ a + 32 → p ≤ a
alloc-beyond need p a bs z lo e = elim (alloc-Fitted need p bs z lo) [
  | inl f ↦ omega (arith, block_at-range f.a p bs f.was, f.address)
  | inr (none_fits, zero_ptr, same) ↦ absurd (omega arith)
]

alloc-nil : (need p : ℕ) → (Spec.alloc need p []).0 ≡ 0
unfolding Spec.alloc
alloc-nil need p = refl

-- Where the pointer comes from: the first block, or one behind it.
alloc-here_at :
    (need p a : ℕ) (b : Seg) (bs : Segs)
    → (b.is_free && leb need b.size) ≡ true
    → (Spec.alloc need p (b ∷ bs)).0 ≡ a + 32
    → a ≡ p
alloc-here_at need p a b bs t e =
    omega (arith, ap (λ (r : ℕ × Segs). r.0) (alloc-here need p b bs t))

alloc-past_at :
    (need p a : ℕ) (b : Seg) (bs : Segs)
    → (b.is_free && leb need b.size) ≡ false
    → (Spec.alloc need p (b ∷ bs)).0 ≡ a + 32
    → (Spec.alloc need (p + b.size) bs).0 ≡ a + 32
alloc-past_at need p a b bs t e =
    omega (arith, ap (λ (r : ℕ × Segs). r.0) (alloc-past need p b bs t))

starts_free-undo :
    (need p a : ℕ) (bs : Segs)
    → Sized bs
    → 48 ≤ need
    → (Spec.alloc need p bs).0 ≡ a + 32
    → starts_free (release a p (Spec.alloc need p bs).1) ≡ starts_free bs
unfolding release carve
starts_free-undo need p a [] z lo e = absurd (omega (arith, alloc-nil need p))
starts_free-undo need p a (b ∷ bs) z lo e = elim (Bool-cases (b.is_free && leb need b.size)) [
  | inl t ↦ rw (alloc-here need p b bs t) (ground (arith, alloc-here_at need p a b bs t e))
  | inr t ↦
      let le = alloc-beyond need (p + b.size) a bs z.2 lo (alloc-past_at need p a b bs t e) in
      rw (alloc-past need p b bs t) (ground arith)
]

release-past :
    (a p : ℕ) (b : Seg) (bs : Segs) → p < a → release a p (b ∷ bs) ≡ b ∷ release a (p + b.size) bs
unfolding release
release-past a p b bs lt = ground arith

merge-cons : (b : Seg) (bs : Segs) → merge (b ∷ bs) ≡ merge_from b bs
unfolding merge
merge-cons b bs = refl

-- Releasing what was just handed out and merging gives back the blocks as they were.
pub alloc-undo :
    (need p a : ℕ) (bs : Segs)
    → Sized bs
    → 48 ≤ need
    → IsMerged bs
    → (Spec.alloc need p bs).0 ≡ a + 32
    → merge (release a p (Spec.alloc need p bs).1) ≡ bs
alloc-undo need p a [] z lo m e = absurd (omega (arith, alloc-nil need p))
alloc-undo need p a (b ∷ bs) z lo m e = elim (Bool-cases (b.is_free && leb need b.size)) [
  | inl t ↦
      rw (alloc-here need p b bs t, alloc-here_at need p a b bs t e) (carve-undo need p b bs t m)
  | inr t ↦
      let e' = alloc-past_at need p a b bs t e in
      let le = alloc-beyond need (p + b.size) a bs z.2 lo e' in
      let freed = release a (p + b.size) (Spec.alloc need (p + b.size) bs).1 in
      let head : starts_free freed ≡ starts_free bs =
        starts_free-undo need (p + b.size) a bs z.2 lo e' in
      rw (alloc-past need p b bs t, release-past a p b _ (omega arith), merge-cons)
        (merge_from-merge b freed (rw head m.0)
          ∙ ap (λ r. b ∷ r) (alloc-undo need (p + b.size) a bs z.2 lo m.1 e'))
]
