-- ===== src/Heap/Alloc.antt =====
-- `kmalloc` over the headers does what the list of blocks says.
use flyos.Base.{
  ℕ, zero, suc, ◌+◌, ◌-◌, ◌≤◌, ◌<◌, ◌≡◌, refl, true, false, ◌&&◌, [], ◌∷◌, leb, ◌==◌, arith, ◌∙◌,
  some, length, Bool-cases, inl, inr, ap,
}
use flyos.Heap.Defs.{Store, write, split, take, alloc_loop}
use flyos.Heap.Spec
use flyos.Heap.Spec.{Seg, Segs, seg, carve}
use flyos.Heap.Chain.{link, header, Chain, Chain-same, set_prev, Chain-set_prev, set_prev-outside}

module _ (s : Store) (p q need : ℕ) (b : Seg) (bs : Segs) where
  -- The memory after the writes of `split` to the new header and behind it.
  abbrev rest_at : ℕ
  rest_at = p + need

  abbrev with_rest : Store
  with_rest = write s rest_at (header (b.size - need) true (link (p + b.size) bs) p)

  module _ (h : s p ≡ header b.size b.is_free (link (p + b.size) bs) q) (pos : 0 < need) where
    split-set_prev :
        split s p need
        ≡ write
            (set_prev with_rest (p + b.size) bs rest_at)
            p
            (record (set_prev with_rest (p + b.size) bs rest_at p) { next = rest_at; size = need })
    unfolding split set_prev
    split-set_prev = let e : (p + need == p) ≡ false = ground arith in rw (e, h)

-- The outcome of an operation on the blocks from `p` on: the headers stand for `bs`, and nothing
-- below `p` has changed.
pub record Became (s : Store) (p q : ℕ) (bs : Segs) (t : Store) : Type 0 where
  pub chain : Chain t p q bs
  pub below : (a : ℕ) → a < p → t a ≡ s a

module _ (s : Store) (p q need : ℕ) (b : Seg) (bs : Segs) where
  abbrev linked : Store
  linked = set_prev (with_rest s p q need b bs) (p + b.size) bs (p + need)

  abbrev shortened : Store
  shortened = write linked p (record (linked p) { next = p + need; size = need })

  take-shortened :
      s p ≡ header b.size b.is_free (link (p + b.size) bs) q
      → 0 < need
      → need + 96 ≤ b.size
      → take s p need ≡ write shortened p (record (shortened p) { is_free = false })
  unfolding take
  take-shortened h np fit =
      let big : leb (need + 32 + 64) (s p).size ≡ true = rw h (ground arith) in
      let e = split-set_prev s p q need b bs h np in
      rw big (ap (λ (u : Store). write u p (record (u p) { is_free = false })) e)

  take-split :
      Chain s p q (b ∷ bs)
      → 0 < p
      → 0 < need
      → need + 96 ≤ b.size
      → Became s p q (seg need false ∷ seg (b.size - need) true ∷ bs) (take s p need)
  take-split (h, bpos, c) pp np fit =
      let nb = p + need in
      let w : Store = with_rest s p q need b bs in
      let out = λ (a : ℕ) (lt : a < p + b.size). set_prev-outside w (p + b.size) nb a bs lt in
      let c1 = Chain-same s w (p + b.size) p bs (λ a le. ground arith) c in
      let c2 = Chain-set_prev w (p + b.size) p nb bs (omega arith) c1 in
      let e : nb + (b.size - need) ≡ p + b.size = omega arith in
      rw (take-shortened h np fit) (record {
        chain = (
          ground (arith, out p (omega arith)),
          np,
          (
            rw e (ground (arith, out nb (omega arith))),
            omega arith,
            rw e (Chain-same linked _ (p + b.size) nb bs (λ a le. ground arith) c2),
          ),
        );
        below = λ a lt. ground (arith, out a (omega arith));
      })

  take-whole :
      Chain s p q (b ∷ bs)
      → b.size < need + 96
      → Became s p q (seg b.size false ∷ bs) (take s p need)
  unfolding take
  take-whole (h, bpos, c) small =
      let big : leb (need + 32 + 64) (s p).size ≡ false = rw h (ground arith) in
      rw big (record {
        chain =
            (rw h (ground arith), bpos, Chain-same s _ (p + b.size) p bs (λ a le. ground arith) c);
        below = λ a lt. ground arith;
      })

link-alloc : (need p q : ℕ) (bs : Segs) → link q (Spec.alloc need p bs).1 ≡ link q bs
unfolding Spec.alloc carve
link-alloc need p q [] = refl
link-alloc need p q (b ∷ bs) = ground arith

-- The block `b` at `p`, below `bs`, with other blocks behind it.
pub cons-Became :
    (s t : Store) (p q : ℕ) (b : Seg) (bs bs' : Segs)
    → Chain s p q (b ∷ bs)
    → link (p + b.size) bs' ≡ link (p + b.size) bs
    → Became s (p + b.size) p bs' t
    → Became s p q (b ∷ bs') t
cons-Became s t p q b bs bs' (h, pos, c) e r = record {
  chain = (r.below p (omega arith) ∙ (rw e h), pos, r.chain);
  below = λ a lt. r.below a (omega arith);
}

take-Became :
    (s : Store) (p q need : ℕ) (b : Seg) (bs : Segs)
    → Chain s p q (b ∷ bs)
    → 0 < p
    → 0 < need
    → Became s p q (carve need b bs) (take s p need)
unfolding carve
take-Became s p q need b bs c pp np = elim (Bool-cases (leb (need + 96) b.size)) [
  | inl big ↦ rw big (take-split s p q need b bs c pp np (ground arith))
  | inr small ↦ rw small (take-whole s p q need b bs c (ground arith))
]

module _ (fuel p q need : ℕ) (s : Store) (b : Seg) (bs : Segs) (pp : 0 < p)
    (h : s p ≡ header b.size b.is_free (link (p + b.size) bs) q) where
  alloc_loop-found :
      (b.is_free && leb need b.size) ≡ true
      → alloc_loop (suc fuel) p need s ≡ some (p + 32, take s p need)
  unfolding alloc_loop
  alloc_loop-found t = let e : (p == 0) ≡ false = ground arith in rw (e, h, t)

  alloc_loop-passed :
      (b.is_free && leb need b.size) ≡ false
      → alloc_loop (suc fuel) p need s ≡ alloc_loop fuel (link (p + b.size) bs) need s
  unfolding alloc_loop
  alloc_loop-passed t = let e : (p == 0) ≡ false = ground arith in rw (e, h, t)

alloc_loop-end : (fuel need : ℕ) (s : Store) → alloc_loop (suc fuel) 0 need s ≡ some (0, s)
unfolding alloc_loop
alloc_loop-end fuel need s = refl

-- The loop of `kmalloc` on enough fuel finds the block that the specification finds.
pub alloc_loop-alloc :
    (bs : Segs) (fuel p q need : ℕ) (s : Store)
    → length bs < fuel
    → 0 < p
    → 0 < need
    → Chain s p q bs
    → let (ptr, bs') = Spec.alloc need p bs in
      (t : Store) × (alloc_loop fuel (link p bs) need s ≡ some (ptr, t)) × Became s p q bs' t
unfolding Spec.alloc
alloc_loop-alloc bs zero p q need s f pp np c = absurd (omega arith)
alloc_loop-alloc [] (suc fuel) p q need s f pp np c =
    (s, alloc_loop-end fuel need s, record { chain = tt; below = λ a lt. refl })
alloc_loop-alloc (b ∷ bs) (suc fuel) p q need s f pp np c =
    elim (Bool-cases (b.is_free && leb need b.size)) [
      | inl t ↦ rw t (
        take s p need,
        alloc_loop-found fuel p q need s b bs pp c.0 t,
        take-Became s p q need b bs c pp np,
      )
      | inr t ↦
          let (u, e, r) =
            alloc_loop-alloc bs fuel (p + b.size) p need s (omega arith) (omega arith) np c.2 in
          rw t (
            u,
            alloc_loop-passed fuel p q need s b bs pp c.0 t ∙ e,
            cons-Became s u p q b bs _ c (link-alloc need (p + b.size) (p + b.size) bs) r,
          )
    ]
