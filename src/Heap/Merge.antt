-- ===== src/Heap/Merge.antt =====
-- `merge_all` over the headers joins the free neighbours of the list of blocks.
use flyos.Base.{
  ℕ, zero, suc, ◌+◌, ◌%◌, ◌^◌, ◌<◌, ◌≡◌, refl, true, false, ◌&&◌, [], ◌∷◌, ◌==◌, arith, ◌∙◌, some,
  length, Bool-cases, inl, inr,
}
use flyos.Heap.Defs.{Store, write, absorb, can_merge, merge_loop}
use flyos.Heap.Spec.{Seg, Segs, seg, total, merge_from}
use flyos.Heap.Chain.{link, header, Chain, Chain-same, set_prev, Chain-set_prev, set_prev-outside}
use flyos.Heap.Alloc.{Became, cons-Became}
use flyos.Heap.Valid.{merge_from-nil, merge_from-join, merge_from-keep}

module _ (s : Store) (p q : ℕ) (b c : Seg) (bs : Segs) where
  abbrev end : ℕ
  end = p + b.size + c.size

  abbrev widened : Store
  widened = write s p (header (b.size + c.size) b.is_free (link end bs) q)

  absorb-set_prev :
      Chain s p q (b ∷ c ∷ bs) → b.size + c.size < 2 ^ 64 → absorb s p ≡ set_prev widened end bs p
  unfolding absorb set_prev
  absorb-set_prev (h, pos, (h', pos', ch)) lt =
      let e : (b.size + c.size) % 2 ^ 64 ≡ b.size + c.size = omega arith in rw (h, h', e)

  absorb-Became :
      Chain s p q (b ∷ c ∷ bs)
      → 0 < p
      → b.size + c.size < 2 ^ 64
      → Became s p q (seg (b.size + c.size) b.is_free ∷ bs) (absorb s p)
  absorb-Became (h, pos, (h', pos', ch)) pp lt =
      let e : p + (b.size + c.size) ≡ end = omega arith in
      let c1 = Chain-same s widened end (p + b.size) bs (λ a le. ground arith) ch in
      rw (absorb-set_prev (h, pos, (h', pos', ch)) lt) (record {
        chain = (
          rw e (ground (arith, set_prev-outside widened end p p bs (omega arith))),
          omega arith,
          rw e (Chain-set_prev widened end (p + b.size) p bs (omega arith) c1),
        );
        below = λ a lt. ground (arith, set_prev-outside widened end p a bs (omega arith));
      })

merge_loop-last :
    (fuel p q : ℕ) (s : Store) (b : Seg)
    → s p ≡ header b.size b.is_free 0 q
    → merge_loop (suc fuel) p s ≡ some s
unfolding merge_loop
merge_loop-last fuel p q s b h = rw h (ground arith)

module _ (fuel p q : ℕ) (s : Store) (b c : Seg) (bs : Segs) (pp : 0 < p)
    (ch : Chain s p q (b ∷ c ∷ bs)) (low : p + b.size < 2 ^ 64) where
  can_merge-eq : can_merge s p ≡ (b.is_free && c.is_free)
  unfolding can_merge
  can_merge-eq =
      let e : ((p + b.size) % 2 ^ 64 == p + b.size) ≡ true = ground arith in
      rw (ch.0, ch.2.0, e) (ground arith)

  merge_loop-join :
      (b.is_free && c.is_free) ≡ true → merge_loop (suc fuel) p s ≡ merge_loop fuel p (absorb s p)
  unfolding merge_loop
  merge_loop-join t =
      let e : (p == 0) ≡ false = ground arith in
      let e' : (p + b.size == 0) ≡ false = ground arith in rw (can_merge-eq, t, e, ch.0, e')

  merge_loop-keep :
      (b.is_free && c.is_free) ≡ false → merge_loop (suc fuel) p s ≡ merge_loop fuel (p + b.size) s
  unfolding merge_loop
  merge_loop-keep t =
      let e : (p == 0) ≡ false = ground arith in
      let e' : (p + b.size == 0) ≡ false = ground arith in rw (can_merge-eq, t, e, ch.0, e')

link-merge_from : (p : ℕ) (b : Seg) (bs : Segs) → link p (merge_from b bs) ≡ p
unfolding merge_from
link-merge_from p b [] = refl
link-merge_from p b (c ∷ bs) = ground (arith, link-merge_from p (seg (b.size + c.size) true) bs)

Became-trans :
    {s t u : Store} {p q : ℕ} {bs bs' : Segs}
    → Became s p q bs t
    → Became t p q bs' u
    → Became s p q bs' u
Became-trans r r' = record { chain = r'.chain; below = λ a lt. r'.below a lt ∙ r.below a lt }

-- The loop of `merge_all` on enough fuel joins all free neighbours from `p` on.
pub merge_loop-merge_from :
    (bs : Segs) (fuel p q : ℕ) (s : Store) (b : Seg)
    → length bs < fuel
    → 0 < p
    → p + b.size + total bs < 2 ^ 64
    → Chain s p q (b ∷ bs)
    → (t : Store) × (merge_loop fuel p s ≡ some t) × Became s p q (merge_from b bs) t
unfolding total
merge_loop-merge_from bs zero p q s b f pp low ch = absurd (omega arith)
merge_loop-merge_from [] (suc fuel) p q s b f pp low ch =
    rw (merge_from-nil b)
      (s, merge_loop-last fuel p q s b ch.0, record { chain = ch; below = λ a lt. refl })
merge_loop-merge_from (c ∷ bs) (suc fuel) p q s b f pp low ch =
    elim (Bool-cases (b.is_free && c.is_free)) [
      | inl t ↦
          let r = absorb-Became s p q b c bs ch pp (omega arith) in
          let free : b.is_free ≡ true = ground arith in
          let joined = seg (b.size + c.size) true in
          let (u, e, r') =
            merge_loop-merge_from bs fuel p q (absorb s p) joined (omega arith) pp (omega arith)
              (rw free at r.chain) in
          rw (merge_from-join b c bs t)
            (u, merge_loop-join fuel p q s b c bs pp ch (omega arith) t ∙ e, Became-trans r r')
      | inr t ↦
          let (u, e, r) =
            merge_loop-merge_from bs fuel (p + b.size) p s c (omega arith) (omega arith)
              (omega arith) ch.2 in
          rw (merge_from-keep b c bs t) (
            u,
            merge_loop-keep fuel p q s b c bs pp ch (omega arith) t ∙ e,
            cons-Became s u p q b (c ∷ bs) (merge_from c bs) ch (link-merge_from (p + b.size) c bs)
                r,
          )
    ]
