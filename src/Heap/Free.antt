-- ===== src/Heap/Free.antt =====
-- `kfree`: the block is released and joined with its free neighbours; bad pointers change nothing.
use flyos.Base.{
  ℕ, ◌+◌, ◌-◌, ◌≤◌, ◌<◌, ◌≡◌, refl, true, false, ◌||◌, [], ◌∷◌, leb, ltb, ◌==◌, arith, ◌∙◌, some,
  Bool-cases, inl, inr, length,
}
use flyos.Heap.Defs.{Store, Heap, write, merge_loop, kfree, heap_start, heap_size}
use flyos.Heap.Spec.{Seg, Segs, total, merge, release, block_at}
use flyos.Heap.Chain.{link, Chain, Chain-same}
use flyos.Heap.Valid.{
  Sized, IsHeap, length-lt-rounds, merge_from-total, merge_from-Sized, merge_from-IsMerged,
}
use flyos.Heap.Merge.{merge_loop-merge_from}
use flyos.Heap.Fit.{block_at-range}

abbrev freed_at : Store → ℕ → Store
freed_at s a = write s a (record (s a) { is_free = true })

link-release : (a p q : ℕ) (bs : Segs) → link q (release a p bs) ≡ link q bs
unfolding release
link-release a p q [] = refl
link-release a p q (b ∷ bs) = ground arith

Chain-release :
    (s : Store) (a p q : ℕ) (bs : Segs) → Chain s p q bs → Chain (freed_at s a) p q (release a p bs)
unfolding release
Chain-release s a p q [] c = tt
Chain-release s a p q (b ∷ bs) (h, pos, c) = elim (Bool-cases (p == a)) [
  | inl t ↦
      rw t
        (ground arith, pos, Chain-same s (freed_at s a) (p + b.size) p bs (λ x le. ground arith) c)
  | inr t ↦ rw t (
    ground (arith, link-release a (p + b.size) (p + b.size) bs),
    pos,
    Chain-release s a (p + b.size) p bs c,
  )
]

release-total : (a p : ℕ) (bs : Segs) → total (release a p bs) ≡ total bs
unfolding release total
release-total a p [] = refl
release-total a p (b ∷ bs) = ground (arith, release-total a (p + b.size) bs)

pub release-Sized : (a p : ℕ) (bs : Segs) → Sized bs → Sized (release a p bs)
unfolding release
release-Sized a p [] z = tt
release-Sized a p (b ∷ bs) z = ground (arith, release-Sized a (p + b.size) bs z.2)

length-release : (a p : ℕ) (bs : Segs) → length (release a p bs) ≡ length bs
unfolding release
length-release a p [] = refl
length-release a p (b ∷ bs) = ground (arith, length-release a (p + b.size) bs)

-- The header of a block of the list says whether it is free.
pub block_at-header :
    (s : Store) (a p q : ℕ) (bs : Segs) {b : Seg}
    → Chain s p q bs
    → block_at a p bs ≡ some b
    → (s a).is_free ≡ b.is_free
unfolding block_at
block_at-header s a p q [] c e = absurd (ground arith)
block_at-header s a p q (d ∷ bs) {b} (h, pos, c) e = elim (Bool-cases (p == a)) [
  | inl t ↦ ground arith
  | inr t ↦ ground (arith, block_at-header s a (p + d.size) p bs {b = b} c)
]

pub block_at-large :
    (a p : ℕ) (bs : Segs) {b : Seg} → Sized bs → block_at a p bs ≡ some b → 48 ≤ b.size
unfolding block_at
block_at-large a p [] z e = absurd (ground arith)
block_at-large a p (d ∷ bs) {b} z e = ground (arith, block_at-large a (p + d.size) bs {b = b} z.2)

-- `merge_all` on a valid list of blocks, from the head of the heap.
merge_all_lem :
    (h : Heap) (s : Store) (bs : Segs)
    → h.head ≡ heap_start
    → Chain s heap_start 0 bs
    → total bs ≡ heap_size
    → Sized bs
    → length bs < 65537
    → (t : Store) × (merge_loop 65537 h.head s ≡ some t)
      × IsHeap (record h { store = t }) (merge bs)
unfolding merge total
merge_all_lem h s [] hd c f z l = absurd (omega arith)
merge_all_lem h s (b ∷ bs) hd c f z l =
    let (t, e, r) =
      merge_loop-merge_from bs 65537 heap_start 0 s b (omega arith) (omega arith) (omega arith) c in
    (
      t,
      rw hd e,
      record {
        head = hd;
        chain = r.chain;
        full = merge_from-total b bs ∙ f;
        sized = merge_from-Sized b bs z;
        merged = merge_from-IsMerged b bs;
      },
    )

kfree-eq :
    (h : Heap) (a : ℕ) {t : Store}
    → heap_start ≤ a
    → a + 32 < heap_start + heap_size
    → (h.store a).is_free ≡ false
    → merge_loop 65537 h.head (freed_at h.store a) ≡ some t
    → kfree h (a + 32) ≡ some (record h { store = t })
unfolding kfree
kfree-eq h a lo hi used e =
    let back : a + 32 - 32 ≡ a = omega arith in
    let ok : ((a + 32 == 0)
          || ltb (a + 32) (heap_start + 32)
          || leb (heap_start + heap_size) (a + 32))
        ≡ false =
      ground arith in
    rw (ok, back, used, e)

-- `kfree` of a live block releases that block and joins the free neighbours.
pub kfree-release :
    {h : Heap} {bs : Segs} (a : ℕ) {b : Seg}
    → IsHeap h bs
    → block_at a heap_start bs ≡ some b
    → b.is_free ≡ false
    → (h' : Heap) × (kfree h (a + 32) ≡ some h') × IsHeap h' (merge (release a heap_start bs))
kfree-release {h} {bs} a {b} v e used =
    let bs' = release a heap_start bs in
    let (lo, hi) = block_at-range a heap_start bs e in
    let large = block_at-large a heap_start bs v.sized e in
    let (t, m, w) =
      merge_all_lem h (freed_at h.store a) bs' v.head
        (Chain-release h.store a heap_start 0 bs v.chain) (release-total a heap_start bs ∙ v.full)
        (release-Sized a heap_start bs v.sized)
        (omega (arith, length-release a heap_start bs, length-lt-rounds v)) in
    (
      record h { store = t },
      kfree-eq h a lo (omega (arith, v.full))
          (block_at-header h.store a heap_start 0 bs v.chain e ∙ used) m,
      w,
    )
