-- ===== src/Heap/Api.antt =====
-- `kmalloc` and `kfree` as a caller sees them.
use flyos.Base.{
  ℕ, ◌+◌, ◌^◌, ◌≤◌, ◌<◌, ◌≡◌, refl, true, false, [], ◌∷◌, ◌==◌, arith, sym, ◌∙◌, some, subst,
}
use flyos.Heap.Defs.{Store, Heap, init, need_of, alloc_loop, kmalloc, heap_start, heap_size}
use flyos.Heap.Spec
use flyos.Heap.Spec.{Seg, Segs, seg, total, merge_from, merge, release, block_at}
use flyos.Heap.Chain.{link}
use flyos.Heap.Alloc.{alloc_loop-alloc}
use flyos.Heap.Valid.{
  IsHeap, length-lt-rounds, need_of_bounds, alloc-Sized, alloc-total, alloc-IsMerged,
}

-- `heap_init` leaves a valid heap of one free block.
pub init-IsHeap : (s : Store) → IsHeap (init s) (seg heap_size true ∷ [])
unfolding init total
init-IsHeap s = record {
  head = refl;
  chain = (ground arith, omega arith, tt);
  full = refl;
  sized = (omega arith, omega arith, tt);
  merged = (refl, tt);
}

link-full : (bs : Segs) → total bs ≡ heap_size → link heap_start bs ≡ heap_start
unfolding total
link-full [] e = absurd (omega arith)
link-full (b ∷ bs) e = refl

kmalloc-eq :
    (h : Heap) (size : ℕ) {ptr : ℕ} {t : Store}
    → 0 < size
    → alloc_loop 65537 h.head (need_of size) h.store ≡ some (ptr, t)
    → kmalloc h size ≡ some (ptr, record h { store = t })
unfolding kmalloc
kmalloc-eq h size pos e = let ne : (size == 0) ≡ false = ground arith in rw (ne, e)

-- A request that does not wrap does to the headers what first fit does to the blocks, returns the
-- same pointer, and keeps the heap valid.
pub kmalloc-alloc :
    {h : Heap} {bs : Segs} (size : ℕ)
    → IsHeap h bs
    → 0 < size
    → size + 64 ≤ 2 ^ 64
    → let (ptr, bs') = Spec.alloc (need_of size) heap_start bs in
      (h' : Heap) × (kmalloc h size ≡ some (ptr, h')) × IsHeap h' bs'
kmalloc-alloc {h} {bs} size v pos small =
    let n = need_of_bounds size small in
    let need = need_of size in
    let (t, e, r) =
      alloc_loop-alloc bs 65537 heap_start 0 need h.store (length-lt-rounds v) (omega arith)
        (omega arith) v.chain in
    let from_head : alloc_loop 65537 h.head need h.store
        ≡ some ((Spec.alloc need heap_start bs).0, t) =
      subst (λ a. alloc_loop 65537 a need h.store ≡ some ((Spec.alloc need heap_start bs).0, t))
        (link-full bs v.full ∙ sym v.head) e in
    (
      record h { store = t },
      kmalloc-eq h size pos from_head,
      record {
        head = v.head;
        chain = r.chain;
        full = alloc-total need n.1 n.2 heap_start bs ∙ v.full;
        sized = alloc-Sized need n.1 n.2 heap_start bs v.sized;
        merged = alloc-IsMerged need n.1 n.2 heap_start bs v.merged;
      },
    )
