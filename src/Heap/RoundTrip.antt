-- ===== src/Heap/RoundTrip.antt =====
-- What the two calls guarantee together, and where a request wraps.
use flyos.Base.{
  ℕ, ◌+◌, ◌-◌, ◌^◌, ◌≤◌, ◌<◌, ◌≡◌, ◌≢◌, true, false, ◌==◌, arith, ◌∙◌, some, ◌⊎◌, inl, inr, subst,
}
use native.Mathlib.Decide.{ℕ_discrete}
use flyos.Heap.Defs.{Heap, need_of, kmalloc, kfree, heap_start, heap_size}
use flyos.Heap.Spec
use flyos.Heap.Spec.{Seg, Segs, seg, total, merge, release, block_at}
use flyos.Heap.Valid.{IsHeap, need_of_bounds}
use flyos.Heap.Fit.{Fitted, NoFit, alloc-Fitted, alloc-undo}
use flyos.Heap.Api.{kmalloc-alloc}
use flyos.Heap.Free.{kfree-release, block_at-header}

-- `kmalloc` returns a live block of at least `size` bytes behind its header, cut from a free block,
-- and leaves every live block where it was; it returns NULL only where no free block is large
-- enough, and then changes nothing.
pub kmalloc-Fitted :
    {h : Heap} {bs : Segs} (size : ℕ)
    → IsHeap h bs
    → 0 < size
    → size + 64 ≤ 2 ^ 64
    → (ptr : ℕ) × (h' : Heap) × (bs' : Segs) × (kmalloc h size ≡ some (ptr, h'))
      × IsHeap h' bs'
      × (size + 32 ≤ need_of size)
      × (Fitted (need_of size) heap_start ptr bs bs'
          ⊎ (NoFit (need_of size) bs × (ptr ≡ 0) × (bs' ≡ bs)))
kmalloc-Fitted {h} {bs} size v pos small =
    let (h', e, w) = kmalloc-alloc size v pos small in
    let n = need_of_bounds size small in
    (
      (Spec.alloc (need_of size) heap_start bs).0,
      h',
      (Spec.alloc (need_of size) heap_start bs).1,
      e,
      w,
      n.0,
      alloc-Fitted (need_of size) heap_start bs v.sized n.1,
    )

kfree-alloc :
    {h k : Heap} {bs : Segs} (need : ℕ)
    → IsHeap h bs
    → IsHeap k (Spec.alloc need heap_start bs).1
    → 48 ≤ need
    → (Spec.alloc need heap_start bs).0 ≢ 0
    → (h'' : Heap) × (kfree k (Spec.alloc need heap_start bs).0 ≡ some h'') × IsHeap h'' bs
kfree-alloc {bs} need v w lo ne = elim (alloc-Fitted need heap_start bs v.sized lo) [
  | inr (none_fits, z, same) ↦ absurd (ne z)
  | inl f ↦
      let (h'', e, u) = kfree-release f.a w f.now f.now_used in
      (
        h'',
        rw f.address e,
        subst (IsHeap h'') (alloc-undo need heap_start f.a bs v.sized lo v.merged f.address) u,
      )
]

-- `kmalloc` gives up or returns a pointer, and freeing that pointer gives back the blocks as they
-- were.
pub kfree-kmalloc :
    {h : Heap} {bs : Segs} (size : ℕ)
    → IsHeap h bs
    → 0 < size
    → size + 64 ≤ 2 ^ 64
    → (ptr : ℕ) × (h' : Heap) × (kmalloc h size ≡ some (ptr, h'))
      × ((ptr ≡ 0) ⊎ ((h'' : Heap) × (kfree h' ptr ≡ some h'') × IsHeap h'' bs))
kfree-kmalloc {h} {bs} size v pos small =
    let (h', e, w) = kmalloc-alloc size v pos small in
    let lo = (need_of_bounds size small).1 in
    let ptr = (Spec.alloc (need_of size) heap_start bs).0 in
    (
      ptr,
      h',
      e,
      elim (ℕ_discrete ptr 0) [
        | yes z ↦ inl z
        | no ne ↦ inr (kfree-alloc (need_of size) v w lo ne)
      ],
    )

-- Pointers outside the heap, NULL and blocks that are already free are ignored.
pub kfree-ignored :
    {h : Heap} {bs : Segs} (addr : ℕ)
    → IsHeap h bs
    → (addr < heap_start + 32)
      ⊎ (heap_start + heap_size ≤ addr)
      ⊎ ((a : ℕ) × (b : Seg) × (addr ≡ a + 32)
          × (block_at a heap_start bs ≡ some b)
          × (b.is_free ≡ true))
    → kfree h addr ≡ some h
unfolding kfree
kfree-ignored addr v (inl low) = ground arith
kfree-ignored addr v (inr (inl high)) = ground arith
kfree-ignored {h} {bs} addr v (inr (inr (a, b, e, at, free))) =
    let marked : (h.store a).is_free ≡ true =
      block_at-header h.store a heap_start 0 bs v.chain at ∙ free in
    let back : addr - 32 ≡ a = omega arith in rw (back, marked) (ground arith)

need_of-wraps : (size : ℕ) → 2 ^ 64 ≤ size + 47 → size < 2 ^ 64 → need_of size ≡ need_of 1
unfolding need_of
need_of-wraps size lo hi = ground arith

-- A request within 47 bytes of 2^64 wraps in the computation of the block's size, and gets
-- the block that a request of one byte gets.
pub kmalloc-wraps :
    (h : Heap) (size : ℕ) → 2 ^ 64 ≤ size + 47 → size < 2 ^ 64 → kmalloc h size ≡ kmalloc h 1
unfolding kmalloc
kmalloc-wraps h size lo hi =
    let e : need_of size ≡ need_of 1 = need_of-wraps size lo hi in
    let ne : (size == 0) ≡ false = ground arith in rw (e, ne)
