-- ===== src/Heap/Valid.antt =====
-- The invariant of the heap: the headers stand for blocks that fill it, of sizes that are multiples
-- of 16, with no two free neighbours.
use flyos.Base.{
  ℕ, ◌+◌, ◌*◌, ◌%◌, ◌^◌, ◌≤◌, ◌<◌, ◌≡◌, refl, Bool, true, false, ◌&&◌, [], ◌∷◌, arith, length,
  Bool-cases, inl, inr,
}
use flyos.Heap.Defs.{Heap, need_of, heap_start, heap_size}
use flyos.Heap.Spec
use flyos.Heap.Spec.{Seg, Segs, seg, carve, total, merge_from, merge, release}
use flyos.Heap.Chain.{Chain}

-- Every block has room for a header and 16 bytes, and keeps the next one aligned.
abbrev pub Sized : Segs → Type 0
Sized [] = Unit
Sized (b ∷ bs) = (48 ≤ b.size) × (b.size % 16 ≡ 0) × Sized bs

abbrev pub starts_free : Segs → Bool
starts_free [] = false
starts_free (b ∷ bs) = b.is_free

-- No free block stands before a free block.
abbrev pub IsMerged : Segs → Type 0
IsMerged [] = Unit
IsMerged (b ∷ bs) = ((b.is_free && starts_free bs) ≡ false) × IsMerged bs

pub record IsHeap (h : Heap) (bs : Segs) : Type 0 where
  pub head : h.head ≡ heap_start
  pub chain : Chain h.store heap_start 0 bs
  pub full : total bs ≡ heap_size
  pub sized : Sized bs
  pub merged : IsMerged bs

length-le-total : (bs : Segs) → Sized bs → length bs * 48 ≤ total bs
unfolding total
length-le-total [] z = omega arith
length-le-total (b ∷ bs) (lo, al, z) = omega (arith, length-le-total bs z)

-- So the loops of the heap have fuel enough.
pub length-lt-rounds : {h : Heap} {bs : Segs} → IsHeap h bs → length bs < 65537
length-lt-rounds {bs} v = omega (arith, length-le-total bs v.sized, v.full)

-- The size of the block for a request that does not wrap.
pub need_of_bounds :
    (size : ℕ)
    → size + 64 ≤ 2 ^ 64
    → (size + 32 ≤ need_of size)
      × (48 ≤ need_of size)
      × (need_of size % 16 ≡ 0)
      × (need_of size < size + 80)
unfolding need_of
need_of_bounds size h = ground arith

module _ (need : ℕ) (lo : 48 ≤ need) (al : need % 16 ≡ 0) where
  pub alloc-Sized : (p : ℕ) (bs : Segs) → Sized bs → Sized (Spec.alloc need p bs).1
  unfolding Spec.alloc carve
  alloc-Sized p [] z = tt
  alloc-Sized p (b ∷ bs) (l, a, z) = ground (arith, alloc-Sized (p + b.size) bs z)

  pub alloc-total : (p : ℕ) (bs : Segs) → total (Spec.alloc need p bs).1 ≡ total bs
  unfolding Spec.alloc carve total
  alloc-total p [] = refl
  alloc-total p (b ∷ bs) = ground (arith, alloc-total (p + b.size) bs)

  starts_free-alloc :
      (p : ℕ) (bs : Segs) → starts_free (Spec.alloc need p bs).1 ≡ true → starts_free bs ≡ true
  unfolding Spec.alloc carve
  starts_free-alloc p [] h = h
  starts_free-alloc p (b ∷ bs) h = ground arith

  pub alloc-IsMerged : (p : ℕ) (bs : Segs) → IsMerged bs → IsMerged (Spec.alloc need p bs).1
  unfolding Spec.alloc carve
  alloc-IsMerged p [] m = tt
  alloc-IsMerged p (b ∷ bs) (pair, m) =
      ground (arith, alloc-IsMerged (p + b.size) bs m, starts_free-alloc (p + b.size) bs)

module _ (b c : Seg) (bs : Segs) where
  pub merge_from-join :
      (b.is_free && c.is_free) ≡ true
      → merge_from b (c ∷ bs) ≡ merge_from (seg (b.size + c.size) true) bs
  unfolding merge_from
  merge_from-join t = rw (t, merge_from)

  pub merge_from-keep :
      (b.is_free && c.is_free) ≡ false → merge_from b (c ∷ bs) ≡ b ∷ merge_from c bs
  unfolding merge_from
  merge_from-keep t = rw (t, merge_from)

pub merge_from-nil : (b : Seg) → merge_from b [] ≡ b ∷ []
unfolding merge_from
merge_from-nil b = refl

pub merge_from-total : (b : Seg) (bs : Segs) → total (merge_from b bs) ≡ b.size + total bs
unfolding total
merge_from-total b [] = rw (merge_from-nil b)
merge_from-total b (c ∷ bs) = elim (Bool-cases (b.is_free && c.is_free)) [
  | inl t ↦
      rw (merge_from-join b c bs t)
        (omega (arith, merge_from-total (seg (b.size + c.size) true) bs))
  | inr t ↦ rw (merge_from-keep b c bs t) (omega (arith, merge_from-total c bs))
]

pub merge_from-Sized : (b : Seg) (bs : Segs) → Sized (b ∷ bs) → Sized (merge_from b bs)
merge_from-Sized b [] z = rw (merge_from-nil b) z
merge_from-Sized b (c ∷ bs) (l, a, (l', a', z)) = elim (Bool-cases (b.is_free && c.is_free)) [
  | inl t ↦
      rw (merge_from-join b c bs t)
        (merge_from-Sized (seg (b.size + c.size) true) bs (omega arith, omega arith, z))
  | inr t ↦ rw (merge_from-keep b c bs t) (l, a, merge_from-Sized c bs (l', a', z))
]

starts_free-merge_from : (b : Seg) (bs : Segs) → starts_free (merge_from b bs) ≡ b.is_free
starts_free-merge_from b [] = rw (merge_from-nil b)
starts_free-merge_from b (c ∷ bs) = elim (Bool-cases (b.is_free && c.is_free)) [
  | inl t ↦
      rw (merge_from-join b c bs t)
        (ground (arith, starts_free-merge_from (seg (b.size + c.size) true) bs))
  | inr t ↦ rw (merge_from-keep b c bs t)
]

-- Whatever blocks it starts from, merging leaves no two free neighbours.
pub merge_from-IsMerged : (b : Seg) (bs : Segs) → IsMerged (merge_from b bs)
merge_from-IsMerged b [] = rw (merge_from-nil b) (ground arith, tt)
merge_from-IsMerged b (c ∷ bs) = elim (Bool-cases (b.is_free && c.is_free)) [
  | inl t ↦ rw (merge_from-join b c bs t) (merge_from-IsMerged (seg (b.size + c.size) true) bs)
  | inr t ↦
      rw (merge_from-keep b c bs t) (rw (starts_free-merge_from c bs) t, merge_from-IsMerged c bs)
]
