-- ===== src/Heap/Spec.antt =====
-- The heap as a list of blocks in address order: what `kmalloc`, `kfree` and `merge_all` promise.
use flyos.Base.{
  ℕ, ◌+◌, ◌-◌, Bool, true, false, ◌&&◌, List, [], ◌∷◌, leb, ◌==◌, if◌then◌else◌, Option, none, some,
}

pub record Seg : Type 0 where
  pub size : ℕ
  pub is_free : Bool

abbrev pub Segs : Type 0
Segs = List Seg

abbrev pub seg : ℕ → Bool → Seg
seg n f = record { size = n; is_free = f }

-- The bytes of the blocks together.
unfoldable pub total : Segs → ℕ
total [] = 0
total (b ∷ bs) = b.size + total bs

-- The blocks that replace the block `b`, when `need` bytes of it are handed out.
unfoldable pub carve : ℕ → Seg → Segs → Segs
carve need b bs =
    if leb (need + 96) b.size
    then seg need false ∷ seg (b.size - need) true ∷ bs
    else seg b.size false ∷ bs

-- First fit from address `p` on: the payload's address, 0 if no block is large enough.
unfoldable pub alloc : ℕ → ℕ → Segs → ℕ × Segs
unfolding carve
alloc need p [] = (0, [])
alloc need p (b ∷ bs) =
    let (ptr, bs') = alloc need (p + b.size) bs in
    if b.is_free && leb need b.size then (p + 32, carve need b bs) else (ptr, b ∷ bs')

-- Neighbouring free blocks become one.
unfoldable pub merge_from : Seg → Segs → Segs
merge_from b [] = b ∷ []
merge_from b (c ∷ bs) = elim (b.is_free && c.is_free) [
  | true ↦ merge_from (seg (b.size + c.size) true) bs
  | false ↦ b ∷ merge_from c bs
]

unfoldable pub merge : Segs → Segs
unfolding merge_from
merge [] = []
merge (b ∷ bs) = merge_from b bs

-- The block that starts at address `a` is marked free.
unfoldable pub release : ℕ → ℕ → Segs → Segs
release a p [] = []
release a p (b ∷ bs) =
    let rest = release a (p + b.size) bs in if p == a then seg b.size true ∷ bs else b ∷ rest

-- The block that starts at address `a`.
unfoldable pub block_at : ℕ → ℕ → Segs → Option Seg
block_at a p [] = none
block_at a p (b ∷ bs) = if p == a then some b else block_at a (p + b.size) bs
