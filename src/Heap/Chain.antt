-- ===== src/Heap/Chain.antt =====
-- The headers in memory stand for a list of blocks: each block starts where the one before ends,
-- and `next` and `prev` link them in both directions.
use flyos.Base.{ℕ, ◌+◌, ◌≤◌, ◌<◌, ◌≡◌, refl, Bool, false, [], ◌∷◌, ◌==◌, if◌then◌else◌, arith, ◌∙◌}
use flyos.Heap.Defs.{Block, Store, write}
use flyos.Heap.Spec.{Segs}

-- The pointer to the blocks `bs` that start at `p`.
abbrev pub link : ℕ → Segs → ℕ
link p [] = 0
link p (b ∷ bs) = p

abbrev pub header : ℕ → Bool → ℕ → ℕ → Block
header size is_free next prev = record { size = size; is_free = is_free; next = next; prev = prev }

-- The blocks `bs` stand from `p` on, behind the block `q`.
abbrev pub Chain : Store → ℕ → ℕ → Segs → Type 0
Chain s p q [] = Unit
Chain s p q (b ∷ bs) =
    (s p ≡ header b.size b.is_free (link (p + b.size) bs) q)
    × (0 < b.size)
    × Chain s (p + b.size) p bs

-- Two memories with the same headers from `p` on.
abbrev pub SameFrom : ℕ → Store → Store → Type 0
SameFrom p s t = (a : ℕ) → p ≤ a → t a ≡ s a

pub Chain-same :
    (s t : Store) (p q : ℕ) (bs : Segs) → SameFrom p s t → Chain s p q bs → Chain t p q bs
Chain-same s t p q [] same c = tt
Chain-same s t p q (b ∷ bs) same (h, pos, c) = (
  same p (omega arith) ∙ h,
  pos,
  Chain-same s t (p + b.size) p bs (λ a le. same a (omega arith)) c,
)

-- The write of `prev` behind an insertion or a removal.
unfoldable pub set_prev : Store → ℕ → Segs → ℕ → Store
set_prev s p bs q =
    if link p bs == 0 then s else write s (link p bs) (record (s (link p bs)) { prev = q })

pub Chain-set_prev :
    (s : Store) (p q q' : ℕ) (bs : Segs)
    → 0 < p
    → Chain s p q bs
    → Chain (set_prev s p bs q') p q' bs
unfolding set_prev
Chain-set_prev s p q q' [] pos c = tt
Chain-set_prev s p q q' (b ∷ bs) pos (h, bpos, c) =
    let there : (p == 0) ≡ false = ground arith in
    (
      rw there (ground arith),
      bpos,
      Chain-same s (set_prev s p (b ∷ bs) q') (p + b.size) p bs (λ a le. rw there (ground arith)) c,
    )

pub set_prev-outside : (s : Store) (p q' a : ℕ) (bs : Segs) → a < p → set_prev s p bs q' a ≡ s a
unfolding set_prev
set_prev-outside s p q' a [] h = refl
set_prev-outside s p q' a (b ∷ bs) h =
    let there : (p == 0) ≡ false = ground arith in rw there (ground arith)
