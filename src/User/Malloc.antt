-- ===== src/User/Malloc.antt =====
-- The allocator of user/lib/stdlib.c: a pointer that moves up through a static array. A pointer is an
-- index into the array `heap`; `none` is NULL. `free` does nothing.
use flyos.Base.{
  ℕ, ◌+◌, ◌-◌, ◌*◌, ◌/◌, ◌%◌, ◌^◌, ◌<◌, ◌≤◌, ◌≡◌, List, [], ◌∷◌, Option, some, none, ltb,
  if◌then◌else◌, arith, inl, inr, ◌⊎◌, Bool-cases, sym, subst,
}

abbrev pub heap_size : ℕ
heap_size = 65536

abbrev pub rounded : ℕ → ℕ
rounded n = (n + 15) % 2 ^ 64 / 16 * 16

unfoldable pub malloc : (n heap_top : ℕ) → Option ℕ × ℕ
malloc n heap_top =
    if ltb heap_size ((heap_top + rounded n) % 2 ^ 64)
    then (none, heap_top)
    else (some heap_top, (heap_top + rounded n) % 2 ^ 64)

abbrev granted : Option ℕ → ℕ → List (ℕ × ℕ) → List (ℕ × ℕ)
granted none n rest = rest
granted (some p) n rest = (p, n) ∷ rest

-- The blocks that a sequence of requests gets, each with the size that was asked for.
unfoldable pub blocks : List ℕ → ℕ → List (ℕ × ℕ)
blocks [] heap_top = []
blocks (n ∷ ns) heap_top = let (p, top) = malloc n heap_top in granted p n (blocks ns top)

-- The blocks lie one behind the other, from `low` on, aligned and inside the array.
abbrev pub Apart : ℕ → List (ℕ × ℕ) → Type 0
Apart low [] = Unit
Apart low ((p, n) ∷ rest) = (low ≤ p) × (p % 16 ≡ 0) × (p + n ≤ heap_size) × Apart (p + n) rest

abbrev pub AllBelow : ℕ → List ℕ → Type 0
AllBelow b [] = Unit
AllBelow b (n ∷ ns) = (n < b) × AllBelow b ns

Apart-lower : (low low' : ℕ) (bs : List (ℕ × ℕ)) → low' ≤ low → Apart low bs → Apart low' bs
Apart-lower low low' [] h a = a
Apart-lower low low' ((p, n) ∷ rest) h (a0, a1, a2, a3) = (omega arith, a1, a2, a3)

malloc-cases :
    (n heap_top : ℕ)
    → n < 2 ^ 64 - 131072
    → heap_top ≤ heap_size
    → heap_top % 16 ≡ 0
    → (malloc n heap_top ≡ (none, heap_top))
      ⊎ ((top : ℕ) × (malloc n heap_top ≡ (some heap_top, top))
          × (heap_top + n ≤ top)
          × (top ≤ heap_size)
          × (top % 16 ≡ 0))
unfolding malloc
malloc-cases n heap_top small ht al =
    elim (Bool-cases (ltb heap_size ((heap_top + rounded n) % 2 ^ 64))) [
      | inl y ↦ inl (rw y)
      | inr fits ↦
          let h : (heap_top + rounded n) % 2 ^ 64 ≤ heap_size = ground (arith, fits) in
          inr ((heap_top + rounded n) % 2 ^ 64, rw fits, omega arith, h, omega arith)
    ]

-- The blocks that requests of sizes that do not wrap get are aligned, inside the array, and do not
-- overlap.
pub blocks-Apart :
    (ns : List ℕ) (heap_top : ℕ)
    → AllBelow (2 ^ 64 - 131072) ns
    → heap_top ≤ heap_size
    → heap_top % 16 ≡ 0
    → Apart heap_top (blocks ns heap_top)
unfolding blocks
blocks-Apart [] heap_top small ht al = tt
blocks-Apart (n ∷ ns) heap_top (small, smalls) ht al = elim (malloc-cases n heap_top small ht al) [
  | inl e ↦
      subst (λ r. Apart heap_top (granted r.0 n (blocks ns r.1))) (sym e)
        (blocks-Apart ns heap_top smalls ht al)
  | inr (top, e, room, hi, al') ↦
      subst (λ r. Apart heap_top (granted r.0 n (blocks ns r.1))) (sym e)
        (
          omega arith,
          al,
          omega arith,
          Apart-lower top (heap_top + n) (blocks ns top) room (blocks-Apart ns top smalls hi al'),
        )
]

-- A request of 2^64 - heap_top bytes wraps: it is granted, and the next block starts at index 0 again.
pub malloc-wraps :
    (heap_top : ℕ)
    → 0 < heap_top
    → heap_top ≤ heap_size
    → heap_top % 16 ≡ 0
    → malloc (2 ^ 64 - heap_top) heap_top ≡ (some heap_top, 0)
unfolding malloc
malloc-wraps heap_top pos ht al =
    let e : (heap_top + rounded (2 ^ 64 - heap_top)) % 2 ^ 64 ≡ 0 = omega arith in rw e
