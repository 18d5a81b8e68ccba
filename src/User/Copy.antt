-- ===== src/User/Copy.antt =====
-- Filling, copying and comparing ranges of bytes.
use flyos.Base.{
  ℕ, zero, suc, ◌+◌, ◌-◌, ◌<◌, ◌≤◌, ◌%◌, ◌≡◌, refl, ◌&&◌, ltb, leb, if◌then◌else◌, arith, ◌⊎◌, ◌∙◌,
  sym, ap, ◌↔◌,
}
use flyos.User.Memory.{
  Memory, store, fill, memset, copy_up, copy_down, memcpy, memmove, compare_bytes, memcmp,
}

-- The memory in which the `n` bytes at `d` are those that stood at `s`.
abbrev pub copied : (d s n : ℕ) → Memory → Memory
copied d s n m a = if leb d a && ltb a (d + n) then m (s + (a - d)) else m a

copy_up-copied :
    (n i d s : ℕ) (m : Memory) (a : ℕ)
    → (d ≤ s) ⊎ (s + i + n ≤ d)
    → copy_up n i d s m a ≡ copied (d + i) (s + i) n m a
unfolding copy_up
copy_up-copied zero i d s m a h = ground arith
copy_up-copied (suc n) i d s m a h =
    ground (arith, copy_up-copied n (i + 1) d s (store m (d + i) (m (s + i))) a, h)

copy_down-copied : (n d s : ℕ) (m : Memory) (a : ℕ) → s ≤ d → copy_down n d s m a ≡ copied d s n m a
unfolding copy_down
copy_down-copied zero d s m a h = ground arith
copy_down-copied (suc n) d s m a h =
    ground (arith, copy_down-copied n d s (store m (d + n) (m (s + n))) a, h)

-- `memmove` copies the bytes as they were before, also when the ranges overlap, and changes no other
-- byte.
pub memmove-copied :
    (dst src n : ℕ) (m : Memory) (a : ℕ) → memmove dst src n m a ≡ copied dst src n m a
unfolding memmove
memmove-copied dst src n m a =
    ground (arith, copy_up-copied n 0 dst src m a, copy_down-copied n dst src m a)

-- `memcpy` does what `memmove` does, if the target starts at or before the source, or behind it.
pub memcpy-memmove :
    (dst src n : ℕ) (m : Memory) (a : ℕ)
    → (dst ≤ src) ⊎ (src + n ≤ dst)
    → memcpy dst src n m a ≡ memmove dst src n m a
unfolding memcpy
memcpy-memmove dst src n m a h =
    ground (arith, copy_up-copied n 0 dst src m a, h, memmove-copied dst src n m a)

pub fill-at :
    (n i d c : ℕ) (m : Memory) (a : ℕ)
    → fill n i d c m a ≡ (if leb (d + i) a && ltb a (d + i + n) then c % 256 else m a)
unfolding fill
fill-at zero i d c m a = ground arith
fill-at (suc n) i d c m a = ground (arith, fill-at n (i + 1) d c (store m (d + i) (c % 256)) a)

compare_bytes-zero :
    (n i x y : ℕ) (m : Memory)
    → ((a : ℕ) → m a < 256)
    → compare_bytes n i x y m ≡ 0
    → (j : ℕ) → j < n
    → m (x + i + j) ≡ m (y + i + j)
unfolding compare_bytes
compare_bytes-zero zero i x y m b e j lt = absurd (omega arith)
compare_bytes-zero (suc n) i x y m b e zero lt =
    let first : m (x + i) ≡ m (y + i) = ground (arith, b (x + i), b (y + i), e) in
    let left : x + i + 0 ≡ x + i = omega arith in
    let right : y + i + 0 ≡ y + i = omega arith in ap m left ∙ first ∙ sym (ap m right)
compare_bytes-zero (suc n) i x y m b e (suc j) lt =
    let rest : compare_bytes n (i + 1) x y m ≡ 0 = ground (arith, b (x + i), b (y + i), e) in
    let later = compare_bytes-zero n (i + 1) x y m b rest j (omega arith) in
    let left : x + i + suc j ≡ x + (i + 1) + j = omega arith in
    let right : y + i + suc j ≡ y + (i + 1) + j = omega arith in
    ap m left ∙ later ∙ sym (ap m right)

compare_bytes-same :
    (n i x y : ℕ) (m : Memory)
    → ((j : ℕ) → j < n → m (x + i + j) ≡ m (y + i + j))
    → compare_bytes n i x y m ≡ 0
unfolding compare_bytes
compare_bytes-same zero i x y m h = refl
compare_bytes-same (suc n) i x y m h =
    let at_i = index m x i ∙ h 0 (omega arith) ∙ sym (index m y i) in
    let rest =
      compare_bytes-same n (i + 1) x y m
        (λ j lt. next m x i j ∙ h (suc j) (omega arith) ∙ sym (next m y i j)) in
    ground (arith, at_i, rest)
  where
    index : (m : Memory) (x i : ℕ) → m (x + i) ≡ m (x + i + 0)
    index m x i = let e : x + i ≡ x + i + 0 = omega arith in ap m e

    next : (m : Memory) (x i j : ℕ) → m (x + (i + 1) + j) ≡ m (x + i + suc j)
    next m x i j = let e : x + (i + 1) + j ≡ x + i + suc j = omega arith in ap m e

-- `memcmp` answers 0 exactly when the two ranges hold the same bytes.
pub memcmp-zero :
    (a b n : ℕ) (m : Memory)
    → ((p : ℕ) → m p < 256)
    → (memcmp a b n m ≡ 0) ↔ ((j : ℕ) → j < n → m (a + 0 + j) ≡ m (b + 0 + j))
unfolding memcmp
memcmp-zero a b n m bytes = (compare_bytes-zero n 0 a b m bytes, compare_bytes-same n 0 a b m)

-- `memset` writes the low byte of `c` to the `n` bytes, and changes no other.
pub memset-at :
    (dst c n : ℕ) (m : Memory) (a : ℕ)
    → memset dst c n m a ≡ (if leb dst a && ltb a (dst + n) then c % 256 else m a)
unfolding memset
memset-at dst c n m a = ground (arith, fill-at n 0 dst c m a)
