-- ===== src/Pmm/Valid.antt =====
-- The invariant of the allocator: the counter is the number of bits set, and every operation
-- keeps it.
use flyos.Base.{
  ℕ, zero, suc, ◌+◌, ◌/◌, ◌^◌, ◌≤◌, ◌<◌, ◌≡◌, refl, true, false, arith, if◌then◌else◌, ltb, ◌==◌,
  Bool-cases, inl, inr,
}
use flyos.Pmm.Bitmap.{
  Bitmap, IsBytes, bitmap_set, bitmap_clear, bitmap_test, bitmap_test-set, bitmap_test-clear,
  bitmap_set-IsBytes, bitmap_clear-IsBytes,
}
use flyos.Pmm.Defs.{
  Pmm, page_size, align_up, align_down, mark_page, mark_loop, mark_used, release_page, take_page,
  free_page, free_pages,
}

-- The pages below `n` whose bit is set.
unfoldable pub count_used : Bitmap → ℕ → ℕ
count_used bitmap zero = 0
count_used bitmap (suc n) = count_used bitmap n + (if bitmap_test bitmap n then 1 else 0)

pub count_used-le : (bitmap : Bitmap) (n : ℕ) → count_used bitmap n ≤ n
unfolding count_used
count_used-le bitmap zero = omega arith
count_used-le bitmap (suc n) = ground (arith, count_used-le bitmap n)

count_used-set :
    (bitmap : Bitmap) (p n : ℕ)
    → IsBytes bitmap
    → bitmap_test bitmap p ≡ false
    → count_used (bitmap_set bitmap p) n ≡ count_used bitmap n + (if ltb p n then 1 else 0)
unfolding count_used
count_used-set bitmap p zero b h = ground arith
count_used-set bitmap p (suc n) b h =
    ground (arith, count_used-set bitmap p n b h, bitmap_test-set bitmap p n b)

count_used-clear :
    (bitmap : Bitmap) (p n : ℕ)
    → IsBytes bitmap
    → bitmap_test bitmap p ≡ true
    → count_used (bitmap_clear bitmap p) n + (if ltb p n then 1 else 0) ≡ count_used bitmap n
unfolding count_used
count_used-clear bitmap p zero b h = ground arith
count_used-clear bitmap p (suc n) b h =
    ground (arith, count_used-clear bitmap p n b h, bitmap_test-clear bitmap p n b)

pub count_used-pos :
    (bitmap : Bitmap) (p n : ℕ) → bitmap_test bitmap p ≡ true → p < n → 0 < count_used bitmap n
unfolding count_used
count_used-pos bitmap p zero t h = absurd (omega arith)
count_used-pos bitmap p (suc n) t h = elim (Bool-cases (p == n)) [
  | inl e ↦ ground arith
  | inr e ↦ ground (arith, count_used-pos bitmap p n)
]

pub count_used-all :
    (bitmap : Bitmap) (n : ℕ)
    → ((q : ℕ) → q < n → bitmap_test bitmap q ≡ true)
    → count_used bitmap n ≡ n
unfolding count_used
count_used-all bitmap zero h = refl
count_used-all bitmap (suc n) h =
    ground (arith, h n, count_used-all bitmap n (λ q lt. h q (omega arith)))

-- BITMAP_SIZE bytes hold 2^20 bits, so no access is out of range.
pub record IsValid (s : Pmm) : Type 0 where
  pub bytes : IsBytes s.bitmap
  pub counted : s.used_pages ≡ count_used s.bitmap s.total_pages
  pub hint : s.search_hint ≤ s.total_pages
  pub bounded : s.total_pages ≤ 2 ^ 20

pub mark_page-IsValid : (s : Pmm) (p : ℕ) → IsValid s → IsValid (mark_page s p)
unfolding mark_page
mark_page-IsValid s p v = ground (
  arith,
  bitmap_set-IsBytes s.bitmap p v.bytes,
  count_used-le s.bitmap s.total_pages,
  count_used-set s.bitmap p s.total_pages v.bytes,
)

mark_loop-IsValid : (fuel a e : ℕ) (s : Pmm) → IsValid s → IsValid (mark_loop fuel a e s)
unfolding mark_loop
mark_loop-IsValid zero a e s v = v
mark_loop-IsValid (suc fuel) a e s v = elim (Bool-cases (ltb a e)) [
  | inl t ↦ rw t (mark_loop-IsValid fuel _ e _ (mark_page-IsValid s _ v))
  | inr t ↦ rw t v
]

pub mark_used-IsValid : (start end : ℕ) (s : Pmm) → IsValid s → IsValid (mark_used start end s)
unfolding mark_used
mark_used-IsValid start end s v =
    mark_loop-IsValid (align_down end / page_size + 1) (align_up start) (align_down end) s v

pub release_page-IsValid : (s : Pmm) (p : ℕ) → IsValid s → IsValid (release_page s p)
unfolding release_page
release_page-IsValid s p v = ground (
  arith,
  bitmap_clear-IsBytes s.bitmap p v.bytes,
  count_used-le s.bitmap s.total_pages,
  count_used-clear s.bitmap p s.total_pages v.bytes,
)

pub take_page-IsValid :
    (s : Pmm) (i : ℕ)
    → IsValid s
    → i < s.total_pages
    → bitmap_test s.bitmap i ≡ false
    → IsValid (take_page s i).1
unfolding take_page
take_page-IsValid s i v h t = ground (
  arith,
  bitmap_set-IsBytes s.bitmap i v.bytes,
  count_used-le s.bitmap s.total_pages,
  count_used-set s.bitmap i s.total_pages v.bytes,
)

-- Freeing any address keeps the invariant, also one that is out of range or already free.
pub free_page-IsValid : (s : Pmm) (phys : ℕ) → IsValid s → IsValid (free_page s phys)
unfolding free_page
free_page-IsValid s phys v = ground (
  arith,
  bitmap_clear-IsBytes s.bitmap (phys / 4096) v.bytes,
  count_used-le s.bitmap s.total_pages,
  count_used-clear s.bitmap (phys / 4096) s.total_pages v.bytes,
)

-- The getter of the free pages does not wrap.
pub free_pages-add-used : (s : Pmm) → IsValid s → free_pages s + s.used_pages ≡ s.total_pages
unfolding free_pages
free_pages-add-used s v = omega (arith, count_used-le s.bitmap s.total_pages)

pub used_pages-le : (s : Pmm) → IsValid s → s.used_pages ≤ 2 ^ 20
used_pages-le s v = omega (arith, count_used-le s.bitmap s.total_pages)
