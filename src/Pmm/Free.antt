-- ===== src/Pmm/Free.antt =====
-- `pmm_free_page`, and what several calls guarantee together.
use flyos.Base.{
  ℕ, ◌+◌, ◌/◌, ◌<◌, ◌≡◌, ◌≢◌, true, false, ◌&&◌, arith, if◌then◌else◌, ltb, ◌==◌, Bool-cases, inl,
  inr, sym, ◌∙◌,
}
use flyos.Pmm.Bitmap.{bitmap_test, bitmap_test-clear}
use flyos.Pmm.Defs.{Pmm, alloc_page, free_page}
use flyos.Pmm.Valid.{IsValid, count_used-le, count_used-pos, free_page-IsValid}
use flyos.Pmm.Alloc.{Took, alloc_page-Allocated}

-- After `pmm_free_page(phys)` the page of `phys` is free, if it is below `total_pages`, and every
-- other page is as it was.
pub bitmap_test-free_page :
    (s : Pmm) (phys q : ℕ)
    → IsValid s
    → bitmap_test (free_page s phys).bitmap q
      ≡ (if ltb q s.total_pages && (phys / 4096 == q) then false else bitmap_test s.bitmap q)
unfolding free_page
bitmap_test-free_page s phys q v =
    ground (arith, bitmap_test-clear s.bitmap (phys / 4096) q v.bytes)

used_pages-free_page :
    (s : Pmm) (i phys : ℕ)
    → IsValid s
    → i < s.total_pages
    → phys / 4096 ≡ i
    → bitmap_test s.bitmap i ≡ true
    → (free_page s phys).used_pages + 1 ≡ s.used_pages
unfolding free_page
used_pages-free_page s i phys v h e t =
    ground (arith, count_used-pos s.bitmap i s.total_pages, count_used-le s.bitmap s.total_pages)

free_page-Took :
    (s : Pmm) (i : ℕ) {phys : ℕ} {s' : Pmm}
    → IsValid s
    → Took s i phys s'
    → ((q : ℕ) → bitmap_test (free_page s' phys).bitmap q ≡ bitmap_test s.bitmap q)
      × ((free_page s' phys).used_pages ≡ s.used_pages)
free_page-Took s i {phys} {s'} v t = (same, counter)
  where
    page : phys / 4096 ≡ i
    page = omega (arith, t.address)

    same : (q : ℕ) → bitmap_test (free_page s' phys).bitmap q ≡ bitmap_test s.bitmap q
    same q = elim (Bool-cases (i == q)) [
      | inl e ↦
          ground
            (arith, bitmap_test-free_page s' phys q t.valid, t.was_free, t.total, t.in_range, page)
      | inr ne ↦ ground (arith, bitmap_test-free_page s' phys q t.valid, t.others q, page)
    ]

    counter : (free_page s' phys).used_pages ≡ s.used_pages
    counter = ground (
      arith,
      used_pages-free_page s' i phys t.valid,
      t.counter,
      page,
      t.now_used,
      t.total,
      t.in_range,
    )

-- Freeing the page that was just handed out restores every bit and the counter of used pages.
pub free_page-alloc_page :
    (s : Pmm)
    → IsValid s
    → (alloc_page s).0 ≢ 0
    → let (phys, s') = alloc_page s in
      ((q : ℕ) → bitmap_test (free_page s' phys).bitmap q ≡ bitmap_test s.bitmap q)
      × ((free_page s' phys).used_pages ≡ s.used_pages)
free_page-alloc_page s v ne = elim (alloc_page-Allocated s v) [
  | inl (i, took) ↦ free_page-Took s i v took
  | inr (full, z, same) ↦ absurd (ne z)
]

-- Calls by anybody that never free the page `i`.
pub data Keeps (i : ℕ) (s : Pmm) : Pmm → Type 0 where
  stay : Keeps i s s
  alloc : {t : Pmm} → Keeps i s t → Keeps i s (alloc_page t).1
  free : {t : Pmm} (phys : ℕ) → phys / 4096 ≢ i → Keeps i s t → Keeps i s (free_page t phys)

abbrev Owned : ℕ → Pmm → Type 0
Owned i s = IsValid s × (bitmap_test s.bitmap i ≡ true)

alloc_page-Owned : (i : ℕ) (s : Pmm) → Owned i s → Owned i (alloc_page s).1
alloc_page-Owned i s (v, t) = elim (alloc_page-Allocated s v) [
  | inl (j, took) ↦ (took.valid, ground (arith, took.others i, took.now_used, t))
  | inr (full, z, same) ↦ rw same (v, t)
]

free_page-Owned : (i phys : ℕ) (s : Pmm) → phys / 4096 ≢ i → Owned i s → Owned i (free_page s phys)
free_page-Owned i phys s ne (v, t) =
    (free_page-IsValid s phys v, ground (arith, bitmap_test-free_page s phys i v))

Keeps-Owned : {i : ℕ} {s t : Pmm} → Owned i s → Keeps i s t → Owned i t
Keeps-Owned o stay = o
Keeps-Owned {i} o (alloc {t} k) = alloc_page-Owned i t (Keeps-Owned o k)
Keeps-Owned {i} o (free {t} phys ne k) = free_page-Owned i phys t ne (Keeps-Owned o k)

-- A page that was handed out is not handed out again before it is freed, whatever calls come
-- between.
pub alloc_page-exclusive :
    {s t : Pmm}
    → IsValid s
    → (alloc_page s).0 ≢ 0
    → Keeps ((alloc_page s).0 / 4096) (alloc_page s).1 t
    → (alloc_page t).0 ≢ (alloc_page s).0
alloc_page-exclusive {s} {t} v ne k e = elim (alloc_page-Allocated s v) [
  | inr (full, z, same) ↦ ne z
  | inl (i, took) ↦ not_twice i took (Keeps-Owned (took.valid, rw (page i took) took.now_used) k)
]
  where
    page : (i : ℕ) → Took s i (alloc_page s).0 (alloc_page s).1 → (alloc_page s).0 / 4096 ≡ i
    page i took = omega (arith, took.address)

    not_twice :
        (i : ℕ) → Took s i (alloc_page s).0 (alloc_page s).1 → Owned ((alloc_page s).0 / 4096) t → ⊥
    not_twice i took (w, used) = elim (alloc_page-Allocated t w) [
      | inr (full, z, same) ↦ ne (sym e ∙ z)
      | inl (j, other) ↦
          absurd (ground (arith, other.address, other.was_free, used, e, took.address))
    ]
