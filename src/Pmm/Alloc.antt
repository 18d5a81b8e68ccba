-- ===== src/Pmm/Alloc.antt =====
-- `pmm_alloc_page` and `pmm_free_page`: which page they pick, and what they change.
use flyos.Base.{
  ℕ, zero, suc, ◌+◌, ◌-◌, ◌*◌, ◌≤◌, ◌<◌, ◌≡◌, refl, ◌≢◌, true, false, none, some, arith, ltb, ◌==◌,
  Bool-cases, Option-cases, inl, inr, ◌⊎◌,
}
use flyos.Pmm.Bitmap.{Bitmap, bitmap_test, bitmap_test-set}
use flyos.Pmm.Defs.{Pmm, find_free, take_page, alloc_page}
use flyos.Pmm.Valid.{IsValid, used_pages-le, take_page-IsValid}

-- What a search of the range returns is a free page of it, and the first.
find_free-some :
    (bitmap : Bitmap) (n i j : ℕ)
    → find_free bitmap n i ≡ some j
    → (i ≤ j) × (j < i + n) × (bitmap_test bitmap j ≡ false)
unfolding find_free
find_free-some bitmap zero i j h = ground arith
find_free-some bitmap (suc n) i j h = elim (Bool-cases (bitmap_test bitmap i)) [
  | inl t ↦ ground (arith, find_free-some bitmap n (i + 1) j)
  | inr t ↦ ground arith
]

-- A search that finds nothing has seen only pages in use.
find_free-none :
    (bitmap : Bitmap) (n i j : ℕ)
    → find_free bitmap n i ≡ none
    → i ≤ j
    → j < i + n
    → bitmap_test bitmap j ≡ true
unfolding find_free
find_free-none bitmap zero i j h lo hi = absurd (omega arith)
find_free-none bitmap (suc n) i j h lo hi = elim (Bool-cases (i == j)) [
  | inl e ↦ ground arith
  | inr e ↦ ground (arith, find_free-none bitmap n (i + 1) j)
]

-- The page at `i` was free and is now the caller's; every other page is as it was.
pub record Took (s : Pmm) (i : ℕ) (phys : ℕ) (s' : Pmm) : Type 0 where
  pub address : phys ≡ i * 4096
  pub in_range : i < s.total_pages
  pub was_free : bitmap_test s.bitmap i ≡ false
  pub now_used : bitmap_test s'.bitmap i ≡ true
  pub others : (j : ℕ) → j ≢ i → bitmap_test s'.bitmap j ≡ bitmap_test s.bitmap j
  pub counter : s'.used_pages ≡ s.used_pages + 1
  pub total : s'.total_pages ≡ s.total_pages
  pub valid : IsValid s'

-- No page below `total_pages` is free.
abbrev pub IsFull : Pmm → Type 0
IsFull s = (j : ℕ) → j < s.total_pages → bitmap_test s.bitmap j ≡ true

take_page-Took :
    (s : Pmm) (i : ℕ)
    → IsValid s
    → i < s.total_pages
    → bitmap_test s.bitmap i ≡ false
    → Took s i (take_page s i).0 (take_page s i).1
unfolding take_page
take_page-Took s i v h t = record {
  address = refl;
  in_range = h;
  was_free = t;
  now_used = ground (arith, bitmap_test-set s.bitmap i i v.bytes);
  others = λ j ne. ground (arith, bitmap_test-set s.bitmap i j v.bytes);
  counter = ground (arith, used_pages-le s v);
  total = refl;
  valid = take_page-IsValid s i v h t;
}

IsFull-searched :
    (s : Pmm)
    → find_free s.bitmap (s.total_pages - s.search_hint) s.search_hint ≡ none
    → find_free s.bitmap s.search_hint 0 ≡ none
    → IsFull s
IsFull-searched s e e' j h = elim (Bool-cases (ltb j s.search_hint)) [
  | inl t ↦ find_free-none s.bitmap s.search_hint 0 j e' (omega arith) (ground arith)
  | inr t ↦
      find_free-none s.bitmap (s.total_pages - s.search_hint) s.search_hint j e (ground arith)
        (ground arith)
]

-- `pmm_alloc_page` hands out a free page, and gives up only when no page is free.
abbrev pub Allocated : Pmm → ℕ × Pmm → Type 0
Allocated s (phys, s') = ((i : ℕ) × Took s i phys s') ⊎ (IsFull s × (phys ≡ 0) × (s' ≡ s))

pub alloc_page-Allocated : (s : Pmm) → IsValid s → Allocated s (alloc_page s)
unfolding alloc_page
alloc_page-Allocated s v =
    elim (Option-cases (find_free s.bitmap (s.total_pages - s.search_hint) s.search_hint)) [
      | inl e ↦ elim (Option-cases (find_free s.bitmap s.search_hint 0)) [
        | inl e' ↦ rw (e, alloc_page, e') (inr (λ j h. IsFull-searched s e e' j h, refl, refl))
        | inr (i, e') ↦
            rw (e, alloc_page, e')
              (inl (
                i,
                take_page-Took s i v (ground (arith, find_free-some s.bitmap s.search_hint 0 i))
                    ((find_free-some s.bitmap s.search_hint 0 i e').2),
              ))
      ]
      | inr (i, e) ↦
          rw (e, alloc_page)
            (inl (
              i,
              take_page-Took s i v
                  (ground (
                    arith,
                    find_free-some s.bitmap (s.total_pages - s.search_hint) s.search_hint i,
                  ))
                  ((find_free-some s.bitmap (s.total_pages - s.search_hint) s.search_hint i e).2),
            ))
    ]
