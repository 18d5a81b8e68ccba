-- ===== src/Pmm/Tests.antt =====
-- The allocator at concrete inputs: a machine of four pages, and one with 16 MB.
use flyos.Base.{
  ℕ, zero, suc, ◌<◌, ◌≡◌, refl, ◌≢◌, true, false, List, [], ◌∷◌, ◌++◌, some, arith, get_or, ◌==◌,
  if◌then◌else◌,
}
use flyos.Pmm.Bitmap.{IsBytes, bitmap_test}
use flyos.Pmm.Multiboot.{Memory, Entry, IsTags, last, tag, Listed, here, later}
use flyos.Pmm.Defs.{Pmm, mark_used, alloc_page, free_page, init}
use flyos.Pmm.Valid.{IsValid, count_used}
use flyos.Pmm.Range.{mark_used-test}
use flyos.Pmm.Free.{stay, alloc, free, alloc_page-exclusive}
use flyos.Pmm.Init.{IsLow, IsUsable, init-IsUsable}

-- Pages 0 and 2 of four are in use.
abbrev four : Pmm
four = record {
  bitmap = λ i. if i == 0 then 5 else 0;
  total_pages = 4;
  used_pages = 2;
  search_hint = 1;
}

four-IsBytes : IsBytes four.bitmap
four-IsBytes i = ground arith

four-IsValid : IsValid four
unfolding count_used bitmap_test
four-IsValid = record {
  bytes = four-IsBytes;
  counted = refl;
  hint = omega arith;
  bounded = omega arith;
}

alloc_runs : (alloc_page four).0 ≡ 4096
unfolding alloc_page bitmap_test
alloc_runs = refl

free_runs : (free_page four 8192).used_pages ≡ 1
unfolding free_page bitmap_test
free_runs = refl

mark_used-test_example : bitmap_test (mark_used 4095 12289 four).bitmap 1 ≡ true
unfolding bitmap_test
mark_used-test_example = mark_used-test 4095 12289 1 four four-IsValid (omega arith) (omega arith)

four-page : (alloc_page four).0 ≢ 0
unfolding alloc_page bitmap_test
four-page e = absurd (omega arith)

-- Somebody else takes a page and frees page 2 between the two calls.
between : Pmm
between = free_page (alloc_page (alloc_page four).1).1 8192

alloc_page-exclusive_example : (alloc_page between).0 ≢ (alloc_page four).0
unfolding between alloc_page bitmap_test
alloc_page-exclusive_example =
    alloc_page-exclusive four-IsValid four-page (free 8192 (λ e. absurd (omega arith)) (alloc stay))

-- An information block at address 0: one memory map with one available entry, 16 MB from 0.
abbrev word : ℕ → List ℕ
word n = n ∷ 0 ∷ 0 ∷ 0 ∷ []

abbrev block : Memory
block = get_elem_or (
    word 56
    ++ word 0
    ++ word 6
    ++ word 40
    ++ word 24
    ++ word 0
    ++ word 0
    ++ word 0
    ++ (0 ∷ 0 ∷ 0 ∷ 1 ∷ [])
    ++ word 0
    ++ word 1
    ++ word 0
    ++ word 0
    ++ word 8)
  where
    get_elem_or : List ℕ → ℕ → ℕ
    get_elem_or bytes i = get_or bytes i 0

block-IsTags : IsTags block 56 8
block-IsTags = tag (omega arith) (λ e z. absurd (omega arith)) (last refl)

no_more : (ent : Entry) → Listed block 56 ent 48 → IsLow ent
no_more ent (here i lt e6 b e) = absurd (omega arith)
no_more ent (later lt ne l) = absurd (ne refl)

block-IsLow : (ent : Entry) → Listed block 56 ent 8 → IsLow ent
block-IsLow ent (here zero lt e6 b e) = ground arith
block-IsLow ent (here (suc i) lt e6 b e) = absurd (omega arith)
block-IsLow ent (later lt ne l) = no_more ent l

init-IsUsable_example :
    (s : Pmm) × (init block 0x100000 0x200000 0 ≡ some s)
    × IsValid s
    × ((q : ℕ)
        → q < s.total_pages
        → bitmap_test s.bitmap q ≡ false
        → IsUsable block 0x100000 0x200000 0 q)
init-IsUsable_example =
    init-IsUsable block 0x100000 0x200000 0 block-IsTags block-IsLow (omega arith) (omega arith)
      (omega arith)
