-- ===== src/Pmm/Range.antt =====
-- The loops of `pmm_init` and `mark_used` over a range of pages: exactly which bits they change.
use flyos.Base.{
  ℕ, zero, suc, ◌+◌, ◌*◌, ◌/◌, ◌^◌, ◌≤◌, ◌<◌, ◌≡◌, refl, true, false, ◌&&◌, ltb, leb, ◌==◌,
  if◌then◌else◌, arith, Bool-cases, inl, inr, ◌∙◌, sym,
}
use flyos.Pmm.Bitmap.{
  Bitmap, IsBytes, bitmap_set, bitmap_test, bitmap_test-set, bitmap_test-clear, bitmap_set-IsBytes,
}
use flyos.Pmm.Defs.{
  Pmm, u64, align_up, align_down, mark_page, mark_loop, mark_used, release_page, release_loop,
  set_range, all_used, page_size,
}
use flyos.Pmm.Valid.{IsValid, count_used-all, mark_page-IsValid, release_page-IsValid}

mark_page-test :
    (s : Pmm) (p q : ℕ)
    → IsValid s
    → (bitmap_test (mark_page s p).bitmap q
        ≡ (if p == q && ltb q s.total_pages then true else bitmap_test s.bitmap q))
      × ((mark_page s p).total_pages ≡ s.total_pages)
unfolding mark_page
mark_page-test s p q v = (ground (arith, bitmap_test-set s.bitmap p q v.bytes), ground arith)

-- One step of either loop, from page `k` on.
next_page : (k n : ℕ) → k < n → n ≤ 2 ^ 40 → u64 (k * 4096 + 4096) ≡ (k + 1) * 4096
next_page k n h b = omega arith

page_of : (k : ℕ) → k * 4096 / 4096 ≡ k
page_of k = omega arith

mark_loop-step :
    (fuel k n : ℕ) (s : Pmm)
    → k < n
    → n ≤ 2 ^ 40
    → mark_loop (suc fuel) (k * 4096) (n * 4096) s
      ≡ mark_loop fuel ((k + 1) * 4096) (n * 4096) (mark_page s k)
unfolding mark_loop
mark_loop-step fuel k n s h b = ground (arith, next_page k n h b, page_of k)

mark_loop-done : (fuel k n : ℕ) (s : Pmm) → n ≤ k → mark_loop fuel (k * 4096) (n * 4096) s ≡ s
unfolding mark_loop
mark_loop-done zero k n s h = refl
mark_loop-done (suc fuel) k n s h = ground arith

-- `mark_loop` on enough fuel sets the bits of the pages from `k` to `n`, and no other.
mark_loop-test :
    (fuel k n q : ℕ) (s : Pmm)
    → IsValid s
    → n ≤ 2 ^ 40
    → n ≤ k + fuel
    → bitmap_test (mark_loop fuel (k * 4096) (n * 4096) s).bitmap q
      ≡ (if leb k q && ltb q n && ltb q s.total_pages then true else bitmap_test s.bitmap q)
mark_loop-test zero k n q s v b f = rw (mark_loop-done zero k n s (omega arith)) (ground arith)
mark_loop-test (suc fuel) k n q s v b f = elim (Bool-cases (ltb k n)) [
  | inl t ↦ rw (mark_loop-step fuel k n s (ground arith) b) (
      ground (
        arith,
        mark_loop-test fuel (k + 1) n q (mark_page s k) (mark_page-IsValid s k v) b (omega arith),
        mark_page-test s k q v,
      ))
  | inr t ↦ rw (mark_loop-done (suc fuel) k n s (ground arith)) (ground arith)
]

-- `mark_used(start, end)` takes the pages that lie wholly inside the range, below `total_pages`, and
-- no other.
pub mark_used-test :
    (start end q : ℕ) (s : Pmm)
    → IsValid s
    → start ≤ 2 ^ 50
    → end ≤ 2 ^ 50
    → bitmap_test (mark_used start end s).bitmap q ≡ (
        if leb start (q * 4096) && leb ((q + 1) * 4096) end && ltb q s.total_pages
        then true
        else bitmap_test s.bitmap q)
unfolding mark_used
mark_used-test start end q s v hs he = ground (
  arith,
  mark_loop-test (end / 4096 + 1) ((start + 4095) / 4096) (end / 4096) q s v (omega arith)
      (omega arith),
)

release_page-test :
    (s : Pmm) (p q : ℕ)
    → IsValid s
    → (bitmap_test (release_page s p).bitmap q
        ≡ (if p == q && ltb q s.total_pages then false else bitmap_test s.bitmap q))
      × ((release_page s p).total_pages ≡ s.total_pages)
unfolding release_page
release_page-test s p q v = (ground (arith, bitmap_test-clear s.bitmap p q v.bytes), ground arith)

release_loop-step :
    (fuel k n : ℕ) (s : Pmm)
    → k < n
    → n ≤ 2 ^ 40
    → release_loop (suc fuel) (k * 4096) (n * 4096) s
      ≡ release_loop fuel ((k + 1) * 4096) (n * 4096) (release_page s k)
unfolding release_loop
release_loop-step fuel k n s h b = ground (arith, next_page k n h b, page_of k)

release_loop-done :
    (fuel k n : ℕ) (s : Pmm) → n ≤ k → k ≤ 2 ^ 51 → release_loop fuel (k * 4096) (n * 4096) s ≡ s
unfolding release_loop
release_loop-done zero k n s h b = refl
release_loop-done (suc fuel) k n s h b = ground arith

-- What the release of an available region does: the pages from `k` to `n` become free.
pub record Released (k n : ℕ) (s t : Pmm) : Type 0 where
  pub valid : IsValid t
  pub total : t.total_pages ≡ s.total_pages
  pub bits :
      (q : ℕ)
      → bitmap_test t.bitmap q
        ≡ (if leb k q && ltb q n && ltb q s.total_pages then false else bitmap_test s.bitmap q)

pub release_loop-Released :
    (fuel k n : ℕ) (s : Pmm)
    → IsValid s
    → k ≤ 2 ^ 51
    → n ≤ 2 ^ 40
    → n ≤ k + fuel
    → Released k n s (release_loop fuel (k * 4096) (n * 4096) s)
release_loop-Released zero k n s v bk b f =
    rw (release_loop-done zero k n s (omega arith) bk)
      (record { valid = v; total = refl; bits = λ q. ground arith })
release_loop-Released (suc fuel) k n s v bk b f = elim (Bool-cases (ltb k n)) [
  | inr t ↦
      rw (release_loop-done (suc fuel) k n s (ground arith) bk)
        (record { valid = v; total = refl; bits = λ q. ground arith })
  | inl t ↦ rw (release_loop-step fuel k n s (ground arith) b) (
      let rest =
        release_loop-Released fuel (k + 1) n (release_page s k) (release_page-IsValid s k v)
          (ground arith) b (omega arith) in
      record {
        valid = rest.valid;
        total = rest.total ∙ (release_page-test s k 0 v).1;
        bits = λ q. ground (arith, rest.bits q, release_page-test s k q v);
      })
]

mark_loop-total : (fuel a e : ℕ) (s : Pmm) → (mark_loop fuel a e s).total_pages ≡ s.total_pages
unfolding mark_loop
mark_loop-total zero a e s = refl
mark_loop-total (suc fuel) a e s =
    ground (arith, mark_loop-total fuel (u64 (a + 4096)) e (mark_page s (a / 4096)))

pub mark_used-total :
    (start end : ℕ) (s : Pmm) → (mark_used start end s).total_pages ≡ s.total_pages
unfolding mark_used
mark_used-total start end s =
    mark_loop-total (align_down end / page_size + 1) (align_up start) (align_down end) s

set_range-IsBytes : (n i : ℕ) (bitmap : Bitmap) → IsBytes bitmap → IsBytes (set_range n i bitmap)
unfolding set_range
set_range-IsBytes zero i bitmap h = h
set_range-IsBytes (suc n) i bitmap h =
    set_range-IsBytes n (i + 1) (bitmap_set bitmap i) (bitmap_set-IsBytes bitmap i h)

set_range-test :
    (n i q : ℕ) (bitmap : Bitmap)
    → IsBytes bitmap
    → bitmap_test (set_range n i bitmap) q
      ≡ (if leb i q && ltb q (i + n) then true else bitmap_test bitmap q)
unfolding set_range
set_range-test zero i q bitmap h = ground arith
set_range-test (suc n) i q bitmap h = ground (
  arith,
  set_range-test n (i + 1) q (bitmap_set bitmap i) (bitmap_set-IsBytes bitmap i h),
  bitmap_test-set bitmap i q h,
)

-- `pmm_init` starts from a machine with every page in use.
pub all_used-IsValid : (max_addr : ℕ) → IsValid (all_used max_addr)
unfolding all_used
all_used-IsValid max_addr = record {
  bytes = set_range-IsBytes total 0 (λ _. 0) (λ i. omega arith);
  counted = sym (count_used-all (set_range total 0 (λ _. 0)) total all_set);
  hint = omega arith;
  bounded = ground arith;
}
  where
    total : ℕ
    total = (all_used max_addr).total_pages

    all_set : (q : ℕ) → q < total → bitmap_test (set_range total 0 (λ _. 0)) q ≡ true
    all_set q h = ground (arith, set_range-test total 0 q (λ _. 0) (λ i. omega arith))

pub all_used-test :
    (max_addr q : ℕ)
    → q < (all_used max_addr).total_pages
    → bitmap_test (all_used max_addr).bitmap q ≡ true
unfolding all_used
all_used-test max_addr q h =
    ground (arith, set_range-test (all_used max_addr).total_pages 0 q (λ _. 0) (λ i. omega arith))
