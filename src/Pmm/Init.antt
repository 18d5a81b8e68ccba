-- ===== src/Pmm/Init.antt =====
-- `pmm_init`: it ends on every well-formed information block. A page that the kernel image or the block covers only
-- in part can stay free.
use flyos.Base.{
  ℕ, ◌+◌, ◌*◌, ◌/◌, ◌^◌, ◌≤◌, ◌<◌, ◌≡◌, refl, false, true≢false, ◌==◌, arith, Bool-cases, inl, inr,
  ◌∙◌, sym, subst, some, ◌⊎◌,
}
use flyos.Pmm.Bitmap.{bitmap_test}
use flyos.Pmm.Multiboot.{Memory, Entry, read32, IsTags, Listed, walk_tags-some, walk_tags_inv}
use flyos.Pmm.Defs.{
  Pmm, u64, align_down, clamp_memory, mark_used, max_addr_step, release_step, all_used, reserve,
  find_max_addr, release_available, init,
}
use flyos.Pmm.Valid.{IsValid, mark_used-IsValid}
use flyos.Pmm.Range.{
  release_loop-Released, mark_used-test, mark_used-total, all_used-IsValid, all_used-test,
}
use native.Mathlib.Decide.{dec_lt}

-- The page lies wholly inside an available region of the memory map.
abbrev pub Covers : Entry → ℕ → Type 0
Covers ent q = (ent.type ≡ 1) × (ent.addr ≤ q * 4096) × ((q + 1) * 4096 ≤ ent.addr + ent.len)

-- No region ends near the top of the address space, where the sums of the code wrap.
abbrev pub IsLow : Entry → Type 0
IsLow ent = ent.addr + ent.len < 2 ^ 62

release_step-Released :
    (ent : Entry) (s : Pmm)
    → IsLow ent
    → IsValid s
    → IsValid (release_step ent s)
      × ((release_step ent s).total_pages ≡ s.total_pages)
      × ((q : ℕ)
          → bitmap_test (release_step ent s).bitmap q ≡ false
          → Covers ent q ⊎ (bitmap_test s.bitmap q ≡ false))
unfolding release_step
release_step-Released ent s low v = elim (Bool-cases (ent.type == 1)) [
  | inr t ↦ rw t (v, refl, λ q h. inr h)
  | inl t ↦
      let e = clamp_memory (u64 (ent.addr + ent.len)) in
      let r =
        release_loop-Released (align_down e / 4096 + 1) (u64 (ent.addr + 4095) / 4096) (e / 4096) s
          v (omega arith) (ground arith) (omega arith) in
      rw t (r.valid, r.total, λ q h. ground (arith, r.bits q))
]

-- What the second walk of `pmm_init` keeps: a free page comes from an available entry.
record FromMap (m : Memory) (end p total : ℕ) (s : Pmm) : Type 0 where
  valid : IsValid s
  total_same : s.total_pages ≡ total
  origin :
      (q : ℕ)
      → q < total
      → bitmap_test s.bitmap q ≡ false
      → (ent : Entry) × Listed m end ent p × Covers ent q

release_step-FromMap :
    (m : Memory) (end p total : ℕ) (ent : Entry) (s : Pmm)
    → IsLow ent
    → Listed m end ent p
    → FromMap m end p total s
    → FromMap m end p total (release_step ent s)
release_step-FromMap m end p total ent s low l f =
    let r = release_step-Released ent s low f.valid in
    record {
      valid = r.0;
      total_same = r.1 ∙ f.total_same;
      origin = λ q lt h. elim (r.2 q h) [ inl c ↦ (ent, l, c) | inr old ↦ f.origin q lt old ];
    }

all_used-FromMap :
    (m : Memory) (end p max_addr : ℕ)
    → FromMap m end p (all_used max_addr).total_pages (all_used max_addr)
all_used-FromMap m end p max_addr = record {
  valid = all_used-IsValid max_addr;
  total_same = refl;
  origin = λ q lt h. absurd (true≢false (sym (all_used-test max_addr q lt) ∙ h));
}

-- A page that `pmm_init` leaves free.
abbrev pub IsUsable : Memory → (kernel_start kernel_end mb q : ℕ) → Type 0
IsUsable m kernel_start kernel_end mb q =
    ((ent : Entry) × Listed m (mb + read32 m mb) ent (mb + 8) × Covers ent q)
    × (0x800000 ≤ q * 4096)
    × ¬ ((kernel_start ≤ q * 4096) × ((q + 1) * 4096 ≤ kernel_end))
    × ¬ ((mb ≤ q * 4096) × ((q + 1) * 4096 ≤ mb + read32 m mb))

-- A page that a reservation leaves free was free, and does not lie inside the range.
mark_used-spared :
    (start end q : ℕ) (s : Pmm)
    → IsValid s
    → start ≤ 2 ^ 50
    → end ≤ 2 ^ 50
    → q < s.total_pages
    → bitmap_test (mark_used start end s).bitmap q ≡ false
    → (bitmap_test s.bitmap q ≡ false) × ¬ ((start ≤ q * 4096) × ((q + 1) * 4096 ≤ end))
mark_used-spared start end q s v hs he lt h = (
  ground (arith, mark_used-test start end q s v),
  λ inside. absurd (ground (arith, mark_used-test start end q s v)),
)

reserve-lem :
    (kernel_start kernel_end mb size q : ℕ) (s : Pmm)
    → IsValid s
    → kernel_start ≤ 2 ^ 50
    → kernel_end ≤ 2 ^ 50
    → mb + size ≤ 2 ^ 50
    → q < s.total_pages
    → bitmap_test (reserve kernel_start kernel_end mb size s).bitmap q ≡ false
    → (bitmap_test s.bitmap q ≡ false)
      × (0x800000 ≤ q * 4096)
      × ¬ ((kernel_start ≤ q * 4096) × ((q + 1) * 4096 ≤ kernel_end))
      × ¬ ((mb ≤ q * 4096) × ((q + 1) * 4096 ≤ mb + size))
unfolding reserve
reserve-lem ks ke mb size q s v hs he hm lt h =
    let low = mark_used 0 0x800000 s in
    let kernel = mark_used ks ke low in
    let w = mark_used-IsValid 0 0x800000 s v in
    let k = mark_used-IsValid ks ke low w in
    let low_total = mark_used-total 0 0x800000 s in
    let kernel_total = mark_used-total ks ke low in
    let c =
      mark_used-spared mb (mb + size) q kernel k (omega arith) hm
        (subst (λ n. q < n) (sym (kernel_total ∙ low_total)) lt) h in
    let b = mark_used-spared ks ke q low w hs he (subst (λ n. q < n) (sym low_total) lt) c.0 in
    let a = mark_used-spared 0 0x800000 q s v (omega arith) (omega arith) lt b.0 in
    (a.0, above_low q a.1, b.1, c.1)
  where
    above_low : (q : ℕ) → ¬ ((0 ≤ q * 4096) × ((q + 1) * 4096 ≤ 0x800000)) → 0x800000 ≤ q * 4096
    above_low q h = elim (dec_lt (q * 4096) 0x800000) [
      | yes p ↦ absurd (h (omega arith, omega arith))
      | no p ↦ omega arith
    ]

reserve-IsValid :
    (kernel_start kernel_end mb size : ℕ) (s : Pmm)
    → IsValid s
    → IsValid (reserve kernel_start kernel_end mb size s)
      × ((reserve kernel_start kernel_end mb size s).total_pages ≡ s.total_pages)
unfolding reserve
reserve-IsValid ks ke mb size s v =
    let low = mark_used 0 0x800000 s in
    let kernel = mark_used ks ke low in
    (
      mark_used-IsValid mb (mb + size) kernel
          (mark_used-IsValid ks ke low (mark_used-IsValid 0 0x800000 s v)),
      mark_used-total mb (mb + size) kernel
          ∙ mark_used-total ks ke low
          ∙ mark_used-total 0 0x800000 s,
    )

init-eq :
    (m : Memory) (kernel_start kernel_end mb : ℕ) {max_addr : ℕ} {s : Pmm}
    → find_max_addr m mb ≡ some max_addr
    → release_available m mb (all_used max_addr) ≡ some s
    → init m kernel_start kernel_end mb ≡ some (reserve kernel_start kernel_end mb (read32 m mb) s)
unfolding init
init-eq m kernel_start kernel_end mb e1 e2 = rw (e1, e2)

find_max_addr-some :
    (m : Memory) (mb : ℕ)
    → IsTags m (mb + read32 m mb) (mb + 8)
    → (max_addr : ℕ) × (find_max_addr m mb ≡ some max_addr)
unfolding find_max_addr
find_max_addr-some m mb tags =
    walk_tags-some m max_addr_step (read32 m mb + 1) 0 tags (omega arith) (omega arith)

release_available-FromMap :
    (m : Memory) (mb max_addr : ℕ)
    → IsTags m (mb + read32 m mb) (mb + 8)
    → ((ent : Entry) → Listed m (mb + read32 m mb) ent (mb + 8) → IsLow ent)
    → (s : Pmm) × (release_available m mb (all_used max_addr) ≡ some s)
      × FromMap m (mb + read32 m mb) (mb + 8) (all_used max_addr).total_pages s
unfolding release_available
release_available-FromMap m mb max_addr tags low =
    let end = mb + read32 m mb in
    let start = all_used max_addr in
    let P = FromMap m end (mb + 8) start.total_pages in
    let (s, e) =
      walk_tags-some m release_step (read32 m mb + 1) start tags (omega arith) (omega arith) in
    (
      s,
      e,
      walk_tags_inv m release_step P end (read32 m mb + 1) start
          (λ ent t l. release_step-FromMap m end (mb + 8) start.total_pages ent t (low ent l) l) e
          (all_used-FromMap m end (mb + 8) max_addr),
    )

module _ (m : Memory) (kernel_start kernel_end mb : ℕ) where
  abbrev end_of : ℕ
  end_of = mb + read32 m mb

  -- `pmm_init` ends on a well-formed information block and leaves a valid state, in which every free
  -- page lies wholly in memory that the block lists as available, above 8 MB, and neither wholly inside the kernel
  -- image nor wholly inside the block. No region ends near the top of the address space, and the image and the
  -- block end below 2^50.
  pub init-IsUsable :
      IsTags m end_of (mb + 8)
      → ((ent : Entry) → Listed m end_of ent (mb + 8) → IsLow ent)
      → kernel_start ≤ 2 ^ 50
      → kernel_end ≤ 2 ^ 50
      → end_of ≤ 2 ^ 50
      → (s : Pmm) × (init m kernel_start kernel_end mb ≡ some s)
        × IsValid s
        × ((q : ℕ)
            → q < s.total_pages
            → bitmap_test s.bitmap q ≡ false
            → IsUsable m kernel_start kernel_end mb q)
  init-IsUsable tags low hs he hm =
      let (top, e1) = find_max_addr-some m mb tags in
      let (s, e2, f) = release_available-FromMap m mb top tags low in
      let size = read32 m mb in
      let (valid, total) = reserve-IsValid kernel_start kernel_end mb size s f.valid in
      (
        reserve kernel_start kernel_end mb size s,
        init-eq m kernel_start kernel_end mb e1 e2,
        valid,
        λ q lt h.
            let below : q < s.total_pages = subst (λ n. q < n) total lt in
            let left = reserve-lem kernel_start kernel_end mb size q s f.valid hs he hm below h in
            (f.origin q (subst (λ n. q < n) f.total_same below) left.0, left.1, left.2, left.3),
      )
