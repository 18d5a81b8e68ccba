-- ===== src/Vmm/Keeps.antt =====
-- Copying an address space does not touch memory that is in use.
use flyos.Base.{
  ℕ, zero, suc, ◌+◌, ◌/◌, ◌%◌, ◌^◌, ◌<◌, ◌≡◌, ◌≢◌, refl, Bool, true, false, not, leb, ◌==◌,
  if◌then◌else◌, arith, Bool-cases, inl, inr, ◌∙◌, subst, sym, ap, true≢false,
}
use flyos.Pmm.Bitmap.{bitmap_test}
use flyos.Pmm.Defs.{Pmm, alloc_page}
use flyos.Pmm.Valid.{IsValid}
use flyos.Pmm.Alloc.{IsFull, alloc_page-Allocated}
use flyos.Vmm.Defs.{Frames, Vmm, is_present, is_huge, addr_of, zero_page}
use flyos.Vmm.Clone.{
  copy_words, copy_page, new_table, put_entry, FbInfo, in_fb, clone_pt, clone_pd, clone_pdpt,
  clone_entries, clone_pml4_deep,
}

-- Whether the page at the address `t` is marked in the bitmap.
abbrev pub in_use : Pmm → ℕ → Bool
in_use p t = bitmap_test p.bitmap (t / 4096)

-- Every page that was in use at first still is, with the same words.
pub record Keeps (s0 s : Vmm) : Type 0 where
  pub valid : IsValid s.pmm
  pub used : (t : ℕ) → in_use s0.pmm t ≡ true → in_use s.pmm t ≡ true
  pub same : (t j : ℕ) → in_use s0.pmm t ≡ true → s.frames t j ≡ s0.frames t j

-- What the allocator does to the pages in use.
pub record Granted (p : Pmm) (np : ℕ) (p' : Pmm) : Type 0 where
  pub valid : IsValid p'
  pub used : (t : ℕ) → in_use p t ≡ true → in_use p' t ≡ true
  pub fresh : np ≢ 0 → in_use p np ≡ false
  pub taken : np ≢ 0 → in_use p' np ≡ true
  pub aligned : np % 4096 ≡ 0
  pub small : np < 2 ^ 52
  pub full : np ≡ 0 → in_use p 0 ≡ true → IsFull p'

pub alloc_page-Granted : (p : Pmm) → IsValid p → Granted p (alloc_page p).0 (alloc_page p).1
alloc_page-Granted p v = elim (alloc_page-Allocated p v) [
  | inl (i, took) ↦
      let page : (alloc_page p).0 / 4096 ≡ i = omega (arith, took.address) in
      record {
        valid = took.valid;
        used = λ t u. ground (arith, u, took.now_used, took.others (t / 4096), took.was_free);
        fresh = λ ne. ground (arith, page, took.was_free);
        taken = λ ne. ground (arith, page, took.now_used);
        aligned = omega (arith, took.address);
        small = omega (arith, took.address, took.in_range, v.bounded);
        full = λ z u. absurd (ground (arith, z, u, page, took.was_free));
      }
  | inr (full, z, same) ↦ record {
    valid = subst IsValid (sym same) v;
    used = λ t u. subst (λ q. in_use q t ≡ true) (sym same) u;
    fresh = λ ne. absurd (ne z);
    taken = λ ne. absurd (ne z);
    aligned = omega (arith, z);
    small = omega (arith, z);
    full = λ _ _. subst IsFull (sym same) full;
  }
]

==-ne : (a b : ℕ) → a ≢ b → (a == b) ≡ false
==-ne a b h = ground (arith, h)

pub ==-false : {a b : ℕ} → (a == b) ≡ false → a ≢ b
==-false {a} {b} e z = ground (arith, e, z)

module _ (s0 : Vmm) where
  -- A page was granted, and its words written.
  Keeps-grant :
      {s : Vmm} {np : ℕ} {p' : Pmm} (f' : Frames)
      → Keeps s0 s
      → Granted s.pmm np p'
      → ((t j : ℕ) → np ≢ 0 → t ≢ np → f' t j ≡ s.frames t j)
      → np ≢ 0
      → Keeps s0 (record s { frames = f'; pmm = p' })
  Keeps-grant {s} {np} {p'} f' k g e nz = record {
    valid = g.valid;
    used = λ t u. g.used t (k.used t u);
    same = λ t j u.
        e t j nz (λ z. true≢false (sym (k.used t u) ∙ ap (in_use s.pmm) z ∙ g.fresh nz))
        ∙ k.same t j u;
  }

  -- No page was granted.
  Keeps-none :
      {s : Vmm} {np : ℕ} {p' : Pmm}
      → Keeps s0 s
      → Granted s.pmm np p'
      → Keeps s0 (record s { pmm = p' })
  Keeps-none k g = record { valid = g.valid; used = λ t u. g.used t (k.used t u); same = k.same }

  Keeps-put :
      {s : Vmm} (table i e : ℕ)
      → Keeps s0 s
      → in_use s0.pmm table ≡ false
      → Keeps s0 (put_entry table i e s)
  Keeps-put {s} table i e k fresh = record {
    valid = k.valid;
    used = k.used;
    same = λ t j u.
        let ne : (t == table) ≡ false =
          ==-ne t table (λ z. true≢false (sym u ∙ ap (in_use s0.pmm) z ∙ fresh)) in
        rw ne (k.same t j u);
  }

  -- A new table or a copy of a page: its address, or 0.
  pub record NewPage (r : ℕ × Vmm) : Type 0 where
    pub keeps : Keeps s0 r.1
    pub fresh : r.0 ≢ 0 → in_use s0.pmm r.0 ≡ false

  NewPage-lem :
      (s : Vmm) (f' : ℕ → Frames)
      → Keeps s0 s
      → ((np t j : ℕ) → t ≢ np → f' np t j ≡ s.frames t j)
      → NewPage (
          let (np, p') = alloc_page s.pmm in
          if np == 0
          then (0, record s { pmm = p' })
          else (np, record s { frames = f' np; pmm = p' }))
  NewPage-lem s f' k e =
      let (np, p') = alloc_page s.pmm in
      let g = alloc_page-Granted s.pmm k.valid in
      elim (Bool-cases (np == 0)) [
        | inl z ↦ rw z (record { keeps = Keeps-none k g; fresh = λ ne. absurd (ne refl) })
        | inr ne ↦
            let nz : np ≢ 0 = ground (arith, ne) in
            rw ne (record {
              keeps = Keeps-grant (f' np) k g (λ t j _ d. e np t j d) nz;
              fresh = λ _. ground (arith, k.used np, g.fresh nz);
            })
      ]

  new_table-NewPage : (s : Vmm) → Keeps s0 s → NewPage (new_table s)
  unfolding new_table
  new_table-NewPage s k = NewPage-lem s (zero_page s.frames) k (λ np t j ne. ground (arith, ne))

  copy_page-NewPage : (src : ℕ) (s : Vmm) → Keeps s0 s → NewPage (copy_page src s)
  unfolding copy_page
  copy_page-NewPage src s k =
      NewPage-lem s (λ np. copy_words s.frames np src) k (λ np t j ne. ground (arith, ne))

  module _ (fb : FbInfo) where
    clone_pt-Keeps :
        (n i src dst : ℕ) (s : Vmm)
        → in_use s0.pmm dst ≡ false
        → Keeps s0 s
        → Keeps s0 (clone_pt fb n i src dst s).1
    unfolding clone_pt
    clone_pt-Keeps zero i src dst s d k = k
    clone_pt-Keeps (suc n) i src dst s d k =
        let e = s.frames src i in
        let (frame, s1) = copy_page (addr_of e) s in
        let c = copy_page-NewPage (addr_of e) s k in
        elim (Bool-cases (not (is_present e))) [
          | inl y ↦
              rw y
                (clone_pt-Keeps n (i + 1) src dst (put_entry dst i 0 s) d (Keeps-put dst i 0 k d))
          | inr p ↦ elim (Bool-cases (in_fb fb (addr_of e))) [
            | inl y ↦
                rw (p, y)
                  (clone_pt-Keeps n (i + 1) src dst (put_entry dst i e s) d (Keeps-put dst i e k d))
            | inr q ↦ elim (Bool-cases (frame == 0)) [
              | inl y ↦ rw (p, q, y) c.keeps
              | inr r ↦
                  rw (p, q, r)
                    (clone_pt-Keeps n (i + 1) src dst (put_entry dst i (frame + e % 4096) s1) d
                      (Keeps-put dst i (frame + e % 4096) c.keeps d))
            ]
          ]
        ]

    -- A level below: a new table, entered into `dst`, and filled.
    descend-Keeps :
        (i dst e : ℕ) (s : Vmm) (fill : ℕ → Vmm → Bool × Vmm)
        → in_use s0.pmm dst ≡ false
        → Keeps s0 s
        → ((table : ℕ) (t : Vmm)
            → in_use s0.pmm table ≡ false
            → Keeps s0 t
            → Keeps s0 (fill table t).1)
        → (new_table s).0 ≢ 0
        → let (table, s1) = new_table s in Keeps s0 (fill table (put_entry dst i (table + e) s1)).1
    descend-Keeps i dst e s fill d k keep nz =
        let (table, s1) = new_table s in
        let c = new_table-NewPage s k in
        keep table (put_entry dst i (table + e) s1) (c.fresh nz)
          (Keeps-put dst i (table + e) c.keeps d)

    clone_pd-Keeps :
        (n i src dst : ℕ) (s : Vmm)
        → in_use s0.pmm dst ≡ false
        → Keeps s0 s
        → Keeps s0 (clone_pd fb n i src dst s).1
    unfolding clone_pd
    clone_pd-Keeps zero i src dst s d k = k
    clone_pd-Keeps (suc n) i src dst s d k =
        let e = s.frames src i in
        let (table, s1) = new_table s in
        let fill = clone_pt fb 512 0 (addr_of e) in
        let (below, s2) = fill table (put_entry dst i (table + e % 4096) s1) in
        elim (Bool-cases (not (is_present e))) [
          | inl y ↦
              rw y
                (clone_pd-Keeps n (i + 1) src dst (put_entry dst i 0 s) d (Keeps-put dst i 0 k d))
          | inr p ↦ elim (Bool-cases (is_huge e)) [
            | inl y ↦
                rw (p, y)
                  (clone_pd-Keeps n (i + 1) src dst (put_entry dst i e s) d (Keeps-put dst i e k d))
            | inr q ↦ elim (Bool-cases (table == 0)) [
              | inl y ↦ rw (p, q, y) (new_table-NewPage s k).keeps
              | inr r ↦
                  let k2 =
                    descend-Keeps i dst (e % 4096) s fill d k (clone_pt-Keeps 512 0 (addr_of e))
                      (==-false r) in
                  elim (Bool-cases (not below)) [
                    | inl y ↦ rw (p, q, r, y) k2
                    | inr b ↦ rw (p, q, r, b) (clone_pd-Keeps n (i + 1) src dst s2 d k2)
                  ]
            ]
          ]
        ]

    clone_pdpt-Keeps :
        (n i src dst : ℕ) (s : Vmm)
        → in_use s0.pmm dst ≡ false
        → Keeps s0 s
        → Keeps s0 (clone_pdpt fb n i src dst s).1
    unfolding clone_pdpt
    clone_pdpt-Keeps zero i src dst s d k = k
    clone_pdpt-Keeps (suc n) i src dst s d k =
        let e = s.frames src i in
        let (table, s1) = new_table s in
        let fill = clone_pd fb 512 0 (addr_of e) in
        let (below, s2) = fill table (put_entry dst i (table + e % 4096) s1) in
        elim (Bool-cases (not (is_present e))) [
          | inl y ↦
              rw y
                (clone_pdpt-Keeps n (i + 1) src dst (put_entry dst i 0 s) d (Keeps-put dst i 0 k d))
          | inr p ↦ elim (Bool-cases (table == 0)) [
            | inl y ↦ rw (p, y) (new_table-NewPage s k).keeps
            | inr r ↦
                let k2 =
                  descend-Keeps i dst (e % 4096) s fill d k (clone_pd-Keeps 512 0 (addr_of e))
                    (==-false r) in
                elim (Bool-cases (not below)) [
                  | inl y ↦ rw (p, r, y) k2
                  | inr b ↦ rw (p, r, b) (clone_pdpt-Keeps n (i + 1) src dst s2 d k2)
                ]
          ]
        ]

    clone_entries-Keeps :
        (n i src dst : ℕ) (s : Vmm)
        → in_use s0.pmm dst ≡ false
        → Keeps s0 s
        → Keeps s0 (clone_entries fb n i src dst s).1
    unfolding clone_entries
    clone_entries-Keeps zero i src dst s d k = k
    clone_entries-Keeps (suc n) i src dst s d k =
        let e = s.frames src i in
        let (table, s1) = new_table s in
        let fill = clone_pdpt fb 512 0 (addr_of e) in
        let (below, s2) = fill table (put_entry dst i (table + e % 4096) s1) in
        elim (Bool-cases (leb 256 i)) [
          | inl y ↦ rw y (
              clone_entries-Keeps n (i + 1) src dst (put_entry dst i e s) d (Keeps-put dst i e k d))
          | inr q ↦ elim (Bool-cases (not (is_present e))) [
            | inl y ↦
                rw (q, y)
                  (clone_entries-Keeps n (i + 1) src dst (put_entry dst i 0 s) d
                    (Keeps-put dst i 0 k d))
            | inr p ↦ elim (Bool-cases (table == 0)) [
              | inl y ↦ rw (q, p, y) (new_table-NewPage s k).keeps
              | inr r ↦
                  let k2 =
                    descend-Keeps i dst (e % 4096) s fill d k (clone_pdpt-Keeps 512 0 (addr_of e))
                      (==-false r) in
                  elim (Bool-cases (not below)) [
                    | inl y ↦ rw (q, p, r, y) k2
                    | inr b ↦ rw (q, p, r, b) (clone_entries-Keeps n (i + 1) src dst s2 d k2)
                  ]
            ]
          ]
        ]

-- `vmm_clone_pml4_deep`, whether it succeeds or runs out of pages on the way, changes no word of a
-- page that was in use, frees none of them, and keeps the allocator valid.
pub clone_pml4_deep-Keeps :
    (fb : FbInfo) (src : ℕ) (s : Vmm) → IsValid s.pmm → Keeps s (clone_pml4_deep fb src s).1
unfolding clone_pml4_deep
clone_pml4_deep-Keeps fb src s v =
    let start : Keeps s s = record { valid = v; used = λ t u. u; same = λ t j u. refl } in
    let (dst, s1) = new_table s in
    let c = new_table-NewPage s s start in
    let (all, s2) = clone_entries fb 512 0 src dst s1 in
    elim (Bool-cases (dst == 0)) [
      | inl y ↦ rw y c.keeps
      | inr r ↦
          let k2 = clone_entries-Keeps s fb 512 0 src dst s1 (c.fresh (==-false r)) c.keeps in
          elim (Bool-cases all) [ inl y ↦ rw (r, y) k2 | inr n ↦ rw (r, n) k2 ]
    ]
