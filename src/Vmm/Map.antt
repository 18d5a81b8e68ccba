-- ===== src/Vmm/Map.antt =====
-- `vmm_map`, `vmm_unmap` and `vmm_get_phys` on one address.
use flyos.Base.{
  ℕ, zero, suc, ◌+◌, ◌*◌, ◌/◌, ◌%◌, ◌^◌, ◌<◌, ◌≡◌, ◌≢◌, refl, Bool, true, false, ◌&&◌, ◌==◌, List,
  [], ◌∷◌, arith, Bool-cases, inl, inr, ◌⊎◌, ◌∙◌, subst, sym, ap, true≢false,
}
use flyos.Pmm.Defs.{alloc_page}
use flyos.Pmm.Valid.{IsValid}
use flyos.Pmm.Alloc.{IsFull}
use flyos.Vmm.Defs.{
  Frames, Vmm, write_entry, is_present, is_huge, addr_of, table_entry, zero_page, next_table,
  split_huge_pd, fill_split, split_entry, pd_idx, pt_idx, page_entry, map_plain, map_in_pd,
  get_phys_pd,
}
use flyos.Vmm.Keeps.{in_use, alloc_page-Granted, ==-false}
use flyos.Vmm.Table.{
  NotIn, Clean, Clean-zero, AllUsed, AllUsed-mono, NotIn-fresh, addr_of-table_entry,
  is_huge-table_entry, Stepped, kept, grown, kept-Stepped, grown-Stepped, write_entry-other,
  write_entry-at,
}

module _ (t i : ℕ) (stops : Bool) (seen : List ℕ) (is : List (ℕ × Bool)) (s : Vmm) where
  -- `next_table` gives the next table of a walk, or all pages are in use.
  pub next_table-Stepped :
      IsValid s.pmm
      → in_use s.pmm 0 ≡ true
      → AllUsed s.pmm seen
      → Clean s.frames s.pmm seen ((i, stops) ∷ is) t
      → (stops && is_huge (s.frames t i)) ≡ false
      → (((next_table t i s).0 ≡ 0) × IsFull (next_table t i s).1.pmm)
        ⊎ Stepped t i seen is s (next_table t i s).0 (next_table t i s).1
  unfolding next_table
  next_table-Stepped v z au c st =
      let Step : ℕ × Vmm → Type 0 = λ r. Stepped t i seen is s r.0 r.1 in
      let e = s.frames t i in
      let (np, p') = alloc_page s.pmm in
      let g = alloc_page-Granted s.pmm v in
      elim (Bool-cases (is_present e)) [
        | inl pr ↦
            let k = kept-Stepped t i stops seen is s v c pr st in
            let s' = kept t i stops seen is s in
            let run : next_table t i s ≡ (addr_of (s'.frames t i), s') = rw pr in
            inr (subst Step (sym (run ∙ ap (λ x. (x, s')) k.address)) k)
        | inr pr ↦ elim (Bool-cases (np == 0)) [
          | inl y ↦ inl (rw (pr, y) (refl, g.full (ground (arith, y)) z))
          | inr n ↦
              let nz = ==-false n in
              let s' = grown t i stops seen is s np p' in
              let run : next_table t i s ≡ (addr_of (s'.frames t i), s') = rw (pr, n) in
              let at_i = write_entry-at (zero_page s.frames np) t i (table_entry np) in
              let address = ap addr_of at_i ∙ addr_of-table_entry np g.aligned g.small in
              let apart : np ≢ t =
                λ x. true≢false (sym c.0 ∙ ap (in_use s.pmm) (sym x) ∙ g.fresh nz) in
              let zeros : (j : ℕ) → s'.frames np j ≡ 0 = λ j. ground (arith, apart) in
              let k =
                grown-Stepped t i stops seen is s s' c au g nz g.small refl refl at_i
                  (λ v j vn vt. ground (arith, vn, vt))
                  (Clean-zero s'.frames p' (t ∷ seen) is np (g.taken nz)
                    (apart, NotIn-fresh s.pmm np seen (g.fresh nz) au) zeros) in
              inr (subst Step (sym (run ∙ ap (λ x. (x, s')) address)) k)
        ]
      ]

fill_split-other :
    (n i pt e : ℕ) (f : Frames) (v j : ℕ) → v ≢ pt → fill_split n i pt e f v j ≡ f v j
unfolding fill_split
fill_split-other zero i pt e f v j ne = refl
fill_split-other (suc n) i pt e f v j ne =
    fill_split-other n (i + 1) pt e (write_entry f pt i (split_entry e i)) v j ne
    ∙ write_entry-other f pt i (split_entry e i) v j ne

zero_page-other : (f : Frames) (pt v j : ℕ) → v ≢ pt → zero_page f pt v j ≡ f v j
zero_page-other f pt v j ne = ground (arith, ne)

-- After the split the entry is no huge page, and its table is clean; or all pages are in use.
data SplitOk (pd i : ℕ) (seen : List ℕ) (s : Vmm) (r : Bool × Vmm) : Type 0 where
  failed : r.0 ≡ false → IsFull r.1.pmm → SplitOk pd i seen s r
  same : r ≡ (true, s) → is_huge (s.frames pd i) ≡ false → SplitOk pd i seen s r
  made :
      (pt : ℕ)
      → r.0 ≡ true
      → Stepped pd i seen [] s pt r.1
      → is_huge (r.1.frames pd i) ≡ false
      → SplitOk pd i seen s r

module _ (pd i : ℕ) (seen : List ℕ) (s : Vmm) where
  split_huge_pd-SplitOk :
      IsValid s.pmm
      → in_use s.pmm 0 ≡ true
      → AllUsed s.pmm seen
      → Clean s.frames s.pmm seen ((i, true) ∷ []) pd
      → SplitOk pd i seen s (split_huge_pd pd i s)
  unfolding split_huge_pd
  split_huge_pd-SplitOk v z au c =
      let e = s.frames pd i in
      let (pt, p') = alloc_page s.pmm in
      let g = alloc_page-Granted s.pmm v in
      elim (Bool-cases (is_huge e)) [
        | inr h ↦ same (rw h) h
        | inl h ↦ elim (Bool-cases (pt == 0)) [
          | inl y ↦ rw (h, y) (failed refl (g.full (ground (arith, y)) z))
          | inr n ↦
              let nz = ==-false n in
              let filled = fill_split 512 0 pt e (zero_page s.frames pt) in
              let s' : Vmm = record s {
                frames = write_entry filled pd i (table_entry pt);
                pmm = p';
              } in
              let run : split_huge_pd pd i s ≡ (true, s') = rw (h, n) in
              let at_i = write_entry-at filled pd i (table_entry pt) in
              let apart : pt ≢ pd =
                λ x. true≢false (sym c.0 ∙ ap (in_use s.pmm) (sym x) ∙ g.fresh nz) in
              let k =
                grown-Stepped pd i true seen [] s s' c au g nz g.small refl refl at_i
                  (λ v j vn vt.
                    write_entry-other filled pd i (table_entry pt) v j vt
                    ∙ fill_split-other 512 0 pt e (zero_page s.frames pt) v j vn
                    ∙ zero_page-other s.frames pt v j vn)
                  (g.taken nz, (apart, NotIn-fresh s.pmm pt seen (g.fresh nz) au)) in
              subst (SplitOk pd i seen s) (sym run)
                (made pt refl k (ap is_huge at_i ∙ is_huge-table_entry pt g.aligned))
        ]
      ]

-- The frame that the last two levels of a walk lead to.
abbrev pub target : ℕ → ℕ → ℕ
target virt phys = phys / 4096 * 4096 + virt % 4096

page_entry-present : (phys flags : ℕ) → is_present (page_entry phys flags) ≡ true
page_entry-present phys flags = ground arith

page_entry-addr :
    (phys flags : ℕ) → phys < 2 ^ 52 → addr_of (page_entry phys flags) ≡ phys / 4096 * 4096
page_entry-addr phys flags h = ground (arith, h)

get_phys_pd-written :
    (virt phys flags pt e2 : ℕ) (f : Frames)
    → phys < 2 ^ 52
    → is_present e2 ≡ true
    → is_huge e2 ≡ false
    → addr_of e2 ≡ pt
    → get_phys_pd (write_entry f pt (pt_idx virt) (page_entry phys flags)) virt e2
      ≡ target virt phys
unfolding get_phys_pd
get_phys_pd-written virt phys flags pt e2 f small pr hu ad =
    let new = page_entry phys flags in
    let at_i : write_entry f pt (pt_idx virt) new (addr_of e2) (pt_idx virt) ≡ new =
      ap (λ t. write_entry f pt (pt_idx virt) new t (pt_idx virt)) ad
      ∙ write_entry-at f pt (pt_idx virt) new in
    let here : is_present (write_entry f pt (pt_idx virt) new (addr_of e2) (pt_idx virt)) ≡ true =
      ap is_present at_i ∙ page_entry-present phys flags in
    rw (pr, hu, here)
      (ap (λ x. addr_of x + virt % 4096) at_i
        ∙ ap (λ x. x + virt % 4096) (page_entry-addr phys flags small))

-- The page is mapped below the directory `pd`; the tables above keep their words.
pub record Mapped (virt phys pd : ℕ) (seen : List ℕ) (s s' : Vmm) : Type 0 where
  pub reads : get_phys_pd s'.frames virt (s'.frames pd (pd_idx virt)) ≡ target virt phys
  pub above :
      (v j : ℕ)
      → in_use s.pmm v ≡ true
      → v ≢ pd
      → ((u : ℕ) → NotIn u (pd ∷ seen) → u ≢ v)
      → s'.frames v j ≡ s.frames v j
  pub cr3 : s'.cr3 ≡ s.cr3

module _ (virt phys flags pd : ℕ) (seen : List ℕ) (small : phys < 2 ^ 52)
    (top : (u : ℕ) → NotIn u seen → u ≢ 0) where
  -- From a state in which the entry of the directory is no huge page.
  map_plain-Mapped :
      (s s3 : Vmm)
      → IsValid s3.pmm
      → in_use s3.pmm 0 ≡ true
      → AllUsed s3.pmm seen
      → Clean s3.frames s3.pmm seen ((pd_idx virt, true) ∷ []) pd
      → is_huge (s3.frames pd (pd_idx virt)) ≡ false
      → s3.cr3 ≡ s.cr3
      → ((v j : ℕ)
          → in_use s.pmm v ≡ true
          → v ≢ pd
          → (in_use s3.pmm v ≡ true) × (s3.frames v j ≡ s.frames v j))
      → let s' = map_plain virt phys flags pd s3 in IsFull s'.pmm ⊎ Mapped virt phys pd seen s s'
  unfolding map_plain
  map_plain-Mapped s s3 v z au c hu ec kept_words =
      elim (next_table-Stepped pd (pd_idx virt) true seen [] s3 v z au c hu) [
        | inl (none_left, full) ↦
            let none : ((next_table pd (pd_idx virt) s3).0 == 0) ≡ true =
              ground (arith, none_left) in
            inl (rw (hu, none) full)
        | inr st ↦
            let (pt, s4) = next_table pd (pd_idx virt) s3 in
            let (in_pt, notin) = st.clean in
            let new = page_entry phys flags in
            let at_pd : write_entry s4.frames pt (pt_idx virt) new pd (pd_idx virt)
                ≡ s4.frames pd (pd_idx virt) =
              write_entry-other s4.frames pt (pt_idx virt) new pd (pd_idx virt)
                (λ x. notin.0 (sym x)) in
            let some_table : (pt == 0) ≡ false = ground (arith, top pt notin.1) in
            let s5 : Vmm = record s4 { frames = write_entry s4.frames pt (pt_idx virt) new } in
            let run : map_plain virt phys flags pd s3 ≡ s5 = rw (hu, some_table) in
            inr (
              subst (Mapped virt phys pd seen s) (sym run) (record {
                reads =
                    ap (get_phys_pd (write_entry s4.frames pt (pt_idx virt) new) virt) at_pd
                    ∙ get_phys_pd-written virt phys flags pt (s4.frames pd (pd_idx virt)) s4.frames
                        small st.present (st.plain hu) st.address;
                above = λ v j u vp apart.
                    let (u3, w3) = kept_words v j u vp in
                    write_entry-other s4.frames pt (pt_idx virt) new v j
                      (λ x. apart pt notin (sym x))
                    ∙ st.same v j u3 (vp, tt)
                    ∙ w3;
                cr3 = st.cr3 ∙ ec;
              }))
      ]

  pub map_in_pd-Mapped :
      (s : Vmm)
      → IsValid s.pmm
      → in_use s.pmm 0 ≡ true
      → AllUsed s.pmm seen
      → Clean s.frames s.pmm seen ((pd_idx virt, true) ∷ []) pd
      → let s' = map_in_pd virt phys flags pd s in IsFull s'.pmm ⊎ Mapped virt phys pd seen s s'
  unfolding map_in_pd
  map_in_pd-Mapped s v z au c =
      let Done : Vmm → Type 0 = λ s'. IsFull s'.pmm ⊎ Mapped virt phys pd seen s s' in
      elim (split_huge_pd-SplitOk pd (pd_idx virt) seen s v z au c) [
        | failed no_split full ↦ inl (rw no_split full)
        | same run hu ↦
            let go : map_in_pd virt phys flags pd s ≡ map_plain virt phys flags pd s = rw run in
            subst Done (sym go) (map_plain-Mapped s s v z au c hu refl (λ t j u ne. (u, refl)))
        | made pt was_split st hu ↦
            let s3 = (split_huge_pd pd (pd_idx virt) s).1 in
            let go : map_in_pd virt phys flags pd s ≡ map_plain virt phys flags pd s3 =
              rw was_split in
            let c3 : Clean s3.frames s3.pmm seen ((pd_idx virt, true) ∷ []) pd = (
              st.used pd c.0,
              c.1,
              λ pr st'. subst (Clean s3.frames s3.pmm (pd ∷ seen) []) (sym st.address) st.clean,
            ) in
            subst Done (sym go) (
              map_plain-Mapped s s3 st.valid (st.used 0 z)
                (AllUsed-mono s.pmm s3.pmm seen st.used au) c3 hu st.cr3
                (λ t j u ne. (st.used t u, st.same t j u (ne, tt))))
      ]
