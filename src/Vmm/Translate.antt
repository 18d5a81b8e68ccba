-- ===== src/Vmm/Translate.antt =====
-- What `vmm_get_phys` answers after `vmm_map` and after `vmm_unmap`.
use flyos.Base.{
  ℕ, ◌+◌, ◌*◌, ◌/◌, ◌%◌, ◌^◌, ◌<◌, ◌≡◌, ◌≢◌, refl, Bool, true, false, ◌==◌, List, [], ◌∷◌, arith,
  Bool-cases, inl, inr, ◌⊎◌, ◌∙◌, subst, sym, ap,
}
use flyos.Pmm.Valid.{IsValid}
use flyos.Pmm.Alloc.{IsFull}
use flyos.Vmm.Defs
use flyos.Vmm.Defs.{
  Frames, Vmm, write_entry, is_present, is_huge, addr_of, next_table, pml4_idx, pdpt_idx, pd_idx,
  pt_idx, map_in_pd, unmap, get_phys, get_phys_pd,
}
use flyos.Vmm.Keeps.{in_use}
use flyos.Vmm.Table.{NotIn, Clean, Clean-in_use, Stepped, write_entry-other, write_entry-at}
use flyos.Vmm.Map.{next_table-Stepped, Mapped, map_in_pd-Mapped}

-- The indices of an address at the three upper levels.
abbrev pub levels : ℕ → List (ℕ × Bool)
levels virt = (pml4_idx virt, false) ∷ (pdpt_idx virt, false) ∷ (pd_idx virt, true) ∷ []

-- The allocator is valid, page 0 is in use, and the walk of `virt` meets each of its tables once.
pub record IsWalk (virt : ℕ) (s : Vmm) : Type 0 where
  pub valid : IsValid s.pmm
  pub zero_used : in_use s.pmm 0 ≡ true
  pub clean : Clean s.frames s.pmm (0 ∷ []) (levels virt) (addr_of s.cr3)

-- A walk with its upper tables known.
get_phys-below :
    (virt t4 t3 t2 : ℕ) (s : Vmm)
    → addr_of s.cr3 ≡ t4
    → is_present (s.frames t4 (pml4_idx virt)) ≡ true
    → addr_of (s.frames t4 (pml4_idx virt)) ≡ t3
    → is_present (s.frames t3 (pdpt_idx virt)) ≡ true
    → addr_of (s.frames t3 (pdpt_idx virt)) ≡ t2
    → get_phys virt s ≡ get_phys_pd s.frames virt (s.frames t2 (pd_idx virt))
unfolding get_phys
get_phys-below virt t4 t3 t2 s cr p4 a4 p3 a3 =
    let e4 : s.frames (addr_of s.cr3) (pml4_idx virt) ≡ s.frames t4 (pml4_idx virt) =
      ap (λ t. s.frames t (pml4_idx virt)) cr in
    let at3 : addr_of (s.frames (addr_of s.cr3) (pml4_idx virt)) ≡ t3 = ap addr_of e4 ∙ a4 in
    let e3 = ap (λ t. s.frames t (pdpt_idx virt)) at3 in
    let q4 = ap is_present e4 ∙ p4 in
    let q3 = ap is_present e3 ∙ p3 in
    rw (q4, q3)
      (ap (λ t. get_phys_pd s.frames virt (s.frames t (pd_idx virt))) (ap addr_of e3 ∙ a3))

is_zero : (n : ℕ) → n ≡ 0 → (n == 0) ≡ true
is_zero n e = ground (arith, e)

not_zero : (n : ℕ) → n ≢ 0 → (n == 0) ≡ false
not_zero n ne = ground (arith, ne)

-- The words at the two upper tables come through the last steps.
Mapped-get_phys :
    (virt phys t4 t3 t2 : ℕ) (s1 s2 s3 : Vmm)
    → addr_of s1.cr3 ≡ t4
    → in_use s1.pmm t4 ≡ true
    → is_present (s1.frames t4 (pml4_idx virt)) ≡ true
    → addr_of (s1.frames t4 (pml4_idx virt)) ≡ t3
    → NotIn t3 (t4 ∷ 0 ∷ [])
    → in_use s1.pmm t3 ≡ true
    → Stepped t3 (pdpt_idx virt) (t4 ∷ 0 ∷ []) ((pd_idx virt, true) ∷ []) s1 t2 s2
    → Mapped virt phys t2 (t3 ∷ t4 ∷ 0 ∷ []) s2 s3
    → get_phys virt s3 ≡ phys / 4096 * 4096 + virt % 4096
Mapped-get_phys virt phys t4 t3 t2 s1 s2 s3 cr u4 p4 a4 n3 u3 st m =
    let n2 =
      (Clean-in_use s2.frames s2.pmm (t3 ∷ t4 ∷ 0 ∷ []) ((pd_idx virt, true) ∷ []) t2 st.clean).1 in
    let e4 =
      m.above t4 (pml4_idx virt) (st.used t4 u4) (λ e. n2.1.0 (sym e)) (λ u n. n.1.1.0)
      ∙ st.same t4 (pml4_idx virt) u4 ((λ e. n3.0 (sym e)), tt) in
    let e3 = m.above t3 (pdpt_idx virt) (st.used t3 u3) (λ e. n2.0 (sym e)) (λ u n. n.1.0) in
    get_phys-below virt t4 t3 t2 s3 (ap addr_of (m.cr3 ∙ st.cr3) ∙ cr) (ap is_present e4 ∙ p4)
      (ap addr_of e4 ∙ a4) (ap is_present e3 ∙ st.present) (ap addr_of e3 ∙ st.address)
    ∙ m.reads

-- After `vmm_map(virt, phys, flags)` the address is translated to its place in the page of `phys`,
-- unless every physical page is in use.
pub map-get_phys :
    (virt phys flags : ℕ) (s : Vmm)
    → IsWalk virt s
    → phys < 2 ^ 52
    → let s' = Defs.map virt phys flags s in
      (get_phys virt s' ≡ phys / 4096 * 4096 + virt % 4096) ⊎ IsFull s'.pmm
unfolding Defs.map
map-get_phys virt phys flags s w small =
    let t4 = addr_of s.cr3 in
    let (t3, s1) = next_table t4 (pml4_idx virt) s in
    let (t2, s2) = next_table t3 (pdpt_idx virt) s1 in
    let Done : Vmm → Type 0 =
      λ s'. (get_phys virt s' ≡ phys / 4096 * 4096 + virt % 4096) ⊎ IsFull s'.pmm in
    let (c0, c1, c2) = w.clean in
    elim (next_table-Stepped t4 (pml4_idx virt) false (0 ∷ [])
      ((pdpt_idx virt, false) ∷ (pd_idx virt, true) ∷ []) s w.valid w.zero_used (w.zero_used, tt)
      w.clean refl) [
        | inl (none_left, full) ↦
            let stop : Defs.map virt phys flags s ≡ s1 = rw (is_zero t3 none_left) in
            subst Done (sym stop) (inr full)
        | inr st1 ↦
            let (u3, n3, c3) = st1.clean in
            let some3 = not_zero t3 n3.1.0 in
            let z1 = st1.used 0 w.zero_used in
            let u4 = st1.used t4 c0 in
            elim (next_table-Stepped t3 (pdpt_idx virt) false (t4 ∷ 0 ∷ [])
              ((pd_idx virt, true) ∷ []) s1 st1.valid z1 (u4, (z1, tt)) st1.clean refl) [
                | inl (none_left, full) ↦
                    let stop : Defs.map virt phys flags s ≡ s2 = rw (some3, is_zero t2 none_left) in
                    subst Done (sym stop) (inr full)
                | inr st2 ↦
                    let n2 =
                      (Clean-in_use s2.frames s2.pmm (t3 ∷ t4 ∷ 0 ∷ []) ((pd_idx virt, true) ∷ [])
                        t2 st2.clean).1 in
                    let s3 = map_in_pd virt phys flags t2 s2 in
                    let go : Defs.map virt phys flags s ≡ s3 = rw (some3, not_zero t2 n2.1.1.0) in
                    subst Done (sym go)
                      (elim (map_in_pd-Mapped virt phys flags t2 (t3 ∷ t4 ∷ 0 ∷ []) small
                        (λ u n. n.1.1.0) s2 st2.valid (st2.used 0 z1)
                        (st2.used t3 u3, (st2.used t4 u4, (st2.used 0 z1, tt))) st2.clean) [
                          | inl full ↦ inr full
                          | inr m ↦ inl (
                              Mapped-get_phys virt phys t4 t3 t2 s1 s2 s3 (ap addr_of st1.cr3) u4
                                st1.present st1.address n3 u3 st2 m)
                        ])
              ]
      ]

absent-pml4 :
    (virt : ℕ) (s s' : Vmm)
    → s' ≡ s
    → is_present (s.frames (addr_of s.cr3) (pml4_idx virt)) ≡ false
    → get_phys virt s' ≡ 0
unfolding get_phys
absent-pml4 virt s s' e n4 =
    let none_there : get_phys virt s ≡ 0 = rw n4 in ap (get_phys virt) e ∙ none_there

absent-pdpt :
    (virt : ℕ) (s s' : Vmm)
    → s' ≡ s
    → is_present (s.frames (addr_of s.cr3) (pml4_idx virt)) ≡ true
    → is_present (s.frames (addr_of (s.frames (addr_of s.cr3) (pml4_idx virt))) (pdpt_idx virt))
      ≡ false
    → get_phys virt s' ≡ 0
unfolding get_phys
absent-pdpt virt s s' e p4 n3 =
    let none_there : get_phys virt s ≡ 0 = rw (p4, n3) in ap (get_phys virt) e ∙ none_there

absent-pd :
    (virt : ℕ) (s s' : Vmm)
    → s' ≡ s
    → is_present (s.frames (addr_of s.cr3) (pml4_idx virt)) ≡ true
    → is_present (s.frames (addr_of (s.frames (addr_of s.cr3) (pml4_idx virt))) (pdpt_idx virt))
      ≡ true
    → is_present (
        s.frames
          (addr_of (s.frames (addr_of (s.frames (addr_of s.cr3) (pml4_idx virt))) (pdpt_idx virt)))
          (pd_idx virt))
      ≡ false
    → get_phys virt s' ≡ 0
unfolding get_phys
absent-pd virt s s' e p4 p3 n2 =
    let none_there : get_phys virt s ≡ 0 = rw (p4, p3, n2) in ap (get_phys virt) e ∙ none_there

cleared_pd :
    (virt e2 : ℕ) (f : Frames)
    → is_present e2 ≡ true
    → is_huge e2 ≡ false
    → f (addr_of e2) (pt_idx virt) ≡ 0
    → get_phys_pd f virt e2 ≡ 0
unfolding get_phys_pd
cleared_pd virt e2 f p h z =
    let gone : is_present (f (addr_of e2) (pt_idx virt)) ≡ false = ap is_present z in
    rw (p, h, gone)

-- After `vmm_unmap(virt)` the address has no translation, unless a huge page maps it: then nothing
-- changes.
pub unmap-get_phys :
    (virt : ℕ) (s : Vmm)
    → IsWalk virt s
    → (get_phys virt (unmap virt s) ≡ 0)
      ⊎ ((unmap virt s ≡ s)
          × (is_huge (
                s.frames
                  (addr_of
                    (s.frames (addr_of (s.frames (addr_of s.cr3) (pml4_idx virt))) (pdpt_idx virt)))
                  (pd_idx virt))
              ≡ true))
unfolding unmap
unmap-get_phys virt s w =
    let t4 = addr_of s.cr3 in
    let e4 = s.frames t4 (pml4_idx virt) in
    let t3 = addr_of e4 in
    let e3 = s.frames t3 (pdpt_idx virt) in
    let t2 = addr_of e3 in
    let e2 = s.frames t2 (pd_idx virt) in
    let t1 = addr_of e2 in
    let s' : Vmm = record s { frames = write_entry s.frames t1 (pt_idx virt) 0 } in
    let (c0, c1, below) = w.clean in
    elim (Bool-cases (is_present e4)) [
      | inr n4 ↦ inl (absent-pml4 virt s (unmap virt s) (rw n4) n4)
      | inl p4 ↦ elim (Bool-cases (is_present e3)) [
        | inr n3 ↦ inl (absent-pdpt virt s (unmap virt s) (rw (p4, n3)) p4 n3)
        | inl p3 ↦ elim (Bool-cases (is_present e2)) [
          | inr n2 ↦ inl (absent-pd virt s (unmap virt s) (rw (p4, p3, n2)) p4 p3 n2)
          | inl p2 ↦ elim (Bool-cases (is_huge e2)) [
            | inl h ↦ inr (rw (p4, p3, p2, h), h)
            | inr h ↦
                let (u3, n3, below3) = below p4 refl in
                let (u2, n2, below2) = below3 p3 refl in
                let (u1, n1) = below2 p2 h in
                let run : unmap virt s ≡ s' = rw (p4, p3, p2, h) in
                let k4 =
                  write_entry-other s.frames t1 (pt_idx virt) 0 t4 (pml4_idx virt)
                    (λ e. n1.1.1.0 (sym e)) in
                let k3 =
                  write_entry-other s.frames t1 (pt_idx virt) 0 t3 (pdpt_idx virt)
                    (λ e. n1.1.0 (sym e)) in
                let k2 =
                  write_entry-other s.frames t1 (pt_idx virt) 0 t2 (pd_idx virt)
                    (λ e. n1.0 (sym e)) in
                let cleared = write_entry-at s.frames t1 (pt_idx virt) 0 in
                inl (
                  ap (get_phys virt) run
                  ∙ get_phys-below virt t4 t3 t2 s' refl (ap is_present k4 ∙ p4) (ap addr_of k4)
                      (ap is_present k3 ∙ p3) (ap addr_of k3)
                  ∙ ap (get_phys_pd s'.frames virt) k2
                  ∙ cleared_pd virt e2 s'.frames p2 h cleared)
          ]
        ]
      ]
    ]
