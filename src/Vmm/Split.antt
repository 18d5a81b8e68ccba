-- ===== src/Vmm/Split.antt =====
-- Splitting a huge page changes no translation.
use flyos.Base.{
  ℕ, zero, suc, ◌+◌, ◌*◌, ◌/◌, ◌%◌, ◌^◌, ◌<◌, ◌≡◌, ◌≢◌, refl, true, ◌&&◌, ◌==◌, if◌then◌else◌,
  arith, ltb, leb, ◌∙◌, sym, ap, Bool-cases, inl, inr, subst, true≢false,
}
use flyos.Pmm.Defs.{alloc_page}
use flyos.Pmm.Valid.{IsValid}
use flyos.Vmm.Defs.{
  Frames, Vmm, write_entry, is_present, is_huge, addr_of, zero_page, table_entry, or_user,
  or_present, split_entry, fill_split, split_huge_pd, pt_idx, get_phys_pd,
}
use flyos.Vmm.Keeps.{in_use, alloc_page-Granted, ==-false}
use flyos.Vmm.Table.{
  write_entry-at, write_entry-other, addr_of-table_entry, is_huge-table_entry,
  is_present-table_entry,
}

fill_split-at :
    (n i pt e : ℕ) (f : Frames) (j : ℕ)
    → fill_split n i pt e f pt j ≡ (if leb i j && ltb j (i + n) then split_entry e j else f pt j)
unfolding fill_split
fill_split-at zero i pt e f j = ground arith
fill_split-at (suc n) i pt e f j =
    let rest = fill_split-at n (i + 1) pt e (write_entry f pt i (split_entry e i)) j in
    let old : write_entry f pt i (split_entry e i) pt j
        ≡ (if j == i then split_entry e i else f pt j) =
      ground arith in
    elim (Bool-cases (j == i)) [
      | inl y ↦
          let same : j ≡ i = ground (arith, y) in
          ground (arith, rest, old, y, ap (split_entry e) same)
      | inr n ↦ ground (arith, rest, old, n)
    ]

split_entry-present : (e i : ℕ) → is_present (split_entry e i) ≡ true
split_entry-present e i = ground arith

or_present-addr : (e : ℕ) → addr_of (or_present e) ≡ addr_of e
or_present-addr e = ground arith

or_user-addr : (e : ℕ) → addr_of (or_user e) ≡ addr_of e
or_user-addr e = ground arith

split_entry-addr :
    (e i : ℕ) → e < 2 ^ 52 → i < 512 → addr_of (split_entry e i) ≡ e / 2 ^ 21 * 2 ^ 21 + i * 4096
split_entry-addr e i small h =
    let plain = e / 2 ^ 21 * 2 ^ 21 + i * 4096 + e % 4096 in
    let base : addr_of plain ≡ e / 2 ^ 21 * 2 ^ 21 + i * 4096 = omega arith in
    or_user-addr (or_present plain) ∙ or_present-addr plain ∙ base

filled-at : (pt e j : ℕ) (f : Frames) → j < 512 → fill_split 512 0 pt e f pt j ≡ split_entry e j
filled-at pt e j f h = ground (arith, fill_split-at 512 0 pt e f j, h)

split_get_phys :
    (virt pt e : ℕ) (f : Frames)
    → e < 2 ^ 52
    → pt % 4096 ≡ 0
    → pt < 2 ^ 52
    → f pt (pt_idx virt) ≡ split_entry e (pt_idx virt)
    → get_phys_pd f virt (table_entry pt) ≡ e / 2 ^ 21 * 2 ^ 21 + virt % 2 ^ 21
unfolding get_phys_pd
split_get_phys virt pt e f small al lo at_pt =
    let there = is_present-table_entry pt al in
    let plain = is_huge-table_entry pt al in
    let e1 = ap (λ t. f t (pt_idx virt)) (addr_of-table_entry pt al lo) ∙ at_pt in
    let here = ap is_present e1 ∙ split_entry-present e (pt_idx virt) in
    let sum : e / 2 ^ 21 * 2 ^ 21 + pt_idx virt * 4096 + virt % 4096
        ≡ e / 2 ^ 21 * 2 ^ 21 + virt % 2 ^ 21 =
      omega arith in
    rw (there, plain, here)
      (ap (λ x. addr_of x + virt % 4096) e1
        ∙ ap (λ x. x + virt % 4096) (split_entry-addr e (pt_idx virt) small (omega arith))
        ∙ sum)

huge_get_phys :
    (virt e : ℕ) (f : Frames)
    → is_present e ≡ true
    → is_huge e ≡ true
    → get_phys_pd f virt e ≡ e / 2 ^ 21 * 2 ^ 21 + virt % 2 ^ 21
unfolding get_phys_pd
huge_get_phys virt e f p h = rw (p, h)

-- Splitting the huge page of an entry changes no translation through that entry, also where no page
-- is left for the new table.
pub split_huge_pd-get_phys :
    (virt pd i : ℕ) (s : Vmm)
    → IsValid s.pmm
    → in_use s.pmm pd ≡ true
    → is_present (s.frames pd i) ≡ true
    → is_huge (s.frames pd i) ≡ true
    → s.frames pd i < 2 ^ 52
    → let s' = (split_huge_pd pd i s).1 in
      get_phys_pd s'.frames virt (s'.frames pd i) ≡ get_phys_pd s.frames virt (s.frames pd i)
unfolding split_huge_pd
split_huge_pd-get_phys virt pd i s v used p h small =
    let e = s.frames pd i in
    let (pt, p') = alloc_page s.pmm in
    let g = alloc_page-Granted s.pmm v in
    let filled = fill_split 512 0 pt e (zero_page s.frames pt) in
    let f' = write_entry filled pd i (table_entry pt) in
    let Same : Frames → Type 0 = λ f. get_phys_pd f virt (f pd i) ≡ get_phys_pd s.frames virt e in
    elim (Bool-cases (pt == 0)) [
      | inl y ↦
          let run : (split_huge_pd pd i s).1.frames ≡ s.frames = rw (h, y) in
          subst Same (sym run) refl
      | inr n ↦
          let run : (split_huge_pd pd i s).1.frames ≡ f' = rw (h, n) in
          let nz = ==-false n in
          let apart : pt ≢ pd =
            λ x. true≢false (sym used ∙ ap (in_use s.pmm) (sym x) ∙ g.fresh nz) in
          let j = pt_idx virt in
          let at_pd = write_entry-at filled pd i (table_entry pt) in
          let at_pt =
            write_entry-other filled pd i (table_entry pt) pt j apart
            ∙ filled-at pt e j (zero_page s.frames pt) (omega arith) in
          let below = split_get_phys virt pt e f' small g.aligned g.small at_pt in
          let before = huge_get_phys virt e s.frames p h in
          subst Same (sym run) (ap (get_phys_pd f' virt) at_pd ∙ below ∙ sym before)
    ]
