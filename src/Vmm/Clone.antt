-- ===== src/Vmm/Clone.antt =====
-- The copies of an address space that kernel/mm/vmm.c makes: `vmm_clone_pml4` and
-- `vmm_clone_pml4_deep`. Each of its nested loops is a function that counts down the entries left;
-- `false` says that the pages ran out.
use flyos.Base.{
  ℕ, zero, suc, ◌+◌, ◌*◌, ◌%◌, ◌^◌, Bool, true, false, ◌&&◌, not, ltb, leb, ◌==◌, if◌then◌else◌,
}
use flyos.Pmm.Defs.{alloc_page}
use flyos.Vmm.Defs.{Frames, Vmm, write_entry, is_present, is_huge, addr_of, zero_page}

-- `dst[i] = src[i]` for the words of a page
abbrev pub copy_words : Frames → (dst src : ℕ) → Frames
copy_words f dst src t j = if t == dst then f src j else f t j

unfoldable pub clone_pml4 : Vmm → ℕ × Vmm
clone_pml4 s =
    let (new_phys, pmm) = alloc_page s.pmm in
    if new_phys == 0
    then (0, record s { pmm = pmm })
    else (new_phys, record s { frames = copy_words s.frames new_phys (addr_of s.cr3); pmm = pmm })

unfoldable pub copy_page : ℕ → Vmm → ℕ × Vmm
copy_page src s =
    let (dst, pmm) = alloc_page s.pmm in
    if dst == 0
    then (0, record s { pmm = pmm })
    else (dst, record s { frames = copy_words s.frames dst src; pmm = pmm })

-- A new table: a page, zeroed.
unfoldable pub new_table : Vmm → ℕ × Vmm
new_table s =
    let (dst, pmm) = alloc_page s.pmm in
    if dst == 0
    then (0, record s { pmm = pmm })
    else (dst, record s { frames = zero_page s.frames dst; pmm = pmm })

abbrev pub put_entry : (table i e : ℕ) → Vmm → Vmm
put_entry table i e s = record s { frames = write_entry s.frames table i e }

-- What `fb_get_info` gives: the address, the pitch and the height of the frame buffer.
pub record FbInfo : Type 0 where
  pub addr : ℕ
  pub pitch : ℕ
  pub height : ℕ

abbrev pub in_fb : FbInfo → ℕ → Bool
in_fb fb frame =
    not (fb.addr == 0) && leb fb.addr frame && ltb frame ((fb.addr + fb.pitch * fb.height) % 2 ^ 64)

module _ (fb : FbInfo) where
  -- `for (l = i; l < i + n; l++)`
  unfoldable pub clone_pt : (n i src dst : ℕ) → Vmm → Bool × Vmm
  clone_pt zero i src dst s = (true, s)
  clone_pt (suc n) i src dst s =
      let e = s.frames src i in
      let (frame, s1) = copy_page (addr_of e) s in
      let absent = clone_pt n (i + 1) src dst (put_entry dst i 0 s) in
      let shared = clone_pt n (i + 1) src dst (put_entry dst i e s) in
      let copied = clone_pt n (i + 1) src dst (put_entry dst i (frame + e % 4096) s1) in
      if not (is_present e)
      then absent
      else if in_fb fb (addr_of e)
      then shared
      else if frame == 0
      then (false, s1)
      else copied

  -- `for (k = i; k < i + n; k++)`
  unfoldable pub clone_pd : (n i src dst : ℕ) → Vmm → Bool × Vmm
  clone_pd zero i src dst s = (true, s)
  clone_pd (suc n) i src dst s =
      let e = s.frames src i in
      let (table, s1) = new_table s in
      let (below, s2) = clone_pt 512 0 (addr_of e) table (put_entry dst i (table + e % 4096) s1) in
      let absent = clone_pd n (i + 1) src dst (put_entry dst i 0 s) in
      let shared = clone_pd n (i + 1) src dst (put_entry dst i e s) in
      let copied = clone_pd n (i + 1) src dst s2 in
      if not (is_present e)
      then absent
      else if is_huge e
      then shared
      else if table == 0
      then (false, s1)
      else if not below
      then (false, s2)
      else copied

  -- `for (j = i; j < i + n; j++)`
  unfoldable pub clone_pdpt : (n i src dst : ℕ) → Vmm → Bool × Vmm
  clone_pdpt zero i src dst s = (true, s)
  clone_pdpt (suc n) i src dst s =
      let e = s.frames src i in
      let (table, s1) = new_table s in
      let (below, s2) = clone_pd 512 0 (addr_of e) table (put_entry dst i (table + e % 4096) s1) in
      let absent = clone_pdpt n (i + 1) src dst (put_entry dst i 0 s) in
      let copied = clone_pdpt n (i + 1) src dst s2 in
      if not (is_present e)
      then absent
      else if table == 0
      then (false, s1)
      else if not below
      then (false, s2)
      else copied

  -- `for (i = i0; i < i0 + n; i++)`: the upper half is shared.
  unfoldable pub clone_entries : (n i src dst : ℕ) → Vmm → Bool × Vmm
  clone_entries zero i src dst s = (true, s)
  clone_entries (suc n) i src dst s =
      let e = s.frames src i in
      let (table, s1) = new_table s in
      let (below, s2) =
        clone_pdpt 512 0 (addr_of e) table (put_entry dst i (table + e % 4096) s1) in
      let kernel = clone_entries n (i + 1) src dst (put_entry dst i e s) in
      let absent = clone_entries n (i + 1) src dst (put_entry dst i 0 s) in
      let copied = clone_entries n (i + 1) src dst s2 in
      if leb 256 i
      then kernel
      else if not (is_present e)
      then absent
      else if table == 0
      then (false, s1)
      else if not below
      then (false, s2)
      else copied

  unfoldable pub clone_pml4_deep : ℕ → Vmm → ℕ × Vmm
  clone_pml4_deep src s =
      let (dst, s1) = new_table s in
      let (all, s2) = clone_entries 512 0 src dst s1 in
      if dst == 0 then (0, s1) else if all then (dst, s2) else (0, s2)
