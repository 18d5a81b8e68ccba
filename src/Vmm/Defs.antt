-- ===== src/Vmm/Defs.antt =====
-- The operations of kernel/mm/vmm.c on one address space. Physical memory is identity-mapped; a page
-- is its 512 words, so `frames` gives the word at an index of the page at a physical address. The
-- bits of an entry are read and set by arithmetic. Flushing the TLB and messages are left out.
use flyos.Base.{ℕ, zero, suc, ◌+◌, ◌*◌, ◌/◌, ◌%◌, ◌^◌, Bool, true, false, not, ◌==◌, if◌then◌else◌}
use flyos.Pmm.Defs.{Pmm, alloc_page}

abbrev pub Frames : Type 0
Frames = ℕ → ℕ → ℕ

abbrev pub write_entry : Frames → ℕ → ℕ → ℕ → Frames
write_entry f table i e t j = if t == table then if j == i then e else f t j else f t j

pub record Vmm : Type 0 where
  pub frames : Frames
  pub cr3 : ℕ
  pub pmm : Pmm

-- VMM_PRESENT, VMM_HUGE and VMM_USER are the bits 0, 7 and 2.
abbrev pub is_present : ℕ → Bool
is_present e = e % 2 == 1

abbrev pub is_huge : ℕ → Bool
is_huge e = e / 128 % 2 == 1

abbrev pub or_present : ℕ → ℕ
or_present e = if is_present e then e else e + 1

abbrev pub or_user : ℕ → ℕ
or_user e = if e / 4 % 2 == 1 then e else e + 4

-- `e & ADDR_MASK`: the bits 12 to 51
abbrev pub addr_of : ℕ → ℕ
addr_of e = e % 2 ^ 52 / 4096 * 4096

-- `np | VMM_PRESENT | VMM_WRITABLE | VMM_USER`, for the address of a page
abbrev pub table_entry : ℕ → ℕ
table_entry np = np + 7

abbrev pub zero_page : Frames → ℕ → Frames
zero_page f phys t j = if t == phys then 0 else f t j

-- The table's address, 0 if there is no page for it.
unfoldable pub next_table : (parent idx : ℕ) → Vmm → ℕ × Vmm
next_table parent idx s =
    let e = s.frames parent idx in
    let (np, pmm) = alloc_page s.pmm in
    let made : Vmm = record s {
      frames = write_entry (zero_page s.frames np) parent idx (table_entry np);
      pmm = pmm;
    } in
    let shared : Vmm = record s { frames = write_entry s.frames parent idx (or_user e) } in
    if is_present e
    then (addr_of (shared.frames parent idx), shared)
    else if np == 0
    then (0, record s { pmm = pmm })
    else (addr_of (made.frames parent idx), made)

-- The entry `i` of the table that replaces the huge page of the entry `e`.
abbrev pub split_entry : ℕ → ℕ → ℕ
split_entry e i = or_user (or_present (e / 2 ^ 21 * 2 ^ 21 + i * 4096 + e % 4096))

-- `for (i = i0; i < i0 + n; i++) pt[i] = …`
unfoldable pub fill_split : (n i pt e : ℕ) → Frames → Frames
fill_split zero i pt e f = f
fill_split (suc n) i pt e f = fill_split n (i + 1) pt e (write_entry f pt i (split_entry e i))

-- `false` for -1.
unfoldable pub split_huge_pd : (pd pd_idx : ℕ) → Vmm → Bool × Vmm
unfolding fill_split
split_huge_pd pd pd_idx s =
    let e = s.frames pd pd_idx in
    let (pt, pmm) = alloc_page s.pmm in
    let filled = fill_split 512 0 pt e (zero_page s.frames pt) in
    if not (is_huge e)
    then (true, s)
    else if pt == 0
    then (false, record s { pmm = pmm })
    else (true, record s { frames = write_entry filled pd pd_idx (table_entry pt); pmm = pmm })

abbrev pub pml4_idx : ℕ → ℕ
pml4_idx virt = virt / 2 ^ 39 % 512

abbrev pub pdpt_idx : ℕ → ℕ
pdpt_idx virt = virt / 2 ^ 30 % 512

abbrev pub pd_idx : ℕ → ℕ
pd_idx virt = virt / 2 ^ 21 % 512

abbrev pub pt_idx : ℕ → ℕ
pt_idx virt = virt / 2 ^ 12 % 512

-- `(phys & ~0xFFF) | (flags & 0xFFF) | VMM_PRESENT`
abbrev pub page_entry : ℕ → ℕ → ℕ
page_entry phys flags = or_present (phys / 4096 * 4096 + flags % 4096)

-- The last steps of `vmm_map`, in the page directory `pd`: after the split, and with it.
unfoldable pub map_plain : (virt phys flags pd : ℕ) → Vmm → Vmm
map_plain virt phys flags pd s =
    let (pt, s4) = next_table pd (pd_idx virt) s in
    if is_huge (s.frames pd (pd_idx virt))
    then s
    else if pt == 0
    then s4
    else record s4 { frames = write_entry s4.frames pt (pt_idx virt) (page_entry phys flags) }

unfoldable pub map_in_pd : (virt phys flags pd : ℕ) → Vmm → Vmm
map_in_pd virt phys flags pd s =
    let (split, s3) = split_huge_pd pd (pd_idx virt) s in
    if split then map_plain virt phys flags pd s3 else s3

unfoldable pub map : (virt phys flags : ℕ) → Vmm → Vmm
map virt phys flags s =
    let (pdpt, s1) = next_table (addr_of s.cr3) (pml4_idx virt) s in
    let (pd, s2) = next_table pdpt (pdpt_idx virt) s1 in
    if pdpt == 0 then s1 else if pd == 0 then s2 else map_in_pd virt phys flags pd s2

unfoldable pub unmap : ℕ → Vmm → Vmm
unmap virt s =
    let e4 = s.frames (addr_of s.cr3) (pml4_idx virt) in
    let e3 = s.frames (addr_of e4) (pdpt_idx virt) in
    let e2 = s.frames (addr_of e3) (pd_idx virt) in
    if not (is_present e4)
    then s
    else if not (is_present e3)
    then s
    else if not (is_present e2)
    then s
    else if is_huge e2
    then s
    else record s { frames = write_entry s.frames (addr_of e2) (pt_idx virt) 0 }

-- The two last levels of `vmm_get_phys`, from the entry of the page directory.
unfoldable pub get_phys_pd : Frames → (virt e2 : ℕ) → ℕ
get_phys_pd f virt e2 =
    let e1 = f (addr_of e2) (pt_idx virt) in
    if not (is_present e2)
    then 0
    else if is_huge e2
    then e2 / 2 ^ 21 * 2 ^ 21 + virt % 2 ^ 21
    else if not (is_present e1)
    then 0
    else addr_of e1 + virt % 4096

unfoldable pub get_phys : ℕ → Vmm → ℕ
unfolding get_phys_pd
get_phys virt s =
    let e4 = s.frames (addr_of s.cr3) (pml4_idx virt) in
    let e3 = s.frames (addr_of e4) (pdpt_idx virt) in
    if not (is_present e4)
    then 0
    else if not (is_present e3)
    then 0
    else get_phys_pd s.frames virt (s.frames (addr_of e3) (pd_idx virt))
