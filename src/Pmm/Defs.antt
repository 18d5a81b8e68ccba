-- ===== src/Pmm/Defs.antt =====
-- The state and the operations of kernel/mm/pmm.c. The static variables are the fields of `Pmm`;
-- a function takes them and returns them. A `uint64_t` sum keeps its wrap-around.
use flyos.Base.{
  ℕ, zero, suc, ◌+◌, ◌-◌, ◌*◌, ◌/◌, ◌%◌, ◌^◌, not, ◌&&◌, Option, none, some, ltb, leb, ◌==◌, ◌>>=◌,
  if◌then◌else◌,
}
use flyos.Pmm.Bitmap.{Bitmap, bitmap_set, bitmap_clear, bitmap_test}
use flyos.Pmm.Multiboot.{Memory, Entry, read32, walk_tags}

abbrev pub page_size : ℕ
page_size = 4096

-- MAX_MEMORY, 4 GB
abbrev pub max_memory : ℕ
max_memory = 4294967296

abbrev pub u64 : ℕ → ℕ
u64 n = n % 2 ^ 64

-- `x & ~(PAGE_SIZE - 1ULL)`
abbrev pub align_down : ℕ → ℕ
align_down x = x / 4096 * 4096

-- `(x + PAGE_SIZE - 1) & ~(PAGE_SIZE - 1ULL)`
abbrev pub align_up : ℕ → ℕ
align_up x = align_down (u64 (x + 4095))

pub record Pmm : Type 0 where
  pub bitmap : Bitmap
  pub total_pages : ℕ
  pub used_pages : ℕ
  pub search_hint : ℕ

-- The body of the loop of `mark_used`.
unfoldable pub mark_page : Pmm → ℕ → Pmm
mark_page s p =
    if ltb p s.total_pages && not (bitmap_test s.bitmap p)
    then record s { bitmap = bitmap_set s.bitmap p; used_pages = u64 (s.used_pages + 1) }
    else s

-- `for (a = s; a < e; a += PAGE_SIZE)`, on fuel.
unfoldable pub mark_loop : ℕ → ℕ → ℕ → Pmm → Pmm
unfolding mark_page
mark_loop zero a e s = s
mark_loop (suc fuel) a e s =
    let rest = mark_loop fuel (u64 (a + page_size)) e (mark_page s (a / page_size)) in
    if ltb a e then rest else s

unfoldable pub mark_used : ℕ → ℕ → Pmm → Pmm
unfolding mark_loop
mark_used start end s =
    mark_loop (align_down end / page_size + 1) (align_up start) (align_down end) s

-- Clearing the bit of a page in use, in `pmm_init`.
unfoldable pub release_page : Pmm → ℕ → Pmm
release_page s p =
    if ltb p s.total_pages && bitmap_test s.bitmap p
    then record s { bitmap = bitmap_clear s.bitmap p; used_pages = u64 (s.used_pages + 2 ^ 64 - 1) }
    else s

-- `for (i = i0; i < i0 + n; i++) if (!bitmap_test(i)) …`: the first free page of the range.
unfoldable pub find_free : Bitmap → ℕ → ℕ → Option ℕ
find_free bitmap zero i = none
find_free bitmap (suc n) i =
    let rest = find_free bitmap n (i + 1) in if bitmap_test bitmap i then rest else some i

-- What both loops of `pmm_alloc_page` do with the page that they find.
unfoldable pub take_page : Pmm → ℕ → ℕ × Pmm
take_page s i = (
  i * page_size,
  record s {
    bitmap = bitmap_set s.bitmap i;
    used_pages = u64 (s.used_pages + 1);
    search_hint = i + 1;
  },
)

-- The physical address, 0 if there is no page, and the new state.
unfoldable pub alloc_page : Pmm → ℕ × Pmm
unfolding find_free take_page
alloc_page s = elim (find_free s.bitmap (s.total_pages - s.search_hint) s.search_hint) [
  | some i ↦ take_page s i
  | none ↦ elim (find_free s.bitmap s.search_hint 0) [ some i ↦ take_page s i | none ↦ (0, s) ]
]

unfoldable pub free_page : Pmm → ℕ → Pmm
free_page s phys =
    let page = phys / page_size in
    if ltb page s.total_pages && bitmap_test s.bitmap page
    then record s {
      bitmap = bitmap_clear s.bitmap page;
      used_pages = u64 (s.used_pages + 2 ^ 64 - 1);
      search_hint = if ltb page s.search_hint then page else s.search_hint;
    }
    else s

unfoldable pub free_pages : Pmm → ℕ
free_pages s = u64 (s.total_pages + 2 ^ 64 - s.used_pages)

-- The loop of `pmm_init` over the pages of an available region, on fuel.
unfoldable pub release_loop : ℕ → ℕ → ℕ → Pmm → Pmm
unfolding release_page
release_loop zero a e2 s = s
release_loop (suc fuel) a e2 s =
    let rest = release_loop fuel (u64 (a + page_size)) e2 (release_page s (a / page_size)) in
    if leb (u64 (a + page_size)) e2 then rest else s

-- `if (r_end > max_addr) max_addr = r_end;`, for available memory
unfoldable pub max_addr_step : Entry → ℕ → ℕ
max_addr_step ent max_addr =
    let r_end = u64 (ent.addr + ent.len) in
    if ent.type == 1 then if ltb max_addr r_end then r_end else max_addr else max_addr

abbrev pub clamp_memory : ℕ → ℕ
clamp_memory a = if ltb max_memory a then max_memory else a

unfoldable pub release_step : Entry → Pmm → Pmm
unfolding release_loop
release_step ent s =
    let e2 = align_down (clamp_memory (u64 (ent.addr + ent.len))) in
    if ent.type == 1 then release_loop (e2 / page_size + 1) (align_up ent.addr) e2 s else s

-- `for (i = i0; i < i0 + n; i++) bitmap_set(i);`
unfoldable pub set_range : ℕ → ℕ → Bitmap → Bitmap
set_range zero i bitmap = bitmap
set_range (suc n) i bitmap = set_range n (i + 1) (bitmap_set bitmap i)

-- All pages of the machine in use, before the available ones are released.
unfoldable pub all_used : ℕ → Pmm
unfolding set_range
all_used max_addr =
    let total = clamp_memory max_addr / page_size in
    record {
      bitmap = set_range total 0 (λ _. 0);
      total_pages = total;
      used_pages = total;
      search_hint = 0;
    }

-- The reservations that end `pmm_init`: the low 8 MB, the kernel, the information block.
unfoldable pub reserve : ℕ → ℕ → ℕ → ℕ → Pmm → Pmm
unfolding mark_used
reserve kernel_start kernel_end mb size s =
    mark_used mb (mb + size) (mark_used kernel_start kernel_end (mark_used 0 0x800000 s))

-- The two walks of `pmm_init` over the block at `mb`: the end of memory, and the releases.
unfoldable pub find_max_addr : Memory → ℕ → Option ℕ
unfolding max_addr_step
find_max_addr m mb = walk_tags m max_addr_step (read32 m mb + 1) (mb + 8) (mb + read32 m mb) 0

unfoldable pub release_available : Memory → ℕ → Pmm → Option Pmm
unfolding release_step
release_available m mb s = walk_tags m release_step (read32 m mb + 1) (mb + 8) (mb + read32 m mb) s

-- `pmm_init(mb_info_phys)`, with the addresses of the linker's symbols. `none`: the walk faults or
-- does not end.
unfoldable pub init : Memory → (kernel_start kernel_end mb : ℕ) → Option Pmm
init m kernel_start kernel_end mb = do
  max_addr ← find_max_addr m mb
  s ← release_available m mb (all_used max_addr)
  some (reserve kernel_start kernel_end mb (read32 m mb) s)
