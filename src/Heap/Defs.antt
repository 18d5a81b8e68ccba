-- ===== src/Heap/Defs.antt =====
-- The state and the operations of kernel/mm/heap.c. `Store` is the header at each address; a pointer
-- is an address, NULL is 0. The payload bytes of the blocks are not part of the model.
use flyos.Base.{
  ℕ, zero, suc, ◌+◌, ◌-◌, ◌*◌, ◌/◌, ◌%◌, ◌^◌, Bool, true, false, ◌&&◌, ◌||◌, Option, none, some,
  ltb, leb, ◌==◌, if◌then◌else◌, ◌>>=◌,
}

-- `block_t`
pub record Block : Type 0 where
  pub size : ℕ
  pub is_free : Bool
  pub next : ℕ
  pub prev : ℕ

abbrev pub Store : Type 0
Store = ℕ → Block

abbrev pub write : Store → ℕ → Block → Store
write s a b x = if a == x then b else s x

pub record Heap : Type 0 where
  pub store : Store
  pub head : ℕ

abbrev pub heap_start : ℕ
heap_start = 0xFFFF800000000000

-- HEAP_PAGES * PAGE_SIZE
abbrev pub heap_size : ℕ
heap_size = 2097152

-- `sizeof(block_t)`
abbrev pub header_size : ℕ
header_size = 32

abbrev u64 : ℕ → ℕ
u64 n = n % 2 ^ 64

abbrev align16 : ℕ → ℕ
align16 x = u64 (x + 15) / 16 * 16

-- The loops run on this fuel: more than one round for each header that fits into the heap.
abbrev pub rounds : ℕ
rounds = 65537

-- What `heap_init` leaves: one free block.
unfoldable pub init : Store → Heap
init s = record {
  store = write s heap_start (record { size = heap_size; is_free = true; next = 0; prev = 0 });
  head = heap_start;
}

-- `b->size += b->next->size; b->next = b->next->next; if (b->next) b->next->prev = b;`
unfoldable pub absorb : Store → ℕ → Store
absorb s b =
    let c = s (s b).next in
    let s' = write s b (record (s b) { size = u64 ((s b).size + c.size); next = c.next }) in
    if c.next == 0 then s' else write s' c.next (record (s' c.next) { prev = b })

-- The test of the loop body in `merge_all`.
unfoldable pub can_merge : Store → ℕ → Bool
can_merge s b = (s b).is_free && (s (s b).next).is_free && (u64 (b + (s b).size) == (s b).next)

-- The loop of `merge_all`, from the block `b` on. `none`: the fuel ran out.
unfoldable pub merge_loop : ℕ → ℕ → Store → Option Store
unfolding absorb can_merge
merge_loop zero b s = none
merge_loop (suc fuel) b s =
    let merged = merge_loop fuel b (absorb s b) in
    let onward = merge_loop fuel (s b).next s in
    if b == 0 || ((s b).next == 0) then some s else if can_merge s b then merged else onward

-- `need` of `kmalloc`: the size of the block for a request.
unfoldable pub need_of : ℕ → ℕ
need_of size =
    let need = align16 (u64 (size + header_size)) in
    if ltb need (header_size + 16) then header_size + 16 else need

-- The split in `kmalloc`: the rest of `b` becomes a free block of its own.
unfoldable pub split : Store → ℕ → ℕ → Store
split s b need =
    let nb = b + need in
    let rest : Block = record {
      size = (s b).size - need;
      is_free = true;
      next = (s b).next;
      prev = b;
    } in
    let s1 : Store = write s nb rest in
    let after = (s1 b).next in
    let s2 : Store = if after == 0 then s1 else write s1 after (record (s1 after) { prev = nb }) in
    write s2 b (record (s2 b) { next = nb; size = need })

-- What `kmalloc` does with the block that it finds.
unfoldable pub take : Store → ℕ → ℕ → Store
unfolding split
take s b need =
    let s' = if leb (need + header_size + 64) (s b).size then split s b need else s in
    write s' b (record (s' b) { is_free = false })

-- The loop of `kmalloc`, from the block `b` on: the pointer that it returns, and the headers.
unfoldable pub alloc_loop : ℕ → ℕ → ℕ → Store → Option (ℕ × Store)
unfolding take
alloc_loop zero b need s = none
alloc_loop (suc fuel) b need s =
    let onward = alloc_loop fuel (s b).next need s in
    if b == 0
    then some (0, s)
    else if (s b).is_free && leb need (s b).size
    then some (b + header_size, take s b need)
    else onward

unfoldable pub kmalloc : Heap → ℕ → Option (ℕ × Heap)
kmalloc h size =
    let found = alloc_loop rounds h.head (need_of size) h.store in
    if size == 0 then some (0, h) else found >>= λ r. some (r.0, record h { store = r.1 })

unfoldable pub kfree : Heap → ℕ → Option Heap
kfree h addr =
    let b = addr - header_size in
    let freed = write h.store b (record (h.store b) { is_free = true }) in
    let merged = merge_loop rounds h.head freed >>= λ s. some (record h { store = s }) in
    if (addr == 0) || ltb addr (heap_start + header_size) || leb (heap_start + heap_size) addr
    then some h
    else if (h.store b).is_free
    then some h
    else merged
