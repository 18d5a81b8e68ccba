-- ===== src/Heap/Tests.antt =====
-- The heap at concrete inputs: one free block, and a heap with a live block of 144 bytes in front.
use flyos.Base.{
  ℕ, ◌+◌, ◌-◌, ◌^◌, ◌≤◌, ◌≡◌, refl, true, false, [], ◌∷◌, arith, Option, none, some, ◌⊎◌,
}
use flyos.Heap.Defs.{
  Store, Heap, write, init, need_of, alloc_loop, kmalloc, kfree, heap_start, heap_size,
}
use flyos.Heap.Spec
use flyos.Heap.Spec.{Seg, Segs, seg, total, merge, release, block_at}
use flyos.Heap.Valid.{IsHeap}
use flyos.Heap.Fit.{Fitted, NoFit}
use flyos.Heap.Api.{init-IsHeap, kmalloc-alloc}
use flyos.Heap.Free.{kfree-release}
use flyos.Heap.RoundTrip.{kmalloc-Fitted, kfree-kmalloc, kmalloc-wraps}

abbrev garbage : Store
garbage a = record { size = 7; is_free = false; next = 9; prev = 9 }

abbrev fresh : Heap
unfolding init
fresh = init garbage

fresh-IsHeap : IsHeap fresh (seg heap_size true ∷ [])
unfolding init
fresh-IsHeap = init-IsHeap garbage

abbrev ptr_of : Option (ℕ × Heap) → ℕ
ptr_of none = 0
ptr_of (some (ptr, h)) = ptr

kmalloc_runs : ptr_of (kmalloc fresh 100) ≡ heap_start + 32
unfolding init kmalloc need_of alloc_loop
kmalloc_runs = refl

-- A live block of 144 bytes, and the free rest.
abbrev busy : Heap
busy = record {
  store =
      write
        (write garbage heap_start
          (record { size = 144; is_free = false; next = heap_start + 144; prev = 0 }))
        (heap_start + 144) (record { size = 2097008; is_free = true; next = 0; prev = heap_start });
  head = heap_start;
}

abbrev busy_blocks : Segs
busy_blocks = seg 144 false ∷ seg 2097008 true ∷ []

busy-IsHeap : IsHeap busy busy_blocks
unfolding total
busy-IsHeap = record {
  head = refl;
  chain = (refl, omega arith, (refl, omega arith, tt));
  full = refl;
  sized = (omega arith, refl, (omega arith, refl, tt));
  merged = (refl, (refl, tt));
}

kmalloc_second : ptr_of (kmalloc busy 100) ≡ heap_start + 176
unfolding kmalloc need_of alloc_loop
kmalloc_second = refl

kmalloc-Fitted_example :
    (ptr : ℕ) × (h' : Heap) × (bs' : Segs) × (kmalloc busy 100 ≡ some (ptr, h'))
    × IsHeap h' bs'
    × (132 ≤ need_of 100)
    × (Fitted (need_of 100) heap_start ptr busy_blocks bs'
        ⊎ (NoFit (need_of 100) busy_blocks × (ptr ≡ 0) × (bs' ≡ busy_blocks)))
kmalloc-Fitted_example = kmalloc-Fitted 100 busy-IsHeap (omega arith) (omega arith)

kmalloc-alloc_example :
    (h' : Heap) × (kmalloc busy 100 ≡ some (heap_start + 176, h'))
    × IsHeap h' (seg 144 false ∷ seg 144 false ∷ seg 2096864 true ∷ [])
unfolding Spec.alloc need_of
kmalloc-alloc_example = kmalloc-alloc 100 busy-IsHeap (omega arith) (omega arith)

kfree-kmalloc_example :
    (ptr : ℕ) × (h' : Heap) × (kmalloc busy 100 ≡ some (ptr, h'))
    × ((ptr ≡ 0) ⊎ ((h'' : Heap) × (kfree h' ptr ≡ some h'') × IsHeap h'' busy_blocks))
kfree-kmalloc_example = kfree-kmalloc 100 busy-IsHeap (omega arith) (omega arith)

kfree-release_example :
    (h' : Heap) × (kfree busy (heap_start + 32) ≡ some h')
    × IsHeap h' (merge (release heap_start heap_start busy_blocks))
unfolding block_at
kfree-release_example = kfree-release heap_start busy-IsHeap refl refl

kmalloc-wraps_example : kmalloc busy (2 ^ 64 - 1) ≡ kmalloc busy 1
kmalloc-wraps_example = kmalloc-wraps busy (2 ^ 64 - 1) (omega arith) (omega arith)
