-- ===== src/Ramfs/Tests.antt =====
-- A root directory with one empty file, on a heap with the blocks of the two nodes.
use flyos.Base.{
  ℕ, ◌+◌, ◌≡◌, refl, ◌≢◌, true, false, List, [], ◌∷◌, ◌==◌, if◌then◌else◌, arith, Option, none,
  some, ◌⊎◌, inl,
}
use flyos.Heap.Defs.{Store, Heap, heap_start, need_of, alloc_loop, kmalloc}
use flyos.Heap.Spec.{Segs, seg, total, block_at}
use flyos.Heap.Valid.{IsHeap}
use flyos.Heap.Fit.{NoFit}
use flyos.Ramfs.Defs.{
  node_size, Node, Fs, file, dir, str_eq, find_from, find_child, create, unlink_node,
}
use flyos.Ramfs.Path.{take_name, skip_slashes, walk, lookup}
use flyos.Ramfs.Data.{grow, enlarge, copy_bytes, store_bytes, load_bytes, minus_one, write, read}
use flyos.Ramfs.Enlarge.{IsFile, Refused}
use flyos.Ramfs.Contents.{Written, write-read}
use flyos.Ramfs.Chain.{first_named}
use flyos.Ramfs.Children.{IsDirectory, Created, create-find_child}
use flyos.Ramfs.Unlink.{Unlinked, unlink_node-IsDirectory}

abbrev pub top : ℕ
top = heap_start + 32

abbrev pub notes : ℕ
notes = heap_start + 192

abbrev two_blocks : Store
two_blocks a =
    if a == heap_start
    then record { size = 160; is_free = false; next = heap_start + 160; prev = 0 }
    else if a == heap_start + 160
    then record { size = 160; is_free = false; next = heap_start + 320; prev = heap_start }
    else record { size = 2096832; is_free = true; next = 0; prev = heap_start + 160 }

abbrev pub blocks : Segs
blocks = seg 160 false ∷ seg 160 false ∷ seg 2096832 true ∷ []

abbrev heap : Heap
heap = record { store = two_blocks; head = heap_start }

pub heap-IsHeap : IsHeap heap blocks
unfolding total
heap-IsHeap = record {
  head = refl;
  chain = (refl, omega arith, (refl, omega arith, (refl, omega arith, tt)));
  full = refl;
  sized = (omega arith, refl, (omega arith, refl, (omega arith, refl, tt)));
  merged = (refl, (refl, (refl, tt)));
}

abbrev root_node : Node
root_node = record {
  name = 47 ∷ [];
  type = dir;
  buffer = 0;
  size = 0;
  capacity = 0;
  parent = 0;
  children = notes;
  next = 0;
}

abbrev notes_node : Node
notes_node = record {
  name = 110 ∷ [];
  type = file;
  buffer = 0;
  size = 0;
  capacity = 0;
  parent = top;
  children = 0;
  next = 0;
}

abbrev pub fs : Fs
fs = record {
  nodes = λ p. if p == top then root_node else notes_node;
  bytes = λ p j. 0;
  heap = heap;
  root = top;
  cwd = top;
}

pub root-IsDirectory : IsDirectory top fs blocks (notes ∷ [])
unfolding block_at
root-IsDirectory = record {
  live = record {
    a = heap_start;
    block = seg 160 false;
    address = refl;
    at = refl;
    used = refl;
    room = omega arith;
  };
  dir = refl;
  few = omega arith;
  entries = (
    refl,
    record {
      live = record {
        a = heap_start + 160;
        block = seg 160 false;
        address = refl;
        at = refl;
        used = refl;
        room = omega arith;
      };
      parent = refl;
      apart = λ e. absurd (omega (arith, e));
    },
    tt,
    refl,
  );
}

pub notes-IsFile : IsFile notes fs blocks
notes-IsFile = record {
  here = λ e. absurd (omega (arith, e));
  file = refl;
  small = omega arith;
  within = omega arith;
  held = inl (refl, refl);
}

-- The path "/n" and, from the root, "./n".
lookup_runs : lookup (47 ∷ 110 ∷ []) fs ≡ some notes
unfolding lookup walk take_name skip_slashes find_child find_from str_eq
lookup_runs = refl

lookup_dot_runs : lookup (46 ∷ 47 ∷ 110 ∷ []) fs ≡ some notes
unfolding lookup walk take_name skip_slashes find_child find_from str_eq
lookup_dot_runs = refl

abbrev result_of : Option (ℕ × Fs) → ℕ × List ℕ
result_of none = (0, [])
result_of (some (r, fs')) = read notes 10 1 fs'

-- Three bytes at the start, and what is read from the second on.
write_runs : result_of (write notes (5 ∷ 6 ∷ 7 ∷ []) 0 fs) ≡ (2, 6 ∷ 7 ∷ [])
unfolding write enlarge grow kmalloc need_of alloc_loop copy_bytes store_bytes read load_bytes
write_runs = refl

write-read_example :
    (r : ℕ) × (fs' : Fs) × (bs' : Segs) × (write notes (5 ∷ 6 ∷ 7 ∷ []) 0 fs ≡ some (r, fs'))
    × IsHeap fs'.heap bs'
    × (((r ≡ 3) × Written notes (5 ∷ 6 ∷ 7 ∷ []) 0 fs fs' blocks bs')
        ⊎ ((r ≡ minus_one) × Refused fs fs' blocks bs'))
write-read_example =
    write-read notes (5 ∷ 6 ∷ 7 ∷ []) 0 fs blocks heap-IsHeap notes-IsFile (omega arith)
      (omega arith)

create-find_child_example :
    (r : ℕ) × (fs' : Fs) × (bs' : Segs) × (create file top (98 ∷ []) fs ≡ some (r, fs'))
    × IsHeap fs'.heap bs'
    × (((r ≡ 0) × (fs' ≡ fs) × (first_named fs.nodes (98 ∷ []) (notes ∷ []) ≢ 0))
        ⊎ ((r ≡ 0)
            × (first_named fs.nodes (98 ∷ []) (notes ∷ []) ≡ 0)
            × NoFit (need_of node_size) blocks
            × Refused fs fs' blocks bs')
        ⊎ ((first_named fs.nodes (98 ∷ []) (notes ∷ []) ≡ 0)
            × Created file top (98 ∷ []) r fs fs' blocks bs' (notes ∷ [])))
create-find_child_example =
    create-find_child file top (98 ∷ []) fs blocks (notes ∷ []) heap-IsHeap root-IsDirectory
      (omega arith)

unlink_node-IsDirectory_example :
    (fs' : Fs) × (bs' : Segs) × (unlink_node notes fs ≡ some (true, fs'))
    × IsHeap fs'.heap bs'
    × Unlinked top notes fs fs' blocks bs' (notes ∷ [])
unlink_node-IsDirectory_example =
    unlink_node-IsDirectory top notes 0 fs blocks (notes ∷ []) heap-IsHeap root-IsDirectory
      (λ out. out.0 refl) refl (inl refl) ((λ e. absurd (omega (arith, e))), tt)
      (λ e. absurd (omega (arith, e)))
