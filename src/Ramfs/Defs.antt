-- ===== src/Ramfs/Defs.antt =====
-- The nodes of kernel/fs/ramfs.c and the operations on directories. A C string is the list of its
-- characters before the terminator. Nodes and buffers live in blocks of the kernel heap: `nodes` is the
-- node at an address, `bytes` the byte at an index of the buffer at an address. `none`: a loop ran out
-- of fuel.
use flyos.Base.{
  ℕ, zero, suc, ◌-◌, Bool, true, false, ◌&&◌, ◌||◌, not, List, [], ◌∷◌, Option, none, some, ◌==◌,
  if◌then◌else◌, ◌>>=◌, take,
}
use flyos.Heap.Defs.{Heap, kmalloc, kfree, rounds}

pub data NodeType : Type 0 where
  file dir : NodeType

abbrev pub is_dir : NodeType → Bool
is_dir dir = true
is_dir file = false

pub record Node : Type 0 where
  pub name : List ℕ
  pub type : NodeType
  pub buffer : ℕ
  pub size : ℕ
  pub capacity : ℕ
  pub parent : ℕ
  pub children : ℕ
  pub next : ℕ

pub record Fs : Type 0 where
  pub nodes : ℕ → Node
  pub bytes : ℕ → ℕ → ℕ
  pub heap : Heap
  pub root : ℕ
  pub cwd : ℕ

abbrev pub put_node : (ℕ → Node) → ℕ → Node → ℕ → Node
put_node nodes p n q = if p == q then n else nodes q

unfoldable pub str_eq : List ℕ → List ℕ → Bool
str_eq [] [] = true
str_eq [] (y ∷ ys) = false
str_eq (x ∷ xs) [] = false
str_eq (x ∷ xs) (y ∷ ys) = (x == y) && str_eq xs ys

-- RAMFS_NAME_MAX
abbrev pub name_max : ℕ
name_max = 64

-- `sizeof(ramfs_node_t)`
abbrev pub node_size : ℕ
node_size = 120

abbrev pub new_node : NodeType → List ℕ → ℕ → Node
new_node type name parent = record {
  name = take (name_max - 1) name;
  type = type;
  buffer = 0;
  size = 0;
  capacity = 0;
  parent = parent;
  children = 0;
  next = 0;
}

-- The address of the new node, 0 when the heap has no room.
unfoldable pub node_alloc : NodeType → List ℕ → ℕ → Fs → Option (ℕ × Fs)
node_alloc type name parent fs = kmalloc fs.heap node_size >>= λ r.
    let fs' : Fs = record fs { heap = r.1 } in
    if r.0 == 0
    then some (0, fs')
    else some (r.0, record fs' { nodes = put_node fs.nodes r.0 (new_node type name parent) })

unfoldable pub init : Fs → Option Fs
unfolding node_alloc
init fs = node_alloc dir (47 ∷ []) 0 fs >>= λ r. some (record r.1 { root = r.0; cwd = r.0 })

unfoldable pub set_cwd : ℕ → Fs → Fs
set_cwd n fs = if not (n == 0) && is_dir (fs.nodes n).type then record fs { cwd = n } else fs

-- The loop of `ramfs_find_child` from the child `c` on.
unfoldable pub find_from : (fuel c : ℕ) → List ℕ → (ℕ → Node) → Option ℕ
find_from zero c name nodes = none
find_from (suc fuel) c name nodes =
    let rest = find_from fuel (nodes c).next name nodes in
    if c == 0 then some 0 else if str_eq (nodes c).name name then some c else rest

-- A directory has fewer children than the heap has room for blocks.
unfoldable pub find_child : ℕ → List ℕ → Fs → Option ℕ
find_child d name fs =
    if (d == 0) || not (is_dir (fs.nodes d).type)
    then some 0
    else find_from rounds (fs.nodes d).children name fs.nodes

-- `n->next = dir->children; dir->children = n;`
abbrev pub link_child : ℕ → ℕ → (ℕ → Node) → ℕ → Node
link_child d n nodes =
    let linked = put_node nodes n (record (nodes n) { next = (nodes d).children }) in
    put_node linked d (record (linked d) { children = n })

-- `ramfs_create_file` and `ramfs_mkdir`, which differ in the type of the node.
unfoldable pub create : NodeType → ℕ → List ℕ → Fs → Option (ℕ × Fs)
create type d name fs =
    if (d == 0) || not (is_dir (fs.nodes d).type)
    then some (0, fs)
    else find_child d name fs >>= λ c.
        if not (c == 0)
        then some (0, fs)
        else node_alloc type name d fs >>= λ r.
            if r.0 == 0
            then some r
            else some (r.0, record r.1 { nodes = link_child d r.0 r.1.nodes })

unfoldable pub create_file : ℕ → List ℕ → Fs → Option (ℕ × Fs)
unfolding create
create_file = create file

unfoldable pub mkdir : ℕ → List ℕ → Fs → Option (ℕ × Fs)
unfolding create
mkdir = create dir

-- The loop of `ramfs_unlink_node`: the child before `node`, 0 for the first place; `some none` when
-- the list ends.
unfoldable pub find_link : (fuel before c node : ℕ) → (ℕ → Node) → Option (Option ℕ)
find_link zero before c node nodes = none
find_link (suc fuel) before c node nodes =
    let rest = find_link fuel c (nodes c).next node nodes in
    if c == 0 then some none else if c == node then some (some before) else rest

-- `*pp = node->next;`
abbrev pub cut : (parent before node : ℕ) → (ℕ → Node) → ℕ → Node
cut parent before node nodes =
    if before == 0
    then put_node nodes parent (record (nodes parent) { children = (nodes node).next })
    else put_node nodes before (record (nodes before) { next = (nodes node).next })

abbrev pub free_buffer : ℕ → Heap → Option Heap
free_buffer p h = if p == 0 then some h else kfree h p

-- `false` for -1.
unfoldable pub unlink_node : ℕ → Fs → Option (Bool × Fs)
unlink_node node fs =
    let n = fs.nodes node in
    if (node == 0) || (n.parent == 0)
    then some (false, fs)
    else if is_dir n.type && not (n.children == 0)
    then some (false, fs)
    else find_link rounds 0 (fs.nodes n.parent).children node fs.nodes >>= λ found. elim found [
      | none ↦ some (false, fs)
      | some before ↦ free_buffer n.buffer fs.heap >>= λ h. kfree h node >>= λ h'.
          some (true, record fs { nodes = cut n.parent before node fs.nodes; heap = h' })
    ]
