-- ===== src/Ramfs/Children.antt =====
-- `ramfs_find_child`, `ramfs_create_file` and `ramfs_mkdir` on the children of a directory.
use flyos.Base.{
  ℕ, suc, ◌-◌, ◌<◌, ◌≡◌, refl, ◌≢◌, true, false, List, [], ◌∷◌, ◌==◌, arith, ◌∙◌, sym, ap, some,
  Bool-cases, inl, inr, ◌⊎◌, length, take,
}
use flyos.Heap.Defs.{need_of, Heap, kmalloc, rounds}
use flyos.Heap.Spec.{Segs}
use flyos.Heap.Valid.{IsHeap}
use flyos.Heap.Fit.{NoFit}
use flyos.Ramfs.Defs.{
  Node, Fs, NodeType, is_dir, put_node, node_size, name_max, new_node, node_alloc, str_eq,
  find_child, link_child, create,
}
use flyos.Ramfs.Memory.{IsLive, kmalloc-IsLive}
use flyos.Ramfs.Enlarge.{Refused}
use flyos.Ramfs.Chain.{
  Entries, NotIn, first_named, find_from-first_named, Entries-nodes, Entries-live, Entries-fresh,
  Entries-apart, first_named-nodes,
}

-- `d` is the node of a directory with the children `ps`.
pub record IsDirectory (d : ℕ) (fs : Fs) (bs : Segs) (ps : List ℕ) : Type 0 where
  pub live : IsLive bs d node_size
  pub dir : is_dir (fs.nodes d).type ≡ true
  pub few : length ps < rounds
  pub entries : Entries fs.nodes bs d (fs.nodes d).children ps

str_eq_refl : (s : List ℕ) → str_eq s s ≡ true
unfolding str_eq
str_eq_refl [] = refl
str_eq_refl (x ∷ s) = ground (arith, str_eq_refl s)

-- `ramfs_find_child` always returns, and returns the first of the children with the name, or NULL
-- where there is none.
pub find_child-first_named :
    (d : ℕ) (name : List ℕ) (fs : Fs) (bs : Segs) (ps : List ℕ)
    → IsDirectory d fs bs ps
    → find_child d name fs ≡ some (first_named fs.nodes name ps)
unfolding find_child
find_child-first_named d name fs bs ps i =
    let nonzero : (d == 0) ≡ false = ground (arith, i.live.address) in
    rw (nonzero, i.dir)
      (find_from-first_named fs.nodes bs d (fs.nodes d).children name ps rounds i.few i.entries)

-- `r` is a new child of `d`, with the first 63 characters of the name.
pub record Created (type : NodeType) (d : ℕ) (name : List ℕ) (r : ℕ) (fs fs' : Fs) (bs bs' : Segs)
    (ps : List ℕ) : Type 0 where
  pub directory : IsDirectory d fs' bs' (r ∷ ps)
  pub node : fs'.nodes r ≡ record (new_node type name d) { next = (fs.nodes d).children }
  pub fresh : (q k : ℕ) → IsLive bs q k → IsLive bs' q k × (q ≢ r)
  pub others : (g : ℕ) → g ≢ r → g ≢ d → fs'.nodes g ≡ fs.nodes g
  pub bytes : fs'.bytes ≡ fs.bytes
  pub found : find_child d (take (name_max - 1) name) fs' ≡ some r
  pub other_names :
      (other : List ℕ)
      → str_eq (take (name_max - 1) name) other ≡ false
      → find_child d other fs' ≡ find_child d other fs

unfoldable linked : (type : NodeType) (d r : ℕ) → List ℕ → Heap → Fs → Fs
linked type d r name h fs = record fs {
  nodes = link_child d r (put_node fs.nodes r (new_node type name d));
  heap = h;
}

linked-bytes :
    (type : NodeType) (d r : ℕ) (name : List ℕ) (h : Heap) (fs : Fs)
    → (linked type d r name h fs).bytes ≡ fs.bytes
unfolding linked
linked-bytes type d r name h fs = refl

module _ (type : NodeType) (d r : ℕ) (name : List ℕ) (h : Heap) (fs : Fs) (bs bs' : Segs)
    (ps : List ℕ) (i : IsDirectory d fs bs ps) (few : suc (length ps) < rounds)
    (fresh : (q k : ℕ) → IsLive bs q k → IsLive bs' q k × (q ≢ r))
    (live : IsLive bs' r node_size) where
  abbrev after : Fs
  after = linked type d r name h fs

  rd : (r == d) ≡ false
  rd = let ne = (fresh d node_size i.live).1 in ground arith

  rr : (r == r) ≡ true
  rr = ground arith

  dd : (d == d) ≡ true
  dd = ground arith

  dr : (d == r) ≡ false
  dr = let ne = (fresh d node_size i.live).1 in ground arith

  linked-node : after.nodes r ≡ record (new_node type name d) { next = (fs.nodes d).children }
  unfolding linked
  linked-node = rw (dr, rr, rd) refl

  linked-dir : after.nodes d ≡ record (fs.nodes d) { children = r }
  unfolding linked
  linked-dir = rw (dd, rd) refl

  linked-others : (g : ℕ) → g ≢ r → g ≢ d → after.nodes g ≡ fs.nodes g
  unfolding linked
  linked-others g ne ne' =
      let a : (r == g) ≡ false = ground arith in
      let b : (d == g) ≡ false = ground arith in rw (a, b) refl

  abbrev middle : ℕ → Node
  middle = put_node fs.nodes r (after.nodes r)

  middle-same : (p : ℕ) → r ≢ p → middle p ≡ fs.nodes p
  middle-same p ne = let e : (r == p) ≡ false = ground arith in rw e refl

  after-same : (p : ℕ) → d ≢ p → after.nodes p ≡ middle p
  after-same p ne = elim (Bool-cases (r == p)) [
    | inl t ↦ let e : r ≡ p = ground arith in rw t (ap after.nodes (sym e))
    | inr t ↦ rw t (linked-others p (λ e. absurd (ground arith)) (λ e. ne (sym e)))
  ]

  out_d : NotIn d ps
  out_d = Entries-apart fs.nodes bs d (fs.nodes d).children ps i.entries

  out_r : NotIn r ps
  out_r =
      Entries-fresh fs.nodes bs d (fs.nodes d).children r ps (λ q k m. (fresh q k m).1) i.entries

  linked-entries : Entries after.nodes bs' d (after.nodes d).children (r ∷ ps)
  linked-entries =
      let c = (fs.nodes d).children in
      let kept =
        Entries-live fs.nodes bs bs' d c r ps (λ q k m ne. (fresh q k m).0) out_r i.entries in
      let moved =
        Entries-nodes middle after.nodes bs' d c d ps after-same out_d
          (Entries-nodes fs.nodes middle bs' d c r ps middle-same out_r kept) in
      (
        rw linked-dir refl,
        record { live = live; parent = rw linked-node refl; apart = (fresh d node_size i.live).1 },
        out_r,
        rw linked-node moved,
      )

  linked-IsDirectory : IsDirectory d after bs' (r ∷ ps)
  linked-IsDirectory = record {
    live = (fresh d node_size i.live).0;
    dir = rw linked-dir i.dir;
    few = few;
    entries = linked-entries;
  }

  linked-named : (s : List ℕ) → first_named after.nodes s ps ≡ first_named fs.nodes s ps
  linked-named s =
      first_named-nodes middle after.nodes d s ps after-same out_d
      ∙ first_named-nodes fs.nodes middle r s ps middle-same out_r

  linked-Created : Created type d name r fs after bs bs' ps
  linked-Created = record {
    directory = linked-IsDirectory;
    node = linked-node;
    fresh = fresh;
    others = linked-others;
    bytes = linked-bytes type d r name h fs;
    found =
        find_child-first_named d (take (name_max - 1) name) after bs' (r ∷ ps) linked-IsDirectory
        ∙ rw linked-node (rw (str_eq_refl (take (name_max - 1) name)) refl);
    other_names = λ s ne.
        find_child-first_named d s after bs' (r ∷ ps) linked-IsDirectory
        ∙ rw linked-node (rw ne (ap some (linked-named s)))
        ∙ sym (find_child-first_named d s fs bs ps i);
  }

create-found :
    (type : NodeType) (d c : ℕ) (name : List ℕ) (fs : Fs)
    → (d == 0) ≡ false
    → is_dir (fs.nodes d).type ≡ true
    → find_child d name fs ≡ some c
    → (c == 0) ≡ false
    → create type d name fs ≡ some (0, fs)
unfolding create
create-found type d c name fs a b e ne = rw (a, b) (rw e (rw ne refl))

create-full :
    (type : NodeType) (d : ℕ) (name : List ℕ) (fs : Fs) {h : Heap}
    → (d == 0) ≡ false
    → is_dir (fs.nodes d).type ≡ true
    → find_child d name fs ≡ some 0
    → kmalloc fs.heap node_size ≡ some (0, h)
    → create type d name fs ≡ some (0, record fs { heap = h })
unfolding create node_alloc
create-full type d name fs a b e k = rw (a, b) (rw e (rw k refl))

create-linked :
    (type : NodeType) (d : ℕ) (name : List ℕ) (fs : Fs) {r : ℕ} {h : Heap}
    → (d == 0) ≡ false
    → is_dir (fs.nodes d).type ≡ true
    → find_child d name fs ≡ some 0
    → kmalloc fs.heap node_size ≡ some (r, h)
    → (r == 0) ≡ false
    → create type d name fs ≡ some (r, linked type d r name h fs)
unfolding create node_alloc linked
create-linked type d name fs a b e k ne = rw (a, b) (rw e (rw k (rw ne (rw ne refl))))

linked-IsHeap :
    (type : NodeType) (d r : ℕ) (name : List ℕ) (h : Heap) (fs : Fs) {bs : Segs}
    → IsHeap h bs
    → IsHeap (linked type d r name h fs).heap bs
unfolding linked
linked-IsHeap type d r name h fs v = v

-- `ramfs_create_file` and `ramfs_mkdir` on a directory with fewer than 65536 children always return. Where
-- a child has the name they return NULL with no change. Where no child has it and no free block of the heap
-- has room for a node, they return NULL, and nodes, bytes and the blocks in use are as before. Otherwise they
-- return a node of its own, which becomes the first of the directory's children: it is found under its name,
-- which is cut to 63 characters, every other name finds what it found, and other nodes and all buffers are
-- as before.
pub create-find_child :
    (type : NodeType) (d : ℕ) (name : List ℕ) (fs : Fs) (bs : Segs) (ps : List ℕ)
    → IsHeap fs.heap bs
    → IsDirectory d fs bs ps
    → suc (length ps) < rounds
    → (r : ℕ) × (fs' : Fs) × (bs' : Segs) × (create type d name fs ≡ some (r, fs'))
      × IsHeap fs'.heap bs'
      × (((r ≡ 0) × (fs' ≡ fs) × (first_named fs.nodes name ps ≢ 0))
          ⊎ ((r ≡ 0)
              × (first_named fs.nodes name ps ≡ 0)
              × NoFit (need_of node_size) bs
              × Refused fs fs' bs bs')
          ⊎ ((first_named fs.nodes name ps ≡ 0) × Created type d name r fs fs' bs bs' ps))
create-find_child type d name fs bs ps v i few =
    let nonzero : (d == 0) ≡ false = ground (arith, i.live.address) in
    let found = find_child-first_named d name fs bs ps i in
    elim (Bool-cases (first_named fs.nodes name ps == 0)) [
      | inr t ↦ (
        0,
        fs,
        bs,
        create-found type d (first_named fs.nodes name ps) name fs nonzero i.dir found t,
        v,
        inl (refl, refl, λ e. absurd (ground arith)),
      )
      | inl t ↦
          let empty : first_named fs.nodes name ps ≡ 0 = ground arith in
          let absent = found ∙ ap some empty in
          let (r, h, bs', k, w, fresh, out) =
            kmalloc-IsLive node_size v (omega arith) (omega arith) in
          elim out [
            | inl z ↦ (
              0,
              record fs { heap = h },
              bs',
              create-full type d name fs nonzero i.dir absent (rw (sym z.0) k),
              w,
              inr (
                  inl (
                    refl,
                    empty,
                    z.1,
                    record { nodes = refl; bytes = refl; blocks = λ q k m. (fresh q k m).0 },
                  )),
            )
            | inr live ↦ (
              r,
              linked type d r name h fs,
              bs',
              create-linked type d name fs nonzero i.dir absent k (ground (arith, live.address)),
              linked-IsHeap type d r name h fs w,
              inr (inr (empty, linked-Created type d r name h fs bs bs' ps i few fresh live)),
            )
          ]
    ]
