-- ===== src/Ramfs/Enlarge.antt =====
-- The buffer of a file, and the growth of the buffer in `ramfs_write`.
use flyos.Base.{
  ℕ, ◌*◌, ◌^◌, ◌≤◌, ◌<◌, ◌≡◌, refl, ◌≢◌, Bool, true, false, ◌==◌, leb, arith, sym, some,
  if◌then◌else◌, Bool-cases, inl, inr, ◌⊎◌,
}
use flyos.Heap.Defs.{Heap, kmalloc}
use flyos.Heap.Spec.{Segs}
use flyos.Heap.Valid.{IsHeap}
use flyos.Ramfs.Defs.{Node, Fs, is_dir, put_node, free_buffer}
use flyos.Ramfs.Data.{copy_bytes, grow, enlarge}
use flyos.Ramfs.Memory.{IsLive, kmalloc-IsLive, free_buffer-IsLive}
use flyos.Ramfs.Bytes.{grow-enough, copy_bytes-at, copy_bytes-Outside}

-- `f` is the node of a file; its buffer, if it has one, is a block of the heap with room for the
-- capacity.
pub record IsFile (f : ℕ) (fs : Fs) (bs : Segs) : Type 0 where
  pub here : f ≢ 0
  pub file : is_dir (fs.nodes f).type ≡ false
  pub small : (fs.nodes f).capacity < 2 ^ 63
  pub within : (fs.nodes f).size ≤ (fs.nodes f).capacity
  pub held :
      (((fs.nodes f).buffer ≡ 0) × ((fs.nodes f).capacity ≡ 0))
      ⊎ IsLive bs (fs.nodes f).buffer (fs.nodes f).capacity

-- The blocks other than the buffer of `f` keep their place and their bytes, and other nodes stay.
pub record Apart (f : ℕ) (fs fs' : Fs) (bs bs' : Segs) : Type 0 where
  pub blocks : (q k : ℕ) → IsLive bs q k → q ≢ (fs.nodes f).buffer → IsLive bs' q k
  pub bytes : (q k j : ℕ) → IsLive bs q k → q ≢ (fs.nodes f).buffer → fs'.bytes q j ≡ fs.bytes q j
  pub nodes : (g : ℕ) → g ≢ f → fs'.nodes g ≡ fs.nodes g

-- The buffer of `f` has room for `need` bytes, and the contents of the file are kept.
pub record Enlarged (f need : ℕ) (fs fs' : Fs) (bs bs' : Segs) : Type 0 where
  pub file : IsFile f fs' bs'
  pub large : need ≤ (fs'.nodes f).capacity
  pub size : (fs'.nodes f).size ≡ (fs.nodes f).size
  pub kept :
      (j : ℕ)
      → j < (fs.nodes f).size
      → fs'.bytes (fs'.nodes f).buffer j ≡ fs.bytes (fs.nodes f).buffer j
  pub buffer :
      ((fs'.nodes f).buffer ≡ (fs.nodes f).buffer)
      ⊎ ((q k : ℕ) → IsLive bs q k → q ≢ (fs'.nodes f).buffer)

-- Only the heap has changed, and every block that was handed out still is.
pub record Refused (fs fs' : Fs) (bs bs' : Segs) : Type 0 where
  pub nodes : fs'.nodes ≡ fs.nodes
  pub bytes : fs'.bytes ≡ fs.bytes
  pub blocks : (q k : ℕ) → IsLive bs q k → IsLive bs' q k

unfoldable moved : (f c ptr : ℕ) → Heap → Fs → Fs
moved f c ptr h fs =
    let n = fs.nodes f in
    record fs {
      nodes = put_node fs.nodes f (record n { buffer = ptr; capacity = c });
      bytes = if n.buffer == 0 then fs.bytes else copy_bytes n.size 0 ptr n.buffer fs.bytes;
      heap = h;
    }

moved-heap :
    (f c ptr : ℕ) (h : Heap) (fs : Fs) {bs : Segs}
    → IsHeap h bs
    → IsHeap (moved f c ptr h fs).heap bs
unfolding moved
moved-heap f c ptr h fs v = v

module _ (f need : ℕ) (fs : Fs) (bs : Segs) (i : IsFile f fs bs) where
  abbrev n : Node
  n = fs.nodes f

  module _ (c ptr : ℕ) (h : Heap) (bs1 bs' : Segs) (le : need ≤ c) (grown : n.capacity ≤ c)
      (small : c < 2 ^ 63) (fresh : (q k : ℕ) → IsLive bs q k → IsLive bs1 q k × (q ≢ ptr))
      (live : IsLive bs' ptr c)
      (others : (q k : ℕ) → IsLive bs1 q k → q ≢ n.buffer → IsLive bs' q k) where
    moved-kept : (j : ℕ) → j < n.size → (moved f c ptr h fs).bytes ptr j ≡ fs.bytes n.buffer j
    unfolding moved
    moved-kept j lt = elim i.held [
      | inl (z, none_held) ↦ absurd (omega (arith, i.within))
      | inr l ↦
          let ne : (n.buffer == 0) ≡ false = ground (arith, l.address) in
          rw ne (
            copy_bytes-at n.size 0 ptr n.buffer j fs.bytes
              (λ e. (fresh n.buffer n.capacity l).1 (sym e)) (omega arith) (omega arith))
    ]

    moved-Apart : Apart f fs (moved f c ptr h fs) bs bs'
    unfolding moved
    moved-Apart = record {
      blocks = λ q k m ne. others q k (fresh q k m).0 ne;
      bytes = λ q k j m ne. elim (Bool-cases (n.buffer == 0)) [
        | inl t ↦ rw t refl
        | inr t ↦ rw t (copy_bytes-Outside n.size 0 ptr n.buffer q j fs.bytes (inl (fresh q k m).1))
      ];
      nodes = λ g ne. ground arith;
    }

    moved-Enlarged : Enlarged f need fs (moved f c ptr h fs) bs bs'
    unfolding moved
    moved-Enlarged =
        let same : (f == f) ≡ true = ground arith in
        record {
          file = record {
            here = i.here;
            file = rw same i.file;
            small = rw same small;
            within = rw same (omega (arith, i.within));
            held = rw same (inr live);
          };
          large = rw same le;
          size = rw same refl;
          kept = λ j lt. rw same (moved-kept j lt);
          buffer = rw same (inr (λ q k m. (fresh q k m).1));
        }

enlarge-eq :
    (f need : ℕ) (fs : Fs) {c ptr : ℕ} {h h' : Heap}
    → leb need (fs.nodes f).capacity ≡ false
    → grow 64 (if (fs.nodes f).capacity == 0 then 64 else (fs.nodes f).capacity) need ≡ some c
    → kmalloc fs.heap c ≡ some (ptr, h)
    → (ptr == 0) ≡ false
    → free_buffer (fs.nodes f).buffer h ≡ some h'
    → enlarge f need fs ≡ some (true, moved f c ptr h' fs)
unfolding enlarge moved
enlarge-eq f need fs t g k ne e = rw (t, g) (rw k (rw ne (rw e refl)))

enlarge-full :
    (f need : ℕ) (fs : Fs) {c : ℕ} {h : Heap}
    → leb need (fs.nodes f).capacity ≡ false
    → grow 64 (if (fs.nodes f).capacity == 0 then 64 else (fs.nodes f).capacity) need ≡ some c
    → kmalloc fs.heap c ≡ some (0, h)
    → enlarge f need fs ≡ some (false, record fs { heap = h })
unfolding enlarge
enlarge-full f need fs t g k = rw (t, g) (rw k refl)

stay-Apart : (f : ℕ) (fs : Fs) (bs : Segs) → Apart f fs fs bs bs
stay-Apart f fs bs = record {
  blocks = λ q k m ne. m;
  bytes = λ q k j m ne. refl;
  nodes = λ g ne. refl;
}

stay-Enlarged :
    (f need : ℕ) (fs : Fs) (bs : Segs)
    → IsFile f fs bs
    → leb need (fs.nodes f).capacity ≡ true
    → Enlarged f need fs fs bs bs
stay-Enlarged f need fs bs i t = record {
  file = i;
  large = ground arith;
  size = refl;
  kept = λ j lt. refl;
  buffer = inl refl;
}

enlarge-same :
    (f need : ℕ) (fs : Fs)
    → leb need (fs.nodes f).capacity ≡ true
    → enlarge f need fs ≡ some (true, fs)
unfolding enlarge
enlarge-same f need fs t = rw t refl

abbrev start_of : ℕ → ℕ
start_of cap = if cap == 0 then 64 else cap

start_of_bounds :
    (cap need : ℕ)
    → leb need cap ≡ false
    → cap < 2 ^ 63
    → need ≤ 2 ^ 62
    → (start_of cap < 2 ^ 63) × (need ≤ start_of cap * 2 ^ 63) × (cap ≤ start_of cap) × (0 < need)
start_of_bounds cap need t lt small = ground arith

abbrev Grown : (f need : ℕ) (fs : Fs) (bs : Segs) → Type 0
Grown f need fs bs =
    (ok : Bool) × (fs' : Fs) × (bs' : Segs) × (enlarge f need fs ≡ some (ok, fs'))
    × IsHeap fs'.heap bs'
    × (((ok ≡ true) × Enlarged f need fs fs' bs bs' × Apart f fs fs' bs bs')
        ⊎ ((ok ≡ false) × Refused fs fs' bs bs'))

module _ (f need : ℕ) (fs : Fs) (bs : Segs) (i : IsFile f fs bs)
    (t : leb need (fs.nodes f).capacity ≡ false) (c : ℕ)
    (g : grow 64 (start_of (fs.nodes f).capacity) need ≡ some c) (le : need ≤ c)
    (grown : (fs.nodes f).capacity ≤ c) (small : c < 2 ^ 63) (ptr : ℕ) (h1 : Heap) (bs1 : Segs)
    (k : kmalloc fs.heap c ≡ some (ptr, h1)) (v1 : IsHeap h1 bs1)
    (fresh : (q k : ℕ) → IsLive bs q k → IsLive bs1 q k × (q ≢ ptr)) where
  grow-Refused : ptr ≡ 0 → Grown f need fs bs
  grow-Refused z = (
    false,
    record fs { heap = h1 },
    bs1,
    enlarge-full f need fs t g (rw (sym z) k),
    v1,
    inr (refl, record { nodes = refl; bytes = refl; blocks = λ q k m. (fresh q k m).0 }),
  )

  grow-Enlarged : IsLive bs1 ptr c → Grown f need fs bs
  grow-Enlarged live =
      let held : ((fs.nodes f).buffer ≡ 0) ⊎ IsLive bs1 (fs.nodes f).buffer (fs.nodes f).capacity =
        elim i.held [
          | inl z ↦ inl z.0
          | inr l ↦ inr (fresh (fs.nodes f).buffer (fs.nodes f).capacity l).0
        ] in
      let (h', bs', e, v', others, only) = free_buffer-IsLive (fs.nodes f).buffer v1 held in
      let ne : ptr ≢ (fs.nodes f).buffer = elim i.held [
        | inl z ↦ λ same. absurd (omega (arith, z.0, live.address))
        | inr l ↦ λ same. (fresh (fs.nodes f).buffer (fs.nodes f).capacity l).1 (sym same)
      ] in
      let live' = others ptr c live ne in
      let nonzero : (ptr == 0) ≡ false = ground (arith, live.address) in
      (
        true,
        moved f c ptr h' fs,
        bs',
        enlarge-eq f need fs t g k nonzero e,
        moved-heap f c ptr h' fs v',
        inl (
          refl,
          moved-Enlarged f need fs bs i c ptr h' bs1 bs' le grown small fresh live' others,
          moved-Apart f need fs bs i c ptr h' bs1 bs' le grown small fresh live' others,
        ),
      )

-- The buffer of a file grows to the needed size with its contents, or the heap is full.
pub enlarge_lem :
    (f need : ℕ) (fs : Fs) (bs : Segs)
    → IsHeap fs.heap bs
    → IsFile f fs bs
    → need ≤ 2 ^ 62
    → Grown f need fs bs
enlarge_lem f need fs bs v i small = elim (Bool-cases (leb need (fs.nodes f).capacity)) [
  | inl t ↦ (
    true,
    fs,
    bs,
    enlarge-same f need fs t,
    v,
    inl (refl, stay-Enlarged f need fs bs i t, stay-Apart f fs bs),
  )
  | inr t ↦
      let (a, b, d, pos) = start_of_bounds (fs.nodes f).capacity need t i.small small in
      let (c, g, le, grown, lt) = grow-enough 63 (start_of (fs.nodes f).capacity) need a small b in
      let (ptr, h1, bs1, k, v1, fresh, out) = kmalloc-IsLive c v (omega arith) (omega arith) in
      elim out [
        | inl z ↦ grow-Refused f need fs bs i t c g le (omega arith) lt ptr h1 bs1 k v1 fresh z.0
        | inr live ↦
            grow-Enlarged f need fs bs i t c g le (omega arith) lt ptr h1 bs1 k v1 fresh live
      ]
]
