-- ===== src/Ramfs/Memory.antt =====
-- The addresses that the kernel heap has handed out, across its calls.
use flyos.Base.{
  ℕ, subst, ◌+◌, ◌^◌, ◌≤◌, ◌<◌, ◌≡◌, refl, ◌≢◌, true, false, ◌&&◌, [], ◌∷◌, ◌==◌, arith, ◌∙◌, sym,
  ap, some, Bool-cases, inl, inr, ◌⊎◌,
}
use flyos.Heap.Defs.{need_of, Heap, kmalloc, kfree, heap_start}
use flyos.Heap.Spec.{Seg, Segs, seg, merge_from, merge, release, block_at}
use flyos.Heap.Valid.{Sized, IsHeap, merge_from-nil, merge_from-join, merge_from-keep}
use flyos.Heap.Fit.{NoFit, Fitted, block_at-range}
use flyos.Heap.Free.{kfree-release, release-Sized}
use flyos.Heap.RoundTrip.{kmalloc-Fitted}
use flyos.Ramfs.Defs.{free_buffer}

-- The heap has handed out the block behind the address `ptr`, with room for `n` bytes.
pub record IsLive (bs : Segs) (ptr n : ℕ) : Type 0 where
  pub a : ℕ
  pub block : Seg
  pub address : ptr ≡ a + 32
  pub at : block_at a heap_start bs ≡ some block
  pub used : block.is_free ≡ false
  pub room : n + 32 ≤ block.size

block_at-release :
    (a c p : ℕ) (bs : Segs) {d : Seg}
    → block_at c p bs ≡ some d
    → c ≢ a
    → block_at c p (release a p bs) ≡ some d
unfolding block_at release
block_at-release a c p [] e ne = e
block_at-release a c p (b ∷ bs) {d} e ne =
    ground (arith, block_at-release a c (p + b.size) bs {d = d})

block_at-merge_from :
    (c p : ℕ) (b : Seg) (bs : Segs) {d : Seg}
    → block_at c p (b ∷ bs) ≡ some d
    → d.is_free ≡ false
    → block_at c p (merge_from b bs) ≡ some d
unfolding block_at
block_at-merge_from c p b [] e used = rw (merge_from-nil b) e
block_at-merge_from c p b (x ∷ bs) {d} e used = elim (Bool-cases (b.is_free && x.is_free)) [
  | inl t ↦
      rw (merge_from-join b x bs t)
        (block_at-merge_from c p (seg (b.size + x.size) true) bs (ground arith) used)
  | inr t ↦
      rw (merge_from-keep b x bs t)
        (ground (arith, block_at-merge_from c (p + b.size) x bs {d = d}))
]

block_at-merge :
    (c p : ℕ) (bs : Segs) {d : Seg}
    → block_at c p bs ≡ some d
    → d.is_free ≡ false
    → block_at c p (merge bs) ≡ some d
unfolding merge
block_at-merge c p [] e used = e
block_at-merge c p (b ∷ bs) e used = block_at-merge_from c p b bs e used

-- A block that is in use after one was marked free was in use before, and is another.
block_at-released :
    (a c p : ℕ) (bs : Segs) {d : Seg}
    → block_at c p (release a p bs) ≡ some d
    → d.is_free ≡ false
    → (block_at c p bs ≡ some d) × (c ≢ a)
unfolding block_at release
block_at-released a c p [] e used = absurd (ground arith)
block_at-released a c p (b ∷ bs) {d} e used = elim (Bool-cases (p == a)) [
  | inl t ↦ ground arith
  | inr t ↦ elim (Bool-cases (p == c)) [
    | inl same ↦ ground arith
    | inr other ↦
        let (was, ne) = block_at-released a c (p + b.size) bs {d = d} (ground arith) used in
        (rw other was, ne)
  ]
]

-- A free block that was joined from two.
block_at-joined :
    (c p : ℕ) (b x : Seg) (bs : Segs) {d : Seg}
    → 48 ≤ x.size
    → block_at c p (seg (b.size + x.size) true ∷ bs) ≡ some d
    → d.is_free ≡ false
    → block_at c p (b ∷ x ∷ bs) ≡ some d
unfolding block_at
block_at-joined c p b x bs {d} large e used = elim (Bool-cases (p == c)) [
  | inl same ↦ absurd (ground arith)
  | inr other ↦
      let later : block_at c (p + b.size + x.size) bs ≡ some d =
        (let at : p + (b.size + x.size) ≡ p + b.size + x.size = omega arith in
          subst (λ y. block_at c y bs ≡ some d) at (ground arith)) in
      let (lo, hi) = block_at-range c (p + b.size + x.size) bs later in
      let past : (p + b.size == c) ≡ false = ground arith in rw (other, past) later
]

-- A block that is in use after merging was there before.
block_at-merged_from :
    (c p : ℕ) (b : Seg) (bs : Segs) {d : Seg}
    → Sized (b ∷ bs)
    → block_at c p (merge_from b bs) ≡ some d
    → d.is_free ≡ false
    → block_at c p (b ∷ bs) ≡ some d
unfolding block_at
block_at-merged_from c p b [] {d} z e used =
    subst (λ x. block_at c p x ≡ some d) (merge_from-nil b) e
block_at-merged_from c p b (x ∷ bs) {d} (l, al, (l', al', z)) e used =
    elim (Bool-cases (b.is_free && x.is_free)) [
      | inl t ↦
          let joined : block_at c p (seg (b.size + x.size) true ∷ bs) ≡ some d =
            block_at-merged_from c p (seg (b.size + x.size) true) bs (omega arith, omega arith, z)
              (subst (λ y. block_at c p y ≡ some d) (merge_from-join b x bs t) e) used in
          block_at-joined c p b x bs l' joined used
      | inr t ↦
          let kept : block_at c p (b ∷ merge_from x bs) ≡ some d =
            subst (λ y. block_at c p y ≡ some d) (merge_from-keep b x bs t) e in
          elim (Bool-cases (p == c)) [
            | inl same ↦ ground arith
            | inr other ↦
                let rest =
                  block_at-merged_from c (p + b.size) x bs {d = d} (l', al', z) (ground arith)
                    used in
                rw other rest
          ]
    ]

block_at-merged :
    (c p : ℕ) (bs : Segs) {d : Seg}
    → Sized bs
    → block_at c p (merge bs) ≡ some d
    → d.is_free ≡ false
    → block_at c p bs ≡ some d
unfolding merge
block_at-merged c p [] z e used = e
block_at-merged c p (b ∷ bs) z e used = block_at-merged_from c p b bs z e used

-- What is handed out after the block behind `ptr` is given back was handed out before, and is another block.
abbrev pub OnlyFrees : ℕ → Segs → Segs → Type 0
OnlyFrees ptr bs bs' = (q k : ℕ) → IsLive bs' q k → IsLive bs q k × (q ≢ ptr)

freed-OnlyFrees :
    {bs : Segs} (a ptr : ℕ)
    → Sized bs
    → ptr ≡ a + 32
    → OnlyFrees ptr bs (merge (release a heap_start bs))
freed-OnlyFrees {bs} a ptr z at q k m =
    let (was, ne) =
      block_at-released a m.a heap_start bs
        (block_at-merged m.a heap_start (release a heap_start bs) (release-Sized a heap_start bs z)
          m.at m.used)
        m.used in
    (
      record {
        a = m.a;
        block = m.block;
        address = m.address;
        at = was;
        used = m.used;
        room = m.room;
      },
      λ same. ne (omega (arith, at, m.address)),
    )

-- The block behind `ptr` is no longer handed out, the others are.
pub kfree-IsLive :
    {h : Heap} {bs : Segs} {ptr n : ℕ}
    → IsHeap h bs
    → IsLive bs ptr n
    → (h' : Heap) × (bs' : Segs) × (kfree h ptr ≡ some h')
      × IsHeap h' bs'
      × ((q k : ℕ) → IsLive bs q k → q ≢ ptr → IsLive bs' q k)
      × OnlyFrees ptr bs bs'
kfree-IsLive {bs} {ptr} v l =
    let (h', e, w) = kfree-release l.a v l.at l.used in
    (
      h',
      merge (release l.a heap_start bs),
      rw l.address e,
      w,
      λ q k m ne. record {
        a = m.a;
        block = m.block;
        address = m.address;
        at =
            block_at-merge m.a heap_start (release l.a heap_start bs)
              (block_at-release l.a m.a heap_start bs m.at
                (λ same. ne (m.address ∙ ap (λ x. x + 32) same ∙ sym l.address)))
              m.used;
        used = m.used;
        room = m.room;
      },
      freed-OnlyFrees l.a ptr v.sized l.address,
    )

Fitted-fresh :
    {need ptr : ℕ} {bs bs' : Segs}
    → Fitted need heap_start ptr bs bs'
    → (q k : ℕ) → IsLive bs q k
    → IsLive bs' q k × (q ≢ ptr)
Fitted-fresh f q k m = (
  record {
    room = m.room;
    a = m.a;
    block = m.block;
    address = m.address;
    at = f.others m.a m.block m.at m.used;
    used = m.used;
  },
  λ same.
      let here : m.a ≡ f.a = omega (arith, m.address, f.address) in
      let both : some m.block ≡ some f.old = sym m.at ∙ (rw here f.was) in
      ground (arith, m.used, f.was_free),
)

-- What a client of the heap sees of a request: no memory, or an address that is not yet handed out.
pub kmalloc-IsLive :
    {h : Heap} {bs : Segs} (size : ℕ)
    → IsHeap h bs
    → 0 < size
    → size + 64 ≤ 2 ^ 64
    → (ptr : ℕ) × (h' : Heap) × (bs' : Segs) × (kmalloc h size ≡ some (ptr, h'))
      × IsHeap h' bs'
      × ((q k : ℕ) → IsLive bs q k → IsLive bs' q k × (q ≢ ptr))
      × (((ptr ≡ 0) × NoFit (need_of size) bs) ⊎ IsLive bs' ptr size)
kmalloc-IsLive size v pos small =
    let (ptr, h', bs', e, w, n, out) = kmalloc-Fitted size v pos small in
    elim out [
      | inl f ↦ (
        ptr,
        h',
        bs',
        e,
        w,
        Fitted-fresh f,
        inr (record {
          a = f.a;
          block = f.new;
          address = f.address;
          at = f.now;
          used = f.now_used;
          room = omega (arith, f.large, n);
        }),
      )
      | inr (none_fits, z, same) ↦ (
        ptr,
        h',
        bs',
        e,
        w,
        λ q k m.
            (subst (λ x. IsLive x q k) (sym same) m, λ eq. absurd (omega (arith, m.address, z))),
        inl (z, none_fits),
      )
    ]

-- A buffer, where there is one, is handed back, and the other blocks stay.
pub free_buffer-IsLive :
    {h : Heap} {bs : Segs} {n : ℕ} (ptr : ℕ)
    → IsHeap h bs
    → (ptr ≡ 0) ⊎ IsLive bs ptr n
    → (h' : Heap) × (bs' : Segs) × (free_buffer ptr h ≡ some h')
      × IsHeap h' bs'
      × ((q k : ℕ) → IsLive bs q k → q ≢ ptr → IsLive bs' q k)
      × OnlyFrees ptr bs bs'
free_buffer-IsLive {h} {bs} ptr v (inl z) =
    (h, bs, rw z refl, v, λ q k m ne. m, λ q k m. (m, λ same. absurd (omega (arith, m.address, z))))
free_buffer-IsLive {h} {bs} ptr v (inr l) =
    let (h', bs', e, w, others, only) = kfree-IsLive v l in
    let ne : (ptr == 0) ≡ false = ground (arith, l.address) in
    (h', bs', rw (ne, e) refl, w, others, only)
