-- ===== src/Ramfs/Contents.antt =====
-- `ramfs_write` and `ramfs_read` on one file, and what they leave alone.
use flyos.Base.{
  ℕ, ◌+◌, ◌^◌, ◌%◌, ◌≤◌, ◌<◌, ◌≡◌, refl, ◌≢◌, true, false, List, ◌==◌, ltb, leb, arith, ◌∙◌, sym,
  some, Bool-cases, inl, inr, ◌⊎◌, length, get_or, max, [], ◌∷◌, suc, ◌-◌,
}
use flyos.Heap.Spec.{Segs}
use flyos.Heap.Valid.{IsHeap}
use flyos.Ramfs.Defs.{Fs, is_dir}
use flyos.Ramfs.Data.{minus_one, load_bytes, store, write, read}
use flyos.Ramfs.Memory.{IsLive}
use flyos.Ramfs.Bytes.{store_bytes-Outside, store_bytes-at, load_bytes-eq}
use flyos.Ramfs.Enlarge.{IsFile, Apart, Enlarged, Refused, enlarge_lem}

-- Reading bytes that the file has.
read-eq :
    (f off : ℕ) (xs : List ℕ) (fs : Fs)
    → f ≢ 0
    → is_dir (fs.nodes f).type ≡ false
    → off + length xs ≤ (fs.nodes f).size
    → length xs < 2 ^ 31
    → ((i : ℕ) → i < length xs → fs.bytes (fs.nodes f).buffer (off + i) ≡ get_or xs i 0)
    → read f (length xs) off fs ≡ (length xs, xs)
unfolding read load_bytes
read-eq f off [] fs ne file le lt at =
    let nonzero : (f == 0) ≡ false = ground arith in
    elim (Bool-cases (leb (fs.nodes f).size off)) [
      | inl t ↦ rw (nonzero, file) (rw t refl)
      | inr t ↦
          let none_more : ltb ((fs.nodes f).size - off) 0 ≡ false = ground arith in
          rw (nonzero, file) (rw (t, none_more) refl)
    ]
read-eq f off (x ∷ xs) fs ne file le lt at =
    let nonzero : (f == 0) ≡ false = ground arith in
    let more : leb (fs.nodes f).size off ≡ false = ground arith in
    let enough : ltb ((fs.nodes f).size - off) (suc (length xs)) ≡ false = ground arith in
    let narrow : suc (length xs) % 2 ^ 32 ≡ suc (length xs) = omega arith in
    rw (nonzero, file)
      (rw (more, enough)
        (rw (narrow, load_bytes-eq (x ∷ xs) off (fs.nodes f).buffer fs.bytes at) refl))

module _ (f : ℕ) (buf : List ℕ) (off : ℕ) (fs : Fs) (bs : Segs) (i : IsFile f fs bs)
    (small : off + length buf ≤ 2 ^ 62) (large : off + length buf ≤ (fs.nodes f).capacity) where
  abbrev after : Fs
  after = store f buf off fs

  store-size : (after.nodes f).size ≡ max (fs.nodes f).size (off + length buf)
  store-size = ground arith

  store-buffer : (after.nodes f).buffer ≡ (fs.nodes f).buffer
  store-buffer = ground arith

  store-capacity : (after.nodes f).capacity ≡ (fs.nodes f).capacity
  store-capacity = ground arith

  store-type : (after.nodes f).type ≡ (fs.nodes f).type
  store-type = elim (Bool-cases (ltb (fs.nodes f).size ((off + length buf) % 2 ^ 64))) [
    | inl t ↦ rw t (let same : (f == f) ≡ true = ground arith in rw same refl)
    | inr t ↦ rw t refl
  ]

  store-IsFile : IsFile f after bs
  store-IsFile = record {
    here = i.here;
    file = rw store-type i.file;
    small = rw store-capacity i.small;
    within = omega (arith, store-size, store-capacity, i.within);
    held = rw (store-buffer, store-capacity) i.held;
  }

  store-read : length buf < 2 ^ 31 → read f (length buf) off after ≡ (length buf, buf)
  store-read lt =
      read-eq f off buf after i.here (rw store-type i.file) (omega (arith, store-size)) lt
        (λ j lt. rw store-buffer (store_bytes-at buf off (fs.nodes f).buffer j fs.bytes lt))

  store-kept :
      (j : ℕ)
      → (j < off) ⊎ (off + length buf ≤ j)
      → after.bytes (after.nodes f).buffer j ≡ fs.bytes (fs.nodes f).buffer j
  store-kept j out =
      rw store-buffer
        (store_bytes-Outside buf off (fs.nodes f).buffer (fs.nodes f).buffer j fs.bytes (inr out))

  store-Apart : Apart f fs after bs bs
  store-Apart = record {
    blocks = λ q k m ne. m;
    bytes = λ q k j m ne. store_bytes-Outside buf off (fs.nodes f).buffer q j fs.bytes (inl ne);
    nodes = λ g ne. ground arith;
  }

-- The file `f` has the bytes `buf` from `off` on, its other bytes as before, and nothing else is
-- changed.
pub record Written (f : ℕ) (buf : List ℕ) (off : ℕ) (fs fs' : Fs) (bs bs' : Segs) : Type 0 where
  pub file : IsFile f fs' bs'
  pub size : (fs'.nodes f).size ≡ max (fs.nodes f).size (off + length buf)
  pub reads : read f (length buf) off fs' ≡ (length buf, buf)
  pub kept :
      (j : ℕ)
      → j < (fs.nodes f).size
      → (j < off) ⊎ (off + length buf ≤ j)
      → fs'.bytes (fs'.nodes f).buffer j ≡ fs.bytes (fs.nodes f).buffer j
  pub others : Apart f fs fs' bs bs'

Enlarged-other :
    {f need : ℕ} {fs fs1 : Fs} {bs bs1 : Segs}
    → Enlarged f need fs fs1 bs bs1
    → (q k : ℕ) → IsLive bs q k
    → q ≢ (fs.nodes f).buffer
    → q ≢ (fs1.nodes f).buffer
Enlarged-other g q k m ne = elim g.buffer [ inl same ↦ rw same ne | inr fresh ↦ fresh q k m ]

store-Written :
    (f : ℕ) (buf : List ℕ) (off : ℕ) (fs fs1 : Fs) (bs bs1 : Segs)
    → off + length buf ≤ 2 ^ 62
    → length buf < 2 ^ 31
    → Enlarged f (off + length buf) fs fs1 bs bs1
    → Apart f fs fs1 bs bs1
    → Written f buf off fs (store f buf off fs1) bs bs1
store-Written f buf off fs fs1 bs bs1 small lt g o =
    let o' = store-Apart f buf off fs1 bs1 g.file small g.large in
    record {
      file = store-IsFile f buf off fs1 bs1 g.file small g.large;
      size = rw (sym g.size) (store-size f buf off fs1 bs1 g.file small g.large);
      reads = store-read f buf off fs1 bs1 g.file small g.large lt;
      kept = λ j in_file out.
          store-kept f buf off fs1 bs1 g.file small g.large j out ∙ g.kept j in_file;
      others = record {
        blocks = λ q k m ne. o'.blocks q k (o.blocks q k m ne) (Enlarged-other g q k m ne);
        bytes = λ q k j m ne.
            o'.bytes q k j (o.blocks q k m ne) (Enlarged-other g q k m ne) ∙ o.bytes q k j m ne;
        nodes = λ h ne. o'.nodes h ne ∙ o.nodes h ne;
      };
    }

-- `ramfs_write` of fewer than 2^31 bytes to a file always returns. It returns their number, and then
-- `ramfs_read` returns these bytes, the other bytes of the file, the other nodes and the bytes of the
-- other blocks of the heap are as before, and the file keeps to its buffer; or it returns -1, and
-- then no node and no byte is changed.
pub write-read :
    (f : ℕ) (buf : List ℕ) (off : ℕ) (fs : Fs) (bs : Segs)
    → IsHeap fs.heap bs
    → IsFile f fs bs
    → off + length buf ≤ 2 ^ 62
    → length buf < 2 ^ 31
    → (r : ℕ) × (fs' : Fs) × (bs' : Segs) × (write f buf off fs ≡ some (r, fs'))
      × IsHeap fs'.heap bs'
      × (((r ≡ length buf) × Written f buf off fs fs' bs bs')
          ⊎ ((r ≡ minus_one) × Refused fs fs' bs bs'))
unfolding write
write-read f buf off fs bs v i small lt =
    let (ok, fs1, bs1, e, v1, out) = enlarge_lem f (off + length buf) fs bs v i small in
    let nonzero : (f == 0) ≡ false = ground (arith, i.here) in
    let narrow : (off + length buf) % 2 ^ 64 ≡ off + length buf = omega arith in
    let short : length buf % 2 ^ 32 ≡ length buf = omega arith in
    elim out [
      | inl (t, g, o) ↦ (
        length buf,
        store f buf off fs1,
        bs1,
        rw (nonzero, i.file) (rw narrow (rw e (rw (t, short) refl))),
        v1,
        inl (refl, store-Written f buf off fs fs1 bs bs1 small lt g o),
      )
      | inr (t, d) ↦ (
        minus_one,
        fs1,
        bs1,
        rw (nonzero, i.file) (rw narrow (rw e (rw t refl))),
        v1,
        inr (refl, d),
      )
    ]
