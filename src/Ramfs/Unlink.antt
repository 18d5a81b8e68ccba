-- ===== src/Ramfs/Unlink.antt =====
-- `ramfs_unlink_node`.
use flyos.Base.{
  ℕ, ◌≡◌, refl, ◌≢◌, subst, true, false, ◌&&◌, not, List, ◌==◌, arith, ◌∙◌, sym, ap, some, ◌⊎◌,
  remove,
}
use flyos.Heap.Defs.{Heap, kfree, rounds}
use flyos.Heap.Spec.{Segs}
use flyos.Heap.Valid.{IsHeap}
use flyos.Ramfs.Defs.{Fs, is_dir, node_size, find_link, cut, free_buffer, unlink_node, find_child}
use flyos.Ramfs.Memory.{OnlyFrees, IsLive, kfree-IsLive, free_buffer-IsLive}
use flyos.Ramfs.Chain.{Entry, NotIn, Entries-live, first_named}
use flyos.Ramfs.Children.{IsDirectory, find_child-first_named}
use flyos.Ramfs.Cut.{
  NotIn-remove, NotIn-removed, length-remove, Link, find_link_lem, Cut, cut_lem, entry_of,
  first_named-names,
}

-- `q` is no longer a child of `d`, and its blocks are free.
pub record Unlinked (d q : ℕ) (fs fs' : Fs) (bs bs' : Segs) (ps : List ℕ) : Type 0 where
  pub directory : IsDirectory d fs' bs' (remove q ps)
  pub finds : (s : List ℕ) → find_child d s fs' ≡ some (first_named fs.nodes s (remove q ps))
  pub blocks : (x k : ℕ) → IsLive bs x k → x ≢ q → x ≢ (fs.nodes q).buffer → IsLive bs' x k
  pub freed : OnlyFrees q bs bs'
  pub freed_buffer : OnlyFrees (fs.nodes q).buffer bs bs'
  pub others : (g : ℕ) → NotIn g ps → d ≢ g → fs'.nodes g ≡ fs.nodes g
  pub bytes : fs'.bytes ≡ fs.bytes

abbrev without : (d q b : ℕ) → Heap → Fs → Fs
without d q b h fs = record fs { nodes = cut d b q fs.nodes; heap = h }

unlink-eq :
    (q d b : ℕ) (fs : Fs) {h1 h2 : Heap}
    → (q == 0) ≡ false
    → (fs.nodes q).parent ≡ d
    → (d == 0) ≡ false
    → (is_dir (fs.nodes q).type && not ((fs.nodes q).children == 0)) ≡ false
    → find_link rounds 0 (fs.nodes d).children q fs.nodes ≡ some (some b)
    → free_buffer (fs.nodes q).buffer fs.heap ≡ some h1
    → kfree h1 q ≡ some h2
    → unlink_node q fs ≡ some (true, without d q b h2 fs)
unfolding unlink_node
unlink-eq q d b fs nq p nd empty found e1 e2 =
    rw (nq, p) (rw (nd, empty) (rw found (rw e1 (rw e2 (rw p refl)))))

module _ (d q : ℕ) (fs : Fs) (bs : Segs) (ps : List ℕ) (i : IsDirectory d fs bs ps)
    (has : ¬ NotIn q ps) (apart : NotIn (fs.nodes q).buffer ps)
    (off : (fs.nodes q).buffer ≢ d) where
  entry : Entry fs.nodes bs d q
  entry = entry_of fs.nodes bs d (fs.nodes d).children q ps i.entries has

  buffer-ne : (fs.nodes q).buffer ≢ q
  buffer-ne s = has (subst (λ x. NotIn x ps) s apart)

  module _ (b : ℕ) (l : Link fs.nodes bs d (fs.nodes d).children 0 q b ps) (h2 : Heap)
      (bs1 bs2 : Segs)
      (keep1 : (x k : ℕ) → IsLive bs x k → x ≢ (fs.nodes q).buffer → IsLive bs1 x k)
      (keep2 : (x k : ℕ) → IsLive bs1 x k → x ≢ q → IsLive bs2 x k)
      (only1 : OnlyFrees (fs.nodes q).buffer bs bs1) (only2 : OnlyFrees q bs1 bs2) where
    abbrev c : Cut fs.nodes (cut d b q fs.nodes) bs d q ps
    c = cut_lem fs.nodes bs d q ps i.entries b l

    without-IsDirectory : IsDirectory d (without d q b h2 fs) bs2 (remove q ps)
    without-IsDirectory = record {
      live = keep2 d node_size (keep1 d node_size i.live (λ s. off (sym s))) entry.apart;
      dir = rw c.dir i.dir;
      few = omega (arith, i.few, length-remove q ps);
      entries =
          Entries-live (cut d b q fs.nodes) bs1 bs2 d (cut d b q fs.nodes d).children q
            (remove q ps) keep2 (NotIn-removed fs.nodes bs d (fs.nodes d).children q ps i.entries)
            (Entries-live (cut d b q fs.nodes) bs bs1 d (cut d b q fs.nodes d).children
              (fs.nodes q).buffer (remove q ps) keep1 (NotIn-remove (fs.nodes q).buffer q ps apart)
              c.entries);
    }

    without-Unlinked : Unlinked d q fs (without d q b h2 fs) bs bs2 ps
    without-Unlinked = record {
      directory = without-IsDirectory;
      finds = λ s.
          find_child-first_named d s (without d q b h2 fs) bs2 (remove q ps) without-IsDirectory
          ∙ ap some (first_named-names fs.nodes (cut d b q fs.nodes) s (remove q ps) c.names);
      blocks = λ x k m ne ne'. keep2 x k (keep1 x k m ne') ne;
      freed = λ x k m. let (m1, ne) = only2 x k m in ((only1 x k m1).0, ne);
      freed_buffer = λ x k m. only1 x k (only2 x k m).0;
      others = c.others;
      bytes = refl;
    }

-- `ramfs_unlink_node` of a file or an empty directory, whose buffer is neither a child's node nor the
-- directory's, always returns 0. The node and its buffer are no longer blocks in use, every other block in
-- use still is, and no block comes into use; exactly this node leaves the directory's children, so that a name
-- finds the first of the others with the name;
-- nodes outside of the directory and all bytes are as before.
pub unlink_node-IsDirectory :
    (d q k : ℕ) (fs : Fs) (bs : Segs) (ps : List ℕ)
    → IsHeap fs.heap bs
    → IsDirectory d fs bs ps
    → ¬ NotIn q ps
    → (is_dir (fs.nodes q).type && not ((fs.nodes q).children == 0)) ≡ false
    → ((fs.nodes q).buffer ≡ 0) ⊎ IsLive bs (fs.nodes q).buffer k
    → NotIn (fs.nodes q).buffer ps
    → (fs.nodes q).buffer ≢ d
    → (fs' : Fs) × (bs' : Segs) × (unlink_node q fs ≡ some (true, fs'))
      × IsHeap fs'.heap bs'
      × Unlinked d q fs fs' bs bs' ps
unlink_node-IsDirectory d q k fs bs ps v i has empty held apart off =
    let en = entry d q fs bs ps i has apart off in
    let (b, found, l) =
      find_link_lem fs.nodes bs d (fs.nodes d).children 0 q ps rounds i.few i.entries has in
    let (h1, bs1, e1, v1, keep1, only1) = free_buffer-IsLive (fs.nodes q).buffer v held in
    let live = keep1 q node_size en.live (λ s. buffer-ne d q fs bs ps i has apart off (sym s)) in
    let (h2, bs2, e2, v2, keep2, only2) = kfree-IsLive v1 live in
    (
      without d q b h2 fs,
      bs2,
      unlink-eq q d b fs (ground (arith, en.live.address)) en.parent
          (ground (arith, i.live.address)) empty found e1 e2,
      v2,
      without-Unlinked d q fs bs ps i has apart off b l h2 bs1 bs2 keep1 keep2 only1 only2,
    )
