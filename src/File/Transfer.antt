-- ===== src/File/Transfer.antt =====
-- Bytes through two descriptors of one file: what `file_write` stores, `file_read` returns.
use flyos.Base.{
  ℕ, ◌+◌, ◌^◌, ◌%◌, ◌≤◌, ◌<◌, ◌≡◌, refl, ◌≢◌, true, false, ◌&&◌, List, ◌==◌, ltb, leb, arith, ◌∙◌,
  sym, some, Bool-cases, inl, inr, ◌⊎◌, length,
}
use flyos.Heap.Spec.{Segs}
use flyos.Heap.Valid.{IsHeap}
use flyos.Ramfs.Defs.{Fs}
use flyos.Ramfs.Data
use flyos.Ramfs.Data.{minus_one, read}
use flyos.Ramfs.Enlarge.{IsFile, Refused}
use flyos.Ramfs.Contents.{Written, write-read}
use flyos.File.Defs.{Files, max_fd, advance, is_closed, file_read, file_write}

-- `fd` is open on the file `f` at the position `pos`.
pub record IsOpen (fd f pos : ℕ) (s : Files) : Type 0 where
  pub low : 3 ≤ fd
  pub high : fd < max_fd
  pub slot : s.table fd ≡ record { used = true; node = f; pos = pos; is_dir = false }

module _ (fd f pos : ℕ) (s : Files) (o : IsOpen fd f pos s) where
  is_closed-IsOpen : is_closed fd s ≡ false
  is_closed-IsOpen =
      let a : ltb fd 3 ≡ false = ground (arith, o.low) in
      let b : leb max_fd fd ≡ false = ground (arith, o.high) in rw (a, b) (rw o.slot refl)

  pub file_write-eq :
      (buf : List ℕ) {r : ℕ} {fs : Fs}
      → Data.write f buf pos s.fs ≡ some (r, fs)
      → file_write fd buf s ≡ some (r, advance fd r (record s { fs = fs }))
  unfolding file_write
  file_write-eq buf e = rw is_closed-IsOpen (rw o.slot (rw e refl))

  pub file_read-eq :
      (n : ℕ)
      → file_read fd n s
        ≡ ((read f n pos s.fs).0, (read f n pos s.fs).1, advance fd (read f n pos s.fs).0 s)
  unfolding file_read
  file_read-eq n = rw is_closed-IsOpen (rw o.slot refl)

  pub advance-other : (g r : ℕ) → g ≢ fd → (advance fd r s).table g ≡ s.table g
  advance-other g r ne = elim (Bool-cases (ltb 0 r && ltb r (2 ^ 31))) [
    | inl t ↦ let e : (fd == g) ≡ false = ground arith in rw t (rw e refl)
    | inr t ↦ rw t refl
  ]

  pub advance-IsOpen :
      (r : ℕ) → r < 2 ^ 31 → pos + r < 2 ^ 64 → IsOpen fd f (pos + r) (advance fd r s)
  advance-IsOpen r lt fits = record {
    low = o.low;
    high = o.high;
    slot =
        let here : (fd == fd) ≡ true = ground arith in
        let sum : (pos + r) % 2 ^ 64 ≡ pos + r = omega arith in
        let small : ltb r (2 ^ 31) ≡ true = ground arith in
        elim (Bool-cases (ltb 0 r)) [
          | inl t ↦ rw (t, small) (rw here (rw o.slot (rw sum refl)))
          | inr t ↦ let none_read : pos + r ≡ pos = ground arith in rw t (rw none_read o.slot)
        ];
  }

  pub advance-fs : (r : ℕ) → (advance fd r s).fs ≡ s.fs
  advance-fs r = elim (Bool-cases (ltb 0 r && ltb r (2 ^ 31))) [
    | inl t ↦ rw t refl
    | inr t ↦ rw t refl
  ]

-- The same descriptor after the files have changed.
with_fs :
    {fd f pos : ℕ} {s : Files} (fs : Fs)
    → IsOpen fd f pos s
    → IsOpen fd f pos (record s { fs = fs })
with_fs fs o = record { low = o.low; high = o.high; slot = o.slot }

module _ (fd g f : ℕ) (buf : List ℕ) (pos : ℕ) (s : Files) (bs bs' : Segs) (fs : Fs) (ne : g ≢ fd)
    (o : IsOpen fd f pos s) (o' : IsOpen g f pos s) (lt : length buf < 2 ^ 31)
    (fits : pos + length buf ≤ 2 ^ 62) (w : Written f buf pos s.fs fs bs bs') where
  abbrev written : Files
  written = advance fd (length buf) (record s { fs = fs })

  written-fs : written.fs ≡ fs
  written-fs = advance-fs fd f pos (record s { fs = fs }) (with_fs fs o) (length buf)

  reader : IsOpen g f pos written
  reader = record {
    low = o'.low;
    high = o'.high;
    slot = advance-other fd f pos (record s { fs = fs }) (with_fs fs o) g (length buf) ne ∙ o'.slot;
  }

  read-written :
      file_read g (length buf) written ≡ (length buf, buf, advance g (length buf) written)
  read-written =
      let e : read f (length buf) pos written.fs ≡ (length buf, buf) = rw written-fs w.reads in
      file_read-eq g f pos written reader (length buf) ∙ rw e refl

-- `file_write` of fewer than 2^31 bytes to an open file always returns. It returns their number and moves
-- the descriptor behind them, and then `file_read` through another descriptor that stood at the same
-- place of the file returns these bytes and moves as far; or it returns -1, and then the descriptors, the
-- nodes and the bytes are as before.
pub file_read-file_write :
    (fd g f : ℕ) (buf : List ℕ) (pos : ℕ) (s : Files) (bs : Segs)
    → g ≢ fd
    → IsOpen fd f pos s
    → IsOpen g f pos s
    → IsHeap s.fs.heap bs
    → IsFile f s.fs bs
    → pos + length buf ≤ 2 ^ 62
    → length buf < 2 ^ 31
    → (r : ℕ) × (s' : Files) × (bs' : Segs) × (file_write fd buf s ≡ some (r, s'))
      × IsHeap s'.fs.heap bs'
      × (((r ≡ length buf)
            × IsOpen fd f (pos + length buf) s'
            × Written f buf pos s.fs s'.fs bs bs'
            × ((s'' : Files) × (file_read g (length buf) s' ≡ (length buf, buf, s''))
                × IsOpen g f (pos + length buf) s''))
          ⊎ ((r ≡ minus_one) × (s'.table ≡ s.table) × Refused s.fs s'.fs bs bs'))
file_read-file_write fd g f buf pos s bs ne o o' v i fits lt =
    let (r, fs, bs', e, v', out) = write-read f buf pos s.fs bs v i fits lt in
    elim out [
      | inl (count, w) ↦
          let wfs = written-fs fd g f buf pos s bs bs' fs ne o o' lt fits w in
          let after = written fd g f buf pos s bs bs' fs ne o o' lt fits w in
          (
            length buf,
            after,
            bs',
            file_write-eq fd f pos s o buf (rw (sym count) e),
            rw wfs v',
            inl (
              refl,
              advance-IsOpen fd f pos (record s { fs = fs }) (with_fs fs o) (length buf) lt
                  (omega arith),
              rw wfs w,
              (
                advance g (length buf) after,
                read-written fd g f buf pos s bs bs' fs ne o o' lt fits w,
                advance-IsOpen g f pos after (reader fd g f buf pos s bs bs' fs ne o o' lt fits w)
                    (length buf) lt (omega arith),
              ),
            ),
          )
      | inr (failed, d) ↦ (
        minus_one,
        record s { fs = fs },
        bs',
        file_write-eq fd f pos s o buf (rw (sym failed) e),
        v',
        inr (refl, refl, d),
      )
    ]
