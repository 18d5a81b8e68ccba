-- ===== src/File/Listing.antt =====
-- `dir_read` goes through the children of a directory.
use flyos.Base.{
  ℕ, zero, suc, ◌+◌, ◌-◌, ◌^◌, ◌%◌, ◌≤◌, ◌<◌, ◌≡◌, refl, ◌≢◌, true, false, List, [], ◌∷◌, none,
  some, ◌==◌, ltb, leb, arith, Bool-cases, inl, inr, ◌⊎◌, length, get_or, take,
}
use flyos.Heap.Defs.{rounds}
use flyos.Heap.Spec.{Segs}
use flyos.Ramfs.Defs.{Node}
use flyos.Ramfs.Chain.{Entries}
use flyos.Ramfs.Children.{IsDirectory}
use flyos.File.Defs.{Files, max_fd, put_slot, nth_child, dir_read}

nth_child-Entries :
    (nodes : ℕ → Node) (bs : Segs) (d c idx k : ℕ) (ps : List ℕ) (fuel : ℕ)
    → length ps < fuel
    → Entries nodes bs d c ps
    → nth_child fuel c idx (idx + k) nodes ≡ some (get_or ps k 0)
unfolding nth_child
nth_child-Entries nodes bs d c idx k ps zero lt e = absurd (omega arith)
nth_child-Entries nodes bs d c idx k [] (suc fuel) lt e = rw e refl
nth_child-Entries nodes bs d c idx zero (p ∷ ps) (suc fuel) lt (at, entry, new, e) =
    let nonzero : (p == 0) ≡ false = ground (arith, entry.live.address) in
    let here : (idx == idx + 0) ≡ true = ground arith in rw at (rw (nonzero, here) refl)
nth_child-Entries nodes bs d c idx (suc k) (p ∷ ps) (suc fuel) lt (at, entry, new, e) =
    let nonzero : (p == 0) ≡ false = ground (arith, entry.live.address) in
    let later : (idx == idx + suc k) ≡ false = ground arith in
    let sum : idx + suc k ≡ idx + 1 + k = omega arith in
    rw at (
      rw (nonzero, later)
        (rw sum (nth_child-Entries nodes bs d (nodes p).next (idx + 1) k ps fuel (omega arith) e)))

get_or-Entries :
    (nodes : ℕ → Node) (bs : Segs) (d c k : ℕ) (ps : List ℕ)
    → Entries nodes bs d c ps
    → k < length ps
    → get_or ps k 0 ≢ 0
get_or-Entries nodes bs d c k [] e lt = absurd (omega arith)
get_or-Entries nodes bs d c zero (p ∷ ps) (at, entry, new, e) lt =
    λ z. absurd (omega (arith, z, entry.live.address))
get_or-Entries nodes bs d c (suc k) (p ∷ ps) (at, entry, new, e) lt =
    get_or-Entries nodes bs d (nodes p).next k ps e (omega arith)

get_or-beyond : (k : ℕ) (ps : List ℕ) → length ps ≤ k → get_or ps k 0 ≡ 0
get_or-beyond k [] le = refl
get_or-beyond zero (p ∷ ps) le = absurd (omega arith)
get_or-beyond (suc k) (p ∷ ps) le = get_or-beyond k ps (omega arith)

-- `fd` is open on the directory `d`, of which `pos` children have been read.
pub record IsDirOpen (fd d pos : ℕ) (s : Files) : Type 0 where
  pub low : 3 ≤ fd
  pub high : fd < max_fd
  pub slot : s.table fd ≡ record { used = true; node = d; pos = pos; is_dir = true }

-- `dir_read` on an open directory always returns: where children are left, 1 with the name, cut to the
-- caller's room, and the type of the next one, and the descriptor moves to the one after it; else 0 with no
-- change.
pub dir_read-children :
    (fd d pos max : ℕ) (s : Files) (bs : Segs) (ps : List ℕ)
    → IsDirOpen fd d pos s
    → IsDirectory d s.fs bs ps
    → ((pos < length ps)
        × ((s' : Files) × (dir_read fd max s
              ≡ some (
                1,
                some (
                  take (max - 1) (s.fs.nodes (get_or ps pos 0)).name,
                  (s.fs.nodes (get_or ps pos 0)).type,
                ),
                s',
              ))
            × IsDirOpen fd d (pos + 1) s'
            × (s'.fs ≡ s.fs)))
      ⊎ ((length ps ≤ pos) × (dir_read fd max s ≡ some (0, none, s)))
unfolding dir_read
dir_read-children fd d pos max s bs ps o i =
    let a : ltb fd 3 ≡ false = ground (arith, o.low) in
    let b : leb max_fd fd ≡ false = ground (arith, o.high) in
    let from : 0 + pos ≡ pos = omega arith in
    let child : nth_child rounds (s.fs.nodes d).children 0 pos s.fs.nodes ≡ some (get_or ps pos 0) =
      rw from at (
        nth_child-Entries s.fs.nodes bs d (s.fs.nodes d).children 0 pos ps rounds i.few
          i.entries) in
    elim (Bool-cases (ltb pos (length ps))) [
      | inl t ↦
          let lt : pos < length ps = ground arith in
          let ne =
            get_or-Entries s.fs.nodes bs d (s.fs.nodes d).children pos ps i.entries
              (ground arith) in
          let nonzero : (get_or ps pos 0 == 0) ≡ false = ground arith in
          let here : (fd == fd) ≡ true = ground arith in
          let sum : (pos + 1) % 2 ^ 64 ≡ pos + 1 = omega (arith, i.few, lt) in
          inl (
            ground arith,
            (
              record s {
                table =
                    put_slot s.table fd
                      (record { used = true; node = d; pos = pos + 1; is_dir = true });
              },
              rw (a, b) (rw o.slot (rw child (rw nonzero (rw sum refl)))),
              record { low = o.low; high = o.high; slot = rw here refl },
              refl,
            ),
          )
      | inr t ↦
          let beyond = get_or-beyond pos ps (ground arith) in
          inr (ground arith, rw (a, b) (rw o.slot (rw child (rw beyond refl))))
    ]
