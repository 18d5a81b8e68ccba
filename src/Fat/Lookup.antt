-- ===== src/Fat/Lookup.antt =====
-- `write_root_dirent` and then `find_root_entry` of kernel/fs/fat16.c.
use flyos.Base.{
  ℕ, zero, suc, ◌+◌, ◌*◌, ◌≤◌, ◌<◌, ◌^◌, ◌≡◌, ◌≢◌, ◌⊎◌, inl, inr, List, false, refl, sym, subst,
  ◌∙◌, ap, arith,
}
use flyos.Fat.Disk.{Sector, Volume, put_sector, sector_at, address}
use flyos.Fat.Root.{
  Verdict, Look, passed, ended, found_at, look, Spot, absent, failed, spot_at, scan_root, find_test,
  free_test, put_dirent,
}
use flyos.Fat.Words.{read_sector_good}
use flyos.Fat.Entries.{put_sector-at, put_sector_other}
use flyos.Fat.Scanning.{IsName, Misses, look_passed, look-new}

abbrev pub go_on : Look → ℕ → Sector → Spot → Spot
go_on passed s b rest = rest
go_on ended s b rest = absent
go_on (found_at k) s b rest = spot_at s k b

go_on_lem :
    (r : Look) (s : ℕ) (b : Sector) (rest : Spot)
    → elim r [ passed ↦ rest | ended ↦ absent | found_at k ↦ spot_at s k b ] ≡ go_on r s b rest
go_on_lem passed s b rest = refl
go_on_lem ended s b rest = refl
go_on_lem (found_at k) s b rest = refl

pub scan_root-go_on :
    (test : ℕ → Sector → Verdict) (n s : ℕ) (v : Volume)
    → v.read_fails (address (v.root_start_lba + s) v) ≡ false
    → scan_root test (suc n) s v
      ≡ go_on
          (look test 16 0 (sector_at (v.root_start_lba + s) v))
          s
          (sector_at (v.root_start_lba + s) v)
          (scan_root test n (s + 1) v)
unfolding scan_root
scan_root-go_on test n s v good =
    let b : Sector = sector_at (v.root_start_lba + s) v in
    rw (read_sector_good (v.root_start_lba + s) v good, scan_root)
      (go_on_lem (look test 16 0 b) s b (scan_root test n (s + 1) v))

-- Nothing in the sectors from `s` on matches.
abbrev pub Unfound : (want : List ℕ) (n s : ℕ) → Volume → Type 0
Unfound want n s v = (s' k : ℕ) (b : Sector) → scan_root (find_test want) n s v ≢ spot_at s' k b

Unfound-Misses :
    (want : List ℕ) (n s : ℕ) (v : Volume)
    → v.read_fails (address (v.root_start_lba + s) v) ≡ false
    → Unfound want (suc n) s v
    → Misses want 16 0 (sector_at (v.root_start_lba + s) v)
Unfound-Misses want n s v good none_found j e =
    let b : Sector = sector_at (v.root_start_lba + s) v in
    none_found s j b (
      scan_root-go_on (find_test want) n s v good
      ∙ ap (λ r. go_on r s b (scan_root (find_test want) n (s + 1) v)) e)

Unfound-tail :
    (want : List ℕ) (n s : ℕ) (v : Volume)
    → v.read_fails (address (v.root_start_lba + s) v) ≡ false
    → look (find_test want) 16 0 (sector_at (v.root_start_lba + s) v) ≡ passed
    → Unfound want (suc n) s v
    → Unfound want n (s + 1) v
Unfound-tail want n s v good e none_found s' k b found =
    let c : Sector = sector_at (v.root_start_lba + s) v in
    none_found s' k b (
      scan_root-go_on (find_test want) n s v good
      ∙ ap (λ r. go_on r s c (scan_root (find_test want) n (s + 1) v)) e
      ∙ found)

pub Look-cases : (r : Look) → (r ≡ passed) ⊎ ((r ≡ ended) ⊎ ((k : ℕ) × (r ≡ found_at k)))
Look-cases passed = inl refl
Look-cases ended = inr (inl refl)
Look-cases (found_at k) = inr (inr (k, refl))

-- The parts of a spot, with 0 and an empty sector for none.
parts : Spot → ℕ × ℕ × Sector
parts absent = (0, 0, λ i. 0)
parts failed = (0, 0, λ i. 0)
parts (spot_at s k b) = (s + 1, k, b)

spot_at_inj :
    (s k s' k' : ℕ) (b b' : Sector)
    → spot_at s k b ≡ spot_at s' k' b'
    → (s ≡ s') × (k ≡ k') × (b ≡ b')
unfolding parts
spot_at_inj s k s' k' b b' e =
    let n : s + 1 ≡ s' + 1 = ap (λ r. (parts r).0) e in
    (omega arith, ap (λ r. (parts r).1) e, ap (λ r. (parts r).2) e)

pub absent≢spot_at : (s k : ℕ) (b : Sector) → absent ≢ spot_at s k b
unfolding parts
absent≢spot_at s k b e = let n : 0 ≡ s + 1 = ap (λ r. (parts r).0) e in omega arith

module _ (want : List ℕ) (cluster size : ℕ) (name : IsName want) (v : Volume)
    (healthy : (a : ℕ) → v.read_fails a ≡ false) where
  abbrev pub at_lba : ℕ → ℕ
  at_lba s = address (v.root_start_lba + s) v

  abbrev pub bytes_of : ℕ → Sector
  bytes_of s = sector_at (v.root_start_lba + s) v

  -- The volume with the entry in the place `k` of the sector `s`.
  abbrev pub entered : (s k : ℕ) → Volume
  entered s k = record v {
    sectors = put_sector (at_lba s) (put_dirent want cluster size (k * 32) (bytes_of s)) v.sectors;
  }

  -- The result of the scan for a free place from `s` on, and of the search after the entry is written there.
  abbrev pub Entered : (n s s' k : ℕ) (b : Sector) → Type 0
  Entered n s s' k b =
      (s ≤ s')
      × (s' < s + n)
      × (b ≡ bytes_of s')
      × (scan_root (find_test want) n s (entered s' k)
          ≡ spot_at s' k (put_dirent want cluster size (k * 32) (bytes_of s')))

  scan_root_here :
      (n s k : ℕ)
      → look free_test 16 0 (bytes_of s) ≡ found_at k
      → Misses want 16 0 (bytes_of s)
      → Entered (suc n) s s k (bytes_of s)
  scan_root_here n s k free miss =
      let c : Sector = put_dirent want cluster size (k * 32) (bytes_of s) in
      let v' : Volume = entered s k in
      let now : put_sector (at_lba s) c v.sectors (at_lba s) ≡ c =
        put_sector-at (at_lba s) c v.sectors in
      (
        omega arith,
        omega arith,
        refl,
        scan_root-go_on (find_test want) n s v' (healthy (at_lba s))
            ∙ ap
                (λ b.
                  go_on (look (find_test want) 16 0 b) s b
                    (scan_root (find_test want) n (s + 1) v'))
                now
            ∙ ap (λ r. go_on r s c (scan_root (find_test want) n (s + 1) v'))
                (look-new want cluster size 16 0 k (bytes_of s) name free miss),
      )

  scan_root_there :
      (n s s' k : ℕ) (b : Sector)
      → v.part_lba + v.root_start_lba + s + suc n ≤ 2 ^ 32
      → look free_test 16 0 (bytes_of s) ≡ passed
      → Misses want 16 0 (bytes_of s)
      → Entered n (s + 1) s' k b
      → Entered (suc n) s s' k b
  scan_root_there n s s' k b fits busy miss (ge, lt, eq, found) =
      let c : Sector = put_dirent want cluster size (k * 32) (bytes_of s') in
      let v' : Volume = entered s' k in
      let apart : at_lba s' ≢ at_lba s = omega arith in
      let kept : put_sector (at_lba s') c v.sectors (at_lba s) ≡ bytes_of s =
        put_sector_other (at_lba s') (at_lba s) c v.sectors apart in
      (
        omega arith,
        omega arith,
        eq,
        scan_root-go_on (find_test want) n s v' (healthy (at_lba s))
            ∙ ap
                (λ d.
                  go_on (look (find_test want) 16 0 d) s d
                    (scan_root (find_test want) n (s + 1) v'))
                kept
            ∙ ap (λ r. go_on r s (bytes_of s) (scan_root (find_test want) n (s + 1) v'))
                (look_passed want 16 0 (bytes_of s) busy miss)
            ∙ found,
      )

  moved :
      (n s s' m k : ℕ) (b : Sector)
      → (s ≡ s') × (m ≡ k) × (bytes_of s ≡ b)
      → Entered (suc n) s s m (bytes_of s)
      → Entered (suc n) s s' k b
  moved n s s' m k b (at, same, eq) h =
      subst (λ c. Entered (suc n) s s' k c) eq
        (subst (λ j. Entered (suc n) s s' j (bytes_of s)) same
          (subst (λ t. Entered (suc n) s t m (bytes_of s)) at h))

  pub scan_root-new :
      (n s s' k : ℕ) (b : Sector)
      → v.part_lba + v.root_start_lba + s + n ≤ 2 ^ 32
      → Unfound want n s v
      → scan_root free_test n s v ≡ spot_at s' k b
      → Entered n s s' k b
  unfolding scan_root
  scan_root-new zero s s' k b fits none_found e = absurd (absent≢spot_at s' k b e)
  scan_root-new (suc n) s s' k b fits none_found e =
      let miss : Misses want 16 0 (bytes_of s) =
        Unfound-Misses want n s v (healthy (at_lba s)) none_found in
      let step : (r : Look)
          → look free_test 16 0 (bytes_of s) ≡ r
          → go_on r s (bytes_of s) (scan_root free_test n (s + 1) v) ≡ spot_at s' k b =
        λ r at.
          ap (λ q. go_on q s (bytes_of s) (scan_root free_test n (s + 1) v)) (sym at)
          ∙ sym (scan_root-go_on free_test n s v (healthy (at_lba s)))
          ∙ e in
      elim (Look-cases (look free_test 16 0 (bytes_of s))) [
        | inl busy ↦
            let over : look (find_test want) 16 0 (bytes_of s) ≡ passed =
              look_passed want 16 0 (bytes_of s) busy miss in
            scan_root_there n s s' k b fits busy miss (
              scan_root-new n (s + 1) s' k b (omega arith)
                (Unfound-tail want n s v (healthy (at_lba s)) over none_found) (step passed busy))
        | inr (inl ends) ↦ absurd (absent≢spot_at s' k b (step ended ends))
        | inr (inr (m, free)) ↦
            moved n s s' m k b (spot_at_inj s m s' k (bytes_of s) b (step (found_at m) free))
              (scan_root_here n s m free miss)
      ]
