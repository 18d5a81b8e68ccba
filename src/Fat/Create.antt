-- ===== src/Fat/Create.antt =====
-- `write_root_dirent` of kernel/fs/fat16.c and then `find_root_entry`.
use flyos.Base.{
  ℕ, zero, suc, ◌+◌, ◌*◌, ◌≤◌, ◌<◌, ◌^◌, ◌≡◌, ◌≢◌, ◌⊎◌, inl, inr, Bool, List, true, false,
  true≢false, Option, some, none, refl, sym, subst, ◌∙◌, ap, ◌==◌, arith,
}
use flyos.Fat.Disk.{
  Sector, Volume, Outcome, no_fuel, fault, done, write_sector, sector_at, address, root_sectors,
}
use flyos.Fat.Names.{parse_83}
use flyos.Fat.Root.{
  Dirent, skip, Look, passed, ended, found_at, look, absent, spot_at, scan_root, find_test,
  free_test, put_dirent, find_root_entry, write_root_dirent, entry_of, dirent_at,
}
use flyos.Fat.Words.{write_sector_good}
use flyos.Fat.Entries.{==_cases, put_sector_other}
use flyos.Fat.Dirents.{put_dirent-name, put_dirent-attr, put_dirent-cluster, put_dirent-size}
use flyos.Fat.Scanning.{IsName, free_test-cases, found≢passed, look-skip, look_accept}
use flyos.Fat.Lookup.{entered, scan_root-new, scan_root-go_on, go_on, Unfound, Look-cases}

-- No sector fails, a sector has bytes, and the directory does not run past the last sector number.
pub record HasRoot (v : Volume) : Type 0 where
  pub healthy : (a : ℕ) → v.read_fails a ≡ false
  pub writable : (a : ℕ) → v.write_fails a ≡ false
  pub sized : v.bytes_per_sector ≢ 0
  pub fits : v.part_lba + v.root_start_lba + root_sectors v ≤ 2 ^ 32

abbrev pub at_lba : Volume → ℕ → ℕ
at_lba v s = address (v.root_start_lba + s) v

abbrev bytes_of : Volume → ℕ → Sector
bytes_of v s = sector_at (v.root_start_lba + s) v

-- No place in the directory is free.
abbrev pub IsFull : Volume → Type 0
IsFull v =
    (s k : ℕ)
    → s < root_sectors v
    → k < 16
    → free_test (k * 32) (sector_at (v.root_start_lba + s) v) ≡ skip

abbrev pub file_entry : (want : List ℕ) (cluster size : ℕ) → Dirent
file_entry want cluster size = record { raw = want; attr = 0x20; cluster_lo = cluster; size = size }

dirent_at-put_dirent :
    (want : List ℕ) (cluster size off : ℕ) (b : Sector)
    → IsName want
    → cluster < 2 ^ 16
    → size < 2 ^ 32
    → dirent_at off (put_dirent want cluster size off b) ≡ file_entry want cluster size
unfolding dirent_at
dirent_at-put_dirent want cluster size off b name lt lt' =
    rw
      (
        put_dirent-attr want cluster size off b name.eleven,
        put_dirent-cluster want cluster size off b lt,
        put_dirent-size want cluster size off b lt',
      )
      (ap (λ raw. record { raw = raw; attr = 0x20; cluster_lo = cluster; size = size })
        (put_dirent-name want cluster size off b name.eleven name.small))

look_full :
    (n i k : ℕ) (b : Sector)
    → look free_test n i b ≡ passed
    → i ≤ k
    → k < i + n
    → free_test (k * 32) b ≡ skip
look_full zero i k b e ge lt = absurd (omega arith)
look_full (suc n) i k b e ge lt = elim (free_test-cases (i * 32) b) [
  | inr free ↦ absurd (found≢passed i (sym (look_accept free_test n i b free) ∙ e))
  | inl used ↦ elim (==_cases i k) [
    | inl at ↦ subst (λ m. free_test (m * 32) b ≡ skip) at used
    | inr apart ↦
        look_full n (i + 1) k b (sym (look-skip free_test n i b used) ∙ e) (omega arith)
          (omega arith)
  ]
]

abbrev is_passed : Look → Bool
is_passed passed = true
is_passed ended = false
is_passed (found_at k) = false

abbrev is_found : Look → Bool
is_found passed = false
is_found ended = false
is_found (found_at k) = true

passed≢ended : passed ≢ ended
passed≢ended e = true≢false (ap is_passed e)

found≢ended : (k : ℕ) → found_at k ≢ ended
found≢ended k e = true≢false (ap is_found e)

look_ends : (n i : ℕ) (b : Sector) → look free_test n i b ≢ ended
unfolding look
look_ends zero i b e = passed≢ended e
look_ends (suc n) i b e = elim (free_test-cases (i * 32) b) [
  | inr free ↦ found≢ended i (sym (look_accept free_test n i b free) ∙ e)
  | inl used ↦ look_ends n (i + 1) b (sym (look-skip free_test n i b used) ∙ e)
]

-- The scan for a free place ends at one, or every place from `s` on is in use.
free_scan :
    (n s : ℕ) (v : Volume)
    → ((a : ℕ) → v.read_fails a ≡ false)
    → ((scan_root free_test n s v ≡ absent)
        × ((s' k : ℕ) → s ≤ s' → s' < s + n → k < 16 → free_test (k * 32) (bytes_of v s') ≡ skip))
      ⊎ ((s' k : ℕ) × (b : Sector) × (scan_root free_test n s v ≡ spot_at s' k b))
unfolding scan_root
free_scan zero s v healthy = inl (refl, λ s' k ge lt in_sector. absurd (omega arith))
free_scan (suc n) s v healthy =
    let b : Sector = bytes_of v s in
    let step : (r : Look)
        → look free_test 16 0 b ≡ r
        → scan_root free_test (suc n) s v ≡ go_on r s b (scan_root free_test n (s + 1) v) =
      λ r e.
        scan_root-go_on free_test n s v (healthy (at_lba v s))
        ∙ ap (λ q. go_on q s b (scan_root free_test n (s + 1) v)) e in
    elim (Look-cases (look free_test 16 0 b)) [
      | inr (inl ends) ↦ absurd (look_ends 16 0 b ends)
      | inr (inr (k, free)) ↦ inr (s, k, b, step (found_at k) free)
      | inl busy ↦ elim (free_scan n (s + 1) v healthy) [
        | inr (s', k, c, e) ↦ inr (s', k, c, step passed busy ∙ e)
        | inl (e, full) ↦ inl (
          step passed busy ∙ e,
          λ s' k ge lt in_sector. elim (==_cases s s') [
            | inl at ↦
                subst (λ t. free_test (k * 32) (bytes_of v t) ≡ skip) at
                  (look_full 16 0 k b busy (omega arith) (omega arith))
            | inr apart ↦ full s' k (omega arith) (omega arith) in_sector
          ],
        )
      ]
    ]

-- What a successful call leaves: the entry is written, the search finds it, and sectors outside the directory are
-- as before.
abbrev pub Created : (name : List ℕ) (cluster size : ℕ) → Volume → Type 0
Created name cluster size v =
    (sec : ℕ → Sector) × (write_root_dirent (parse_83 name) cluster size v
      ≡ done (true, record v { sectors = sec }))
    × (find_root_entry name (record v { sectors = sec })
        ≡ done (some (file_entry (parse_83 name) cluster size)))
    × ((a : ℕ) → ((i : ℕ) → i < root_sectors v → a ≢ at_lba v i) → sec a ≡ v.sectors a)

pub find_root_entry_on :
    (name : List ℕ) (v : Volume)
    → v.bytes_per_sector ≢ 0
    → v.has_memory ≡ true
    → find_root_entry name v
      ≡ done (entry_of (scan_root (find_test (parse_83 name)) (root_sectors v) 0 v))
unfolding find_root_entry
find_root_entry_on name v sized memory =
    let eq : (v.bytes_per_sector == 0) ≡ false = ground arith in rw (eq, memory) refl

write_root_dirent_to :
    (want : List ℕ) (cluster size s k : ℕ) (b : Sector) (v : Volume)
    → v.bytes_per_sector ≢ 0
    → scan_root free_test (root_sectors v) 0 v ≡ spot_at s k b
    → write_root_dirent want cluster size v
      ≡ done (write_sector (v.root_start_lba + s) (put_dirent want cluster size (k * 32) b) v)
unfolding write_root_dirent
write_root_dirent_to want cluster size s k b v sized e =
    let eq : (v.bytes_per_sector == 0) ≡ false = ground arith in rw (eq, e) refl

write_root_dirent_full :
    (want : List ℕ) (cluster size : ℕ) (v : Volume)
    → v.bytes_per_sector ≢ 0
    → scan_root free_test (root_sectors v) 0 v ≡ absent
    → write_root_dirent want cluster size v ≡ done (false, v)
unfolding write_root_dirent
write_root_dirent_full want cluster size v sized e =
    let eq : (v.bytes_per_sector == 0) ≡ false = ground arith in rw (eq, e) refl

write_root_dirent-found :
    (name : List ℕ) (cluster size s k : ℕ) (b : Sector) (v : Volume)
    → HasRoot v
    → v.has_memory ≡ true
    → IsName (parse_83 name)
    → cluster < 2 ^ 16
    → size < 2 ^ 32
    → Unfound (parse_83 name) (root_sectors v) 0 v
    → scan_root free_test (root_sectors v) 0 v ≡ spot_at s k b
    → Created name cluster size v
write_root_dirent-found name cluster size s k b v root memory is_name lt lt' none_found e =
    let want : List ℕ = parse_83 name in
    let fits : v.part_lba + v.root_start_lba + root_sectors v ≤ 2 ^ 32 = root.fits in
    let (ge, below, at, found) =
      scan_root-new want cluster size is_name v root.healthy (root_sectors v) 0 s k b (omega arith)
        none_found e in
    let v' : Volume = entered want cluster size is_name v root.healthy s k in
    (
      v'.sectors,
      write_root_dirent_to want cluster size s k b v root.sized e
          ∙ ap
              (λ c.
                done
                  (write_sector (v.root_start_lba + s) (put_dirent want cluster size (k * 32) c) v))
              at
          ∙ ap done (
              write_sector_good (v.root_start_lba + s)
                (put_dirent want cluster size (k * 32) (bytes_of v s)) v
                (root.writable (at_lba v s))),
      find_root_entry_on name v' root.sized memory
          ∙ ap (λ r. done (entry_of r)) found
          ∙ ap (λ d. done (some d))
              (dirent_at-put_dirent want cluster size (k * 32) (bytes_of v s) is_name lt lt'),
      (λ a out.
          put_sector_other (at_lba v s) a (put_dirent want cluster size (k * 32) (bytes_of v s))
            v.sectors (λ h. out s (omega arith) (sym h))),
    )

has_entry : Outcome (Option Dirent) → Bool
has_entry no_fuel = false
has_entry fault = false
has_entry (done none) = false
has_entry (done (some d)) = true

missing-Unfound :
    (name : List ℕ) (v : Volume)
    → HasRoot v
    → v.has_memory ≡ true
    → find_root_entry name v ≡ done none
    → Unfound (parse_83 name) (root_sectors v) 0 v
unfolding has_entry
missing-Unfound name v root memory missing s k b e =
    let hit : done (entry_of (spot_at s k b)) ≡ done none =
      ap (λ r. done (entry_of r)) (sym e)
      ∙ sym (find_root_entry_on name v root.sized memory)
      ∙ missing in
    true≢false (ap has_entry hit)

-- On a healthy volume, for a name that find_root_entry does not find: write_root_dirent fails and changes nothing when
-- no place in the directory is free; else it succeeds, and find_root_entry then returns the entry it wrote.
pub write_root_dirent_lem :
    (name : List ℕ) (cluster size : ℕ) (v : Volume)
    → HasRoot v
    → v.has_memory ≡ true
    → IsName (parse_83 name)
    → cluster < 2 ^ 16
    → size < 2 ^ 32
    → find_root_entry name v ≡ done none
    → (IsFull v × (write_root_dirent (parse_83 name) cluster size v ≡ done (false, v)))
      ⊎ Created name cluster size v
write_root_dirent_lem name cluster size v root memory is_name lt lt' missing =
    elim (free_scan (root_sectors v) 0 v root.healthy) [
      | inl (e, full) ↦ inl (
        λ s k lt_s lt_k. full s k (omega arith) (omega arith) lt_k,
        write_root_dirent_full (parse_83 name) cluster size v root.sized e,
      )
      | inr (s, k, b, e) ↦ inr (
          write_root_dirent-found name cluster size s k b v root memory is_name lt lt'
            (missing-Unfound name v root memory missing) e)
    ]
