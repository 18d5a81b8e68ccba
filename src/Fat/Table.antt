-- ===== src/Fat/Table.antt =====
-- The allocation table of kernel/fs/fat16.c.
use flyos.Base.{
  ℕ, zero, suc, ◌+◌, ◌*◌, ◌/◌, ◌%◌, Bool, true, false, ◌&&◌, Option, none, some, ltb, leb, ◌==◌,
  if◌then◌else◌,
}
use flyos.Fat.Disk.{Sector, Volume, read_sector, write_sector, read16, put16}

abbrev pub fat_lba : (cluster : ℕ) → Volume → ℕ
fat_lba cluster v = v.fat_start_lba + cluster * 2 / 512

unfoldable pub fat_get : (cluster : ℕ) → Volume → ℕ
unfolding read_sector
fat_get cluster v = elim (read_sector (fat_lba cluster v) v) [
  | none ↦ 0xFFFF
  | some b ↦ read16 (cluster * 2 % 512) b
]

-- `fat_next` has the body of `fat_get`.
unfoldable pub fat_next : (cluster : ℕ) → Volume → ℕ
unfolding fat_get
fat_next = fat_get

-- The loop of `fat_set` over the copies of the table, with `n` copies to go from the copy `f` on.
unfoldable pub set_copies : (n f cluster value : ℕ) → Volume → Bool × Volume
set_copies zero f cluster value v = (true, v)
set_copies (suc n) f cluster value v =
    let l = fat_lba cluster v + f * v.fat_size in
    elim (read_sector l v) [
      | none ↦ (false, v)
      | some b ↦
          let (ok, v') = write_sector l (put16 (cluster * 2 % 512) value b) v in
          elim ok [ false ↦ (false, v') | true ↦ set_copies n (f + 1) cluster value v' ]
    ]

-- `false` for -1
unfoldable pub fat_set : (cluster value : ℕ) → Volume → Bool × Volume
unfolding set_copies
fat_set cluster value v = set_copies v.num_fats 0 cluster value v

-- What the scan of one sector of the table ends with.
pub data Scan : Type 0 where
  more : Scan
  out_of_range : Scan
  free_at : ℕ → Scan

-- The entries of the sector `s` from `i` on, with `n` to go.
unfoldable pub scan_entries : (n i s : ℕ) → Sector → Scan
scan_entries zero i s b = more
scan_entries (suc n) i s b =
    let idx = s * 256 + i in
    let rest = scan_entries n (i + 1) s b in
    if ltb idx 2
    then rest
    else if leb 0xFFF0 idx
    then out_of_range
    else if read16 (i * 2) b == 0
    then free_at idx
    else rest

-- The loop of `alloc_cluster` from the sector `s` on, with `n` sectors to go: a free cluster, 0 when none is found.
unfoldable pub scan_table : (n s : ℕ) → Volume → ℕ
unfolding scan_entries
scan_table zero s v = 0
scan_table (suc n) s v = elim (read_sector (v.fat_start_lba + s) v) [
  | none ↦ 0
  | some b ↦ elim (scan_entries 256 0 s b) [
    | more ↦ scan_table n (s + 1) v
    | out_of_range ↦ 0
    | free_at idx ↦ idx
  ]
]

-- 0 when there is none.
unfoldable pub alloc_cluster : Volume → ℕ × Volume
unfolding scan_table fat_set
alloc_cluster v =
    let c = scan_table v.fat_size 0 v in
    let (ok, v') = fat_set c 0xFFFF v in if c == 0 then (0, v) else if ok then (c, v') else (0, v')

-- `cluster >= 2 && cluster < 0xFFF8`
abbrev pub is_data : ℕ → Bool
is_data cluster = leb 2 cluster && ltb cluster 0xFFF8

-- On fuel; `none`: it ran out.
unfoldable pub free_chain : (fuel cluster : ℕ) → Volume → Option Volume
unfolding fat_get fat_set
free_chain zero cluster v = none
free_chain (suc fuel) cluster v =
    let rest = free_chain fuel (fat_get cluster v) (fat_set cluster 0 v).1 in
    if is_data cluster then rest else some v
