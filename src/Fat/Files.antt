-- ===== src/Fat/Files.antt =====
-- The files of kernel/fs/fat16.c: `fat16_read_file`, `fat16_write_file` and `fat16_delete_file`.
use flyos.Base.{
  ℕ, zero, suc, ◌+◌, ◌-◌, ◌*◌, ◌/◌, Bool, true, false, ◌&&◌, ◌||◌, not, Option, none, some, List,
  [], ◌∷◌, ◌++◌, ltb, ◌==◌, if◌then◌else◌, length, take, drop, get_or, min,
}
use mathlib.Core.Option
use flyos.Fat.Disk.{
  Sector, Volume, Outcome, no_fuel, fault, done, read_sector, write_sector, root_sectors, put8,
  read16,
}
use flyos.Fat.Names.{bytes_at, equal, parse_83}
use flyos.Fat.Table.{fat_get, fat_next, fat_set, alloc_cluster, is_data, free_chain}
use flyos.Fat.Root.{
  Dirent, Spot, Verdict, skip, stop, accept, absent, failed, spot_at, scan_root, find_root_entry,
  write_root_dirent,
}

abbrev pub cluster_lba : (cluster : ℕ) → Volume → ℕ
cluster_lba cluster v = v.data_start_lba + (cluster - 2) * v.sectors_per_cluster

-- The sectors of a cluster from `lba` on, with `n` to go and `left` bytes of the file to come: the bytes copied
-- out; `none` for -1.
unfoldable pub read_cluster : (n lba left : ℕ) → Volume → Option (List ℕ)
unfolding read_sector
read_cluster zero lba left v = some []
read_cluster (suc n) lba left v =
    let rest = read_cluster n (lba + 1) (left - 512) v in
    if left == 0 then some [] else elim (read_sector lba v) [
      | none ↦ none
      | some b ↦ Option.map (λ r. bytes_at (min 512 left) 0 b ++ r) rest
    ]

unfoldable pub prepend : List ℕ → Outcome (Option (List ℕ)) → Outcome (Option (List ℕ))
prepend part no_fuel = no_fuel
prepend part fault = fault
prepend part (done none) = done none
prepend part (done (some r)) = done (some (part ++ r))

-- The chain from `cluster` on.
unfoldable pub read_chain : (fuel cluster left : ℕ) → Volume → Outcome (Option (List ℕ))
unfolding read_cluster fat_next prepend
read_chain zero cluster left v = no_fuel
read_chain (suc fuel) cluster left v =
    let rest = λ (part : List ℕ). read_chain fuel (fat_next cluster v) (left - length part) v in
    if is_data cluster && not (left == 0)
    then elim (read_cluster v.sectors_per_cluster (cluster_lba cluster v) left v) [
      | none ↦ done none
      | some part ↦ prepend part (rest part)
    ]
    else done (some [])

unfoldable pub read_found : (fuel max : ℕ) → Option Dirent → Volume → Outcome (Option (List ℕ))
unfolding read_chain
read_found fuel max none v = done none
read_found fuel max (some d) v =
    let size = min d.size max in
    if (size == 0) || ltb d.cluster_lo 2
    then done (some [])
    else read_chain fuel d.cluster_lo size v

-- The bytes read, whose number is returned.
unfoldable pub fat16_read_file :
    (fuel : ℕ) (name : List ℕ) (max : ℕ) → Volume → Outcome (Option (List ℕ))
unfolding find_root_entry read_found
fat16_read_file fuel name max v = elim (find_root_entry name v) [
  | no_fuel ↦ no_fuel
  | fault ↦ fault
  | done d ↦ read_found fuel max d v
]

-- Parts of long names and deleted entries are compared as well.
unfoldable pub delete_test : (want : List ℕ) (off : ℕ) → Sector → Verdict
unfolding equal
delete_test want off b =
    if b off == 0 then stop else if equal (bytes_at 11 off b) want then accept else skip

unfoldable pub delete_at : (fuel : ℕ) → Spot → Volume → Outcome (Bool × Volume)
unfolding free_chain
delete_at fuel absent v = done (false, v)
delete_at fuel failed v = done (false, v)
delete_at fuel (spot_at s k b) v = elim (free_chain fuel (read16 (k * 32 + 26) b) v) [
  | none ↦ no_fuel
  | some v' ↦ done (write_sector (v.root_start_lba + s) (put8 (k * 32) 0xE5 b) v')
]

-- `false` for -1
unfoldable pub fat16_delete_file : (fuel : ℕ) (name : List ℕ) → Volume → Outcome (Bool × Volume)
unfolding scan_root delete_test delete_at parse_83
fat16_delete_file fuel name v =
    if v.bytes_per_sector == 0
    then fault
    else delete_at fuel (scan_root (delete_test (parse_83 name)) (root_sectors v) 0 v) v

-- What the allocation loop ends with: `first` and `prev`.
pub data Chain : Type 0 where
  full : (first : ℕ) → Volume → Chain
  linked : (first prev : ℕ) → Volume → Chain

abbrev pub link_to : (prev cluster : ℕ) → Volume → Volume
link_to prev cluster v = if prev == 0 then v else (fat_set prev cluster v).1

-- `n` clusters to go.
unfoldable pub alloc_chain : (n first prev : ℕ) → Volume → Chain
unfolding alloc_cluster fat_set
alloc_chain zero first prev v = linked first prev (link_to prev 0xFFFF v)
alloc_chain (suc n) first prev v =
    let (c, v') = alloc_cluster v in
    let rest = alloc_chain n (if prev == 0 then c else first) c (link_to prev c v') in
    if c == 0 then full first v' else rest

-- The sectors of a cluster from `lba` on, with `n` to go, filled from the contents and then with zeros: whether every
-- write succeeds, and the bytes left.
unfoldable pub write_cluster : (n lba : ℕ) (contents : List ℕ) → Volume → Bool × List ℕ × Volume
unfolding write_sector
write_cluster zero lba xs v = (true, xs, v)
write_cluster (suc n) lba [] v = (true, [], v)
write_cluster (suc n) lba (x ∷ xs) v =
    let (ok, v') = write_sector lba (λ i. get_or (take 512 (x ∷ xs)) i 0) v in
    let rest = write_cluster n (lba + 1) (drop 512 (x ∷ xs)) v' in
    if ok then rest else (false, x ∷ xs, v')

-- The chain from `cluster` on; `false` for -1.
unfoldable pub write_chain :
    (fuel cluster : ℕ) (contents : List ℕ) → Volume → Outcome (Bool × Volume)
unfolding write_cluster fat_get
write_chain zero cluster xs v = no_fuel
write_chain (suc fuel) cluster xs v =
    let (ok, left, v') = write_cluster v.sectors_per_cluster (cluster_lba cluster v) xs v in
    let rest = write_chain fuel (fat_get cluster v') left v' in
    if is_data cluster && not (length xs == 0)
    then if ok then rest else done (false, v')
    else done (true, v)

abbrev pub cluster_size : Volume → ℕ
cluster_size v = v.sectors_per_cluster * v.bytes_per_sector

unfoldable pub write_linked : (fuel : ℕ) (want contents : List ℕ) → Chain → Outcome (Bool × Volume)
unfolding free_chain write_chain write_root_dirent
write_linked fuel want xs (full first v') = elim (free_chain fuel first v') [
  | none ↦ no_fuel
  | some v'' ↦ done (false, v'')
]
write_linked fuel want xs (linked first prev v') = elim (write_chain fuel first xs v') [
  | no_fuel ↦ no_fuel
  | fault ↦ fault
  | done r ↦ if r.0 then write_root_dirent want first (length xs) r.1 else done r
]

-- What follows the deletion.
unfoldable pub write_new : (fuel : ℕ) (want contents : List ℕ) → Volume → Outcome (Bool × Volume)
unfolding alloc_chain write_linked
write_new fuel want xs v =
    let clusters = (length xs + cluster_size v - 1) / cluster_size v in
    if cluster_size v == 0 then fault else write_linked fuel want xs (alloc_chain clusters 0 0 v)

-- `contents` are the `size` bytes at `data`; `false` for -1.
unfoldable pub fat16_write_file :
    (fuel : ℕ) (name contents : List ℕ) → Volume → Outcome (Bool × Volume)
unfolding fat16_delete_file write_new parse_83
fat16_write_file fuel name xs v = elim (fat16_delete_file fuel name v) [
  | no_fuel ↦ no_fuel
  | fault ↦ fault
  | done r ↦ write_new fuel (parse_83 name) xs r.1
]
