-- ===== src/Fat/Root.antt =====
-- The root directory of kernel/fs/fat16.c.
use flyos.Base.{
  ℕ, zero, suc, ◌+◌, ◌*◌, ◌%◌, Bool, true, false, ◌||◌, Option, none, some, List, [], ◌∷◌, ◌++◌,
  ltb, ◌==◌, if◌then◌else◌, length, replicate,
}
use flyos.Fat.Disk.{
  Sector, Volume, Outcome, no_fuel, fault, done, read_sector, write_sector, root_sectors, read16,
  read32, put8, put16, put32,
}
use flyos.Fat.Names.{dirent_name, bytes_at, equal, parse_83}

-- The fields of a directory entry that the callers read, `raw` its name and extension.
pub record Dirent : Type 0 where
  pub raw : List ℕ
  pub attr : ℕ
  pub cluster_lo : ℕ
  pub size : ℕ

unfoldable pub dirent_at : (off : ℕ) → Sector → Dirent
dirent_at off b = record {
  raw = bytes_at 11 off b;
  attr = b (off + 11);
  cluster_lo = read16 (off + 26) b;
  size = read32 (off + 28) b;
}

-- What a loop over the entries does at one: `continue`, return as at the end, or return with the entry.
pub data Verdict : Type 0 where
  skip : Verdict
  stop : Verdict
  accept : Verdict

pub data Look : Type 0 where
  passed : Look
  ended : Look
  found_at : ℕ → Look

-- The entries of a sector from the entry `k` on, with `n` to go.
unfoldable pub look : (test : ℕ → Sector → Verdict) (n k : ℕ) → Sector → Look
look test zero k b = passed
look test (suc n) k b =
    let rest = look test n (k + 1) b in
    elim (test (k * 32) b) [ skip ↦ rest | stop ↦ ended | accept ↦ found_at k ]

pub data Spot : Type 0 where
  absent : Spot
  failed : Spot
  spot_at : (s k : ℕ) → Sector → Spot

-- The sectors of the directory from the sector `s` on, with `n` to go.
unfoldable pub scan_root : (test : ℕ → Sector → Verdict) (n s : ℕ) → Volume → Spot
unfolding look
scan_root test zero s v = absent
scan_root test (suc n) s v = elim (read_sector (v.root_start_lba + s) v) [
  | none ↦ failed
  | some b ↦ elim (look test 16 0 b) [
    | passed ↦ scan_root test n (s + 1) v
    | ended ↦ absent
    | found_at k ↦ spot_at s k b
  ]
]

-- An end mark stops; a deleted entry and a part of a long name are skipped.
unfoldable pub find_test : (want : List ℕ) (off : ℕ) → Sector → Verdict
unfolding equal
find_test want off b =
    if b off == 0
    then stop
    else if (b off == 0xE5) || (b (off + 11) == 0x0F)
    then skip
    else if equal (bytes_at 11 off b) want
    then accept
    else skip

abbrev pub entry_of : Spot → Option Dirent
entry_of absent = none
entry_of failed = none
entry_of (spot_at s k b) = some (dirent_at (k * 32) b)

-- `none`: the null pointer.
unfoldable pub find_root_entry : (name : List ℕ) → Volume → Outcome (Option Dirent)
unfolding scan_root find_test parse_83
find_root_entry name v =
    if v.bytes_per_sector == 0
    then fault
    else done (
        if v.has_memory
        then entry_of (scan_root (find_test (parse_83 name)) (root_sectors v) 0 v)
        else none)

abbrev pub size_of : Option Dirent → ℕ
size_of none = 0
size_of (some d) = d.size

unfoldable pub fat16_file_size : (name : List ℕ) → Volume → Outcome ℕ
unfolding find_root_entry
fat16_file_size name v = elim (find_root_entry name v) [
  | no_fuel ↦ no_fuel
  | fault ↦ fault
  | done d ↦ done (size_of d)
]

-- The characters before the NUL that ends a C string.
unfoldable pub c_string : List ℕ → List ℕ
c_string [] = []
c_string (x ∷ xs) = let rest = c_string xs in if x == 0 then [] else x ∷ rest

-- The name that the two loops of `fat16_list_root` over `name` read.
unfoldable pub list_name : (off : ℕ) → Sector → List ℕ
unfolding dirent_name c_string
list_name off b = c_string (dirent_name off b)

-- The line of an entry: a directory's name ends in '/'.
unfoldable pub list_line : (off : ℕ) → Sector → List ℕ
unfolding list_name
list_line off b = list_name off b ++ (if ltb (b (off + 11) % 32) 16 then 10 ∷ [] else 47 ∷ 10 ∷ [])

-- The inner loop of `fat16_list_root` at `pos`, and whether it has seen the end mark. A name that does not fit
-- breaks the inner loop.
unfoldable pub list_entries : (n k max pos : ℕ) → Sector → Bool × List ℕ
unfolding list_line list_name
list_entries zero k max pos b = (false, [])
list_entries (suc n) k max pos b =
    let line = list_line (k * 32) b in
    let rest = list_entries n (k + 1) max pos b in
    let (ends, out) = list_entries n (k + 1) max (pos + length line) b in
    if b (k * 32) == 0
    then (true, [])
    else if (b (k * 32) == 0xE5) || (b (k * 32 + 11) == 0x0F)
    then rest
    else if ltb max (pos + length (list_name (k * 32) b) + 2)
    then (false, [])
    else (ends, line ++ out)

-- Its outer loop.
unfoldable pub list_sectors : (n s max pos : ℕ) → Volume → List ℕ
unfolding list_entries
list_sectors zero s max pos v = []
list_sectors (suc n) s max pos v = elim (read_sector (v.root_start_lba + s) v) [
  | none ↦ []
  | some b ↦
      let (ends, out) = list_entries 16 0 max pos b in
      let rest = list_sectors n (s + 1) max (pos + length out) v in
      out ++ (if ends then [] else rest)
]

-- The characters written, whose number is returned; `none` for -1.
unfoldable pub fat16_list_root : (max : ℕ) → Volume → Outcome (Option (List ℕ))
unfolding list_sectors
fat16_list_root max v =
    if v.bytes_per_sector == 0
    then fault
    else done (if v.has_memory then some (list_sectors (root_sectors v) 0 max 0 v) else none)

unfoldable pub free_test : (off : ℕ) → Sector → Verdict
free_test off b = if (b off == 0) || (b off == 0xE5) then accept else skip

unfoldable pub put_bytes : List ℕ → (off : ℕ) → Sector → Sector
put_bytes [] off b = b
put_bytes (x ∷ xs) off b = put_bytes xs (off + 1) (put8 off x b)

-- The entry at `off`: attribute 0x20, no times.
unfoldable pub put_dirent : (want : List ℕ) (cluster size off : ℕ) → Sector → Sector
unfolding put_bytes
put_dirent want cluster size off b =
    let named = put_bytes want off b in
    let dated = put_bytes (0x20 ∷ replicate 14 0) (off + 11) named in
    put32 (off + 28) size (put16 (off + 26) cluster dated)

-- `false` for -1
unfoldable pub write_root_dirent :
    (want : List ℕ) (cluster size : ℕ) → Volume → Outcome (Bool × Volume)
unfolding scan_root free_test put_dirent
write_root_dirent want cluster size v =
    if v.bytes_per_sector == 0
    then fault
    else done (elim (scan_root free_test (root_sectors v) 0 v) [
      | absent ↦ (false, v)
      | failed ↦ (false, v)
      | spot_at s k b ↦
          write_sector (v.root_start_lba + s) (put_dirent want cluster size (k * 32) b) v
    ])
