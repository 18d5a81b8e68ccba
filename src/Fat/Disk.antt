-- ===== src/Fat/Disk.antt =====
-- The static variables of kernel/fs/fat16.c and the disk under them, `fat16_init`, and the bytes of a sector.
-- The driver of kernel/drivers/ata.c is port input and output; what the file system sees of it is that a
-- sector is read or written, or that the call fails: `read_fails` and `write_fails` say for which sectors it does.
-- A write can fail before the bytes are sent or after it, when the cache is flushed: `arrives` says whether the
-- bytes of a write that fails are on the disk all the same.
use flyos.Base.{
  ℕ, ◌+◌, ◌-◌, ◌*◌, ◌/◌, ◌%◌, ◌^◌, Bool, true, false, Option, none, some, ◌==◌, if◌then◌else◌,
}

-- How a call ends: its loops run out of the model's fuel, it divides by zero, or it returns.
pub data Outcome (A : Type 0) : Type 0 where
  no_fuel : Outcome A
  fault : Outcome A
  done : A → Outcome A

abbrev pub Sector : Type 0
Sector = ℕ → ℕ

-- `has_memory`: the kernel heap has room for a sector and a directory entry, which these functions take and
-- give back.
pub record Volume : Type 0 where
  pub sectors : ℕ → Sector
  pub read_fails : ℕ → Bool
  pub write_fails : ℕ → Bool
  pub arrives : ℕ → Bool
  pub has_memory : Bool
  pub part_lba : ℕ
  pub bytes_per_sector : ℕ
  pub sectors_per_cluster : ℕ
  pub reserved_sectors : ℕ
  pub num_fats : ℕ
  pub root_entries : ℕ
  pub fat_size : ℕ
  pub fat_start_lba : ℕ
  pub root_start_lba : ℕ
  pub data_start_lba : ℕ

abbrev pub address : (lba : ℕ) → Volume → ℕ
address lba v = (v.part_lba + lba) % 2 ^ 32

abbrev pub sector_at : (lba : ℕ) → Volume → Sector
sector_at lba v = v.sectors (address lba v)

-- `none` for -1
unfoldable pub read_sector : (lba : ℕ) → Volume → Option Sector
read_sector lba v = if v.read_fails (address lba v) then none else some (sector_at lba v)

abbrev pub put_sector : (a : ℕ) → Sector → (ℕ → Sector) → ℕ → Sector
put_sector a b s x = if a == x then b else s x

-- `false` for -1
unfoldable pub write_sector : (lba : ℕ) → Sector → Volume → Bool × Volume
write_sector lba b v =
    let written : Volume = record v { sectors = put_sector (address lba v) b v.sectors } in
    if v.write_fails (address lba v)
    then (false, if v.arrives (address lba v) then written else v)
    else (true, written)

abbrev pub read16 : (off : ℕ) → Sector → ℕ
read16 off b = b off + b (off + 1) * 2 ^ 8

abbrev pub read32 : (off : ℕ) → Sector → ℕ
read32 off b = read16 off b + read16 (off + 2) b * 2 ^ 16

abbrev pub put8 : (off v : ℕ) → Sector → Sector
put8 off v b i = if off == i then v % 2 ^ 8 else b i

abbrev pub put16 : (off v : ℕ) → Sector → Sector
put16 off v b = put8 (off + 1) (v / 2 ^ 8) (put8 off v b)

abbrev pub put32 : (off v : ℕ) → Sector → Sector
put32 off v b = put16 (off + 2) (v / 2 ^ 16) (put16 off v b)

-- `(root_entries * 32 + bytes_per_sector - 1) / bytes_per_sector`
abbrev pub root_sectors : Volume → ℕ
root_sectors v = (v.root_entries * 32 + v.bytes_per_sector - 1) / v.bytes_per_sector

unfoldable pub fat16_init : (partition_lba : ℕ) → Volume → Outcome Volume
unfolding read_sector
fat16_init partition_lba v =
    let v0 : Volume = record v { part_lba = partition_lba } in
    elim (read_sector 0 v0) [
      | none ↦ done v0
      | some bpb ↦
          let v1 : Volume = record v0 {
            bytes_per_sector = read16 11 bpb;
            sectors_per_cluster = bpb 13;
            reserved_sectors = read16 14 bpb;
            num_fats = bpb 16;
            root_entries = read16 17 bpb;
            fat_size = read16 22 bpb;
          } in
          let v2 : Volume = record v1 {
            fat_start_lba = v1.reserved_sectors;
            root_start_lba = v1.reserved_sectors + v1.num_fats * v1.fat_size;
          } in
          if v1.bytes_per_sector == 0
          then fault
          else done (record v2 { data_start_lba = v2.root_start_lba + root_sectors v2 })
    ]
