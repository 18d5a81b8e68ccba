-- ===== src/Fat/Separate.antt =====
-- The layout of a volume of kernel/fs/fat16.c: table, directory and data lie apart, so that what is written to one
-- is not seen in the others.
use flyos.Base.{ℕ, ◌+◌, ◌-◌, ◌*◌, ◌/◌, ◌%◌, ◌≤◌, ◌<◌, ◌^◌, ◌≡◌, ◌≢◌, false, arith}
use flyos.Fat.Disk.{Volume, root_sectors}
use flyos.Fat.Assign.{IsSound, InTable}
use flyos.Fat.Entries.{fat_address}
use flyos.Fat.Chains.{HasData, IsCluster, place, rows}
use flyos.Fat.Keeping.{HasTree, root_address}
use flyos.Fat.Create.{HasRoot}

-- A volume as a formatting program lays it out, on a disk without bad sectors: sectors of 512 bytes, the copies of the
-- table, the directory and the data in this order, and no sector number past the last.
pub record IsVolume (v : Volume) : Type 0 where
  pub healthy : (a : ℕ) → v.read_fails a ≡ false
  pub writable : (a : ℕ) → v.write_fails a ≡ false
  pub copies : 1 ≤ v.num_fats
  pub sized : v.bytes_per_sector ≡ 512
  pub clustered : 1 ≤ v.sectors_per_cluster
  pub fat_end : v.fat_start_lba + v.num_fats * v.fat_size ≤ v.root_start_lba
  pub root_end : v.root_start_lba + root_sectors v ≤ v.data_start_lba
  pub fits : v.part_lba + v.data_start_lba + 0xFFF8 * v.sectors_per_cluster ≤ 2 ^ 32

one_copy : (n z : ℕ) → 1 ≤ n → z ≤ n * z
one_copy n z one = grind arith

bound :
    (part fat nz root n start z : ℕ)
    → fat + nz ≤ root
    → root + n ≤ start
    → part + start + 0xFFF8 * z ≤ 2 ^ 32
    → part + fat + nz ≤ 2 ^ 32
bound part fat nz root n start z a b c = omega arith

root_bound :
    (part root n start z : ℕ)
    → root + n ≤ start
    → part + start + 0xFFF8 * z ≤ 2 ^ 32
    → part + root + n ≤ 2 ^ 32
root_bound part root n start z b c = omega arith

data_bound :
    (fat z nz root n start : ℕ) → z ≤ nz → fat + nz ≤ root → root + n ≤ start → fat + z ≤ start
data_bound fat z nz root n start a b c = omega arith

root_data_apart :
    (part root i n start row z j last : ℕ)
    → root + n ≤ start
    → part + start + last ≤ 2 ^ 32
    → i < n
    → row + z ≤ last
    → j < z
    → (part + (root + i)) % 2 ^ 32 ≢ (part + (start + row + j)) % 2 ^ 32
root_data_apart part root i n start row z j last a b lt c lt_j = omega arith

fat_root_apart :
    (part fat q z nz root i n : ℕ)
    → z ≤ nz
    → fat + nz ≤ root
    → part + root + n ≤ 2 ^ 32
    → q < z
    → i < n
    → (part + (fat + q)) % 2 ^ 32 ≢ (part + (root + i)) % 2 ^ 32
fat_root_apart part fat q z nz root i n a b c lt lt_i = omega arith

module _ (v : Volume) (vol : IsVolume v) where
  pub IsVolume-IsSound : IsSound v
  IsVolume-IsSound = record {
    healthy = vol.healthy;
    writable = vol.writable;
    copies = vol.copies;
    fits =
        (let a : v.fat_start_lba + v.num_fats * v.fat_size ≤ v.root_start_lba = vol.fat_end in
          let b : v.root_start_lba + root_sectors v ≤ v.data_start_lba = vol.root_end in
          let c : v.part_lba + v.data_start_lba + 0xFFF8 * v.sectors_per_cluster ≤ 2 ^ 32 =
            vol.fits in
          bound v.part_lba v.fat_start_lba (v.num_fats * v.fat_size) v.root_start_lba
            (root_sectors v) v.data_start_lba v.sectors_per_cluster a b c);
  }

  pub IsVolume-HasTree : HasTree v
  IsVolume-HasTree = record {
    after = vol.fat_end;
    inside =
        root_bound v.part_lba v.root_start_lba (root_sectors v) v.data_start_lba
          v.sectors_per_cluster vol.root_end vol.fits;
  }

  pub IsVolume-HasRoot : HasRoot v
  IsVolume-HasRoot = record {
    healthy = vol.healthy;
    writable = vol.writable;
    sized = (let s : v.bytes_per_sector ≡ 512 = vol.sized in omega arith);
    fits = IsVolume-HasTree.inside;
  }

  pub IsVolume-HasData : HasData v
  IsVolume-HasData = record {
    healthy = vol.healthy;
    writable = vol.writable;
    after =
        data_bound v.fat_start_lba v.fat_size (v.num_fats * v.fat_size) v.root_start_lba
          (root_sectors v) v.data_start_lba (one_copy v.num_fats v.fat_size vol.copies) vol.fat_end
          vol.root_end;
    fits = vol.fits;
  }

  pub root_address≢place :
      (i c j : ℕ)
      → i < root_sectors v
      → IsCluster c v
      → j < v.sectors_per_cluster
      → root_address i v ≢ place c j v
  root_address≢place i c j lt (lo, hi, in_c) lt_j =
      let z : ℕ = v.sectors_per_cluster in
      let row : (c - 2) * z + z ≤ 0xFFF8 * z = rows (c - 2) 0xFFF8 z (omega arith) in
      root_data_apart v.part_lba v.root_start_lba i (root_sectors v) v.data_start_lba ((c - 2) * z)
        z j (0xFFF8 * z) vol.root_end vol.fits lt row lt_j

  pub fat_address≢root :
      (d i : ℕ) → InTable d v → i < root_sectors v → fat_address d v ≢ root_address i v
  fat_address≢root d i in_d lt =
      fat_root_apart v.part_lba v.fat_start_lba (d * 2 / 512) v.fat_size (v.num_fats * v.fat_size)
        v.root_start_lba i (root_sectors v) (one_copy v.num_fats v.fat_size vol.copies) vol.fat_end
        IsVolume-HasTree.inside (omega arith) lt
