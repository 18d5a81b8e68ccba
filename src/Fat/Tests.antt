-- ===== src/Fat/Tests.antt =====
-- Examples for kernel/fs/fat16.c: an empty volume, and one whose table has a cycle.
use flyos.Base.{ℕ, ◌≡◌, ◌⊎◌, none, true, [], ◌∷◌, false, refl, ◌==◌, if◌then◌else◌, arith}
use flyos.Fat.Disk.{Volume, done, put16, read_sector}
use flyos.Fat.Table.{alloc_cluster, fat_get, fat_set}
use flyos.Fat.Files.{fat16_write_file, fat16_delete_file}
use flyos.Fat.Root.{find_root_entry, write_root_dirent}
use flyos.Fat.Names.{parse_83}
use flyos.Fat.Assign.{IsSound, fat_set_lem}
use flyos.Fat.Allocate.{IsFree, Takes, alloc_cluster_lem}
use flyos.Fat.Release.{Freed, free_chain-ends}
use flyos.Fat.Scanning.{IsName}
use flyos.Fat.Parsing.{parse_83-IsName}
use flyos.Fat.Create.{IsFull, Created, write_root_dirent_lem}
use flyos.Fat.Separate.{IsVolume, IsVolume-IsSound, IsVolume-HasRoot}
use flyos.Fat.RoundTrip.{Stored, fat16_write_file-Stored}

-- A table of one sector, twice, a directory of one sector, and clusters of one sector.
abbrev empty_disk : Volume
empty_disk = record {
  sectors = λ a i. 0;
  read_fails = λ a. false;
  write_fails = λ a. false;
  arrives = λ a. false;
  has_memory = true;
  part_lba = 63;
  bytes_per_sector = 512;
  sectors_per_cluster = 1;
  reserved_sectors = 1;
  num_fats = 2;
  root_entries = 16;
  fat_size = 1;
  fat_start_lba = 1;
  root_start_lba = 3;
  data_start_lba = 4;
}

-- The clusters 2 and 3 follow each other in a cycle.
abbrev cyclic_disk : Volume
cyclic_disk = record empty_disk { sectors = λ a. put16 4 3 (put16 6 2 (λ i. 0)) }

empty_disk-IsVolume : IsVolume empty_disk
empty_disk-IsVolume = record {
  healthy = λ a. refl;
  writable = λ a. refl;
  copies = omega arith;
  sized = refl;
  clustered = omega arith;
  fat_end = omega arith;
  root_end = omega arith;
  fits = omega arith;
}

empty_disk-IsSound : IsSound empty_disk
empty_disk-IsSound = IsVolume-IsSound empty_disk empty_disk-IsVolume

letter-IsName : IsName (parse_83 (65 ∷ []))
letter-IsName = parse_83-IsName (65 ∷ []) (omega arith, tt) (omega arith) (omega arith)

empty_disk_missing : find_root_entry (65 ∷ []) empty_disk ≡ done none
unfolding find_root_entry read_sector
empty_disk_missing = refl

empty_disk_deleted : fat16_delete_file 65532 (65 ∷ []) empty_disk ≡ done (false, empty_disk)
unfolding fat16_delete_file
empty_disk_deleted = refl

fat16_write_file-Stored_example :
    Stored 65532
      (65 ∷ [])
      (104 ∷ 105 ∷ [])
      empty_disk
      (fat16_write_file 65532 (65 ∷ []) (104 ∷ 105 ∷ []) empty_disk)
fat16_write_file-Stored_example =
    fat16_write_file-Stored 65532 (65 ∷ []) (104 ∷ 105 ∷ []) false empty_disk empty_disk
      empty_disk_deleted empty_disk-IsVolume refl (omega arith, tt) (omega arith) (omega arith)
      empty_disk_missing (omega arith) (omega arith)

free_chain-ends_example : Freed 65530 2 cyclic_disk
free_chain-ends_example =
    free_chain-ends 65530 2 cyclic_disk (omega arith) (λ a e. refl) (omega arith)

alloc_cluster_lem_example :
    ((alloc_cluster empty_disk ≡ (0, empty_disk)) × ((d : ℕ) → ¬ IsFree d empty_disk))
    ⊎ Takes empty_disk (alloc_cluster empty_disk).0 (alloc_cluster empty_disk).1
alloc_cluster_lem_example = alloc_cluster_lem empty_disk empty_disk-IsSound

fat_set_lem_example :
    ((fat_set 2 3 empty_disk).0 ≡ true)
    × (fat_get 4 (fat_set 2 3 empty_disk).1 ≡ (if 2 == 4 then 3 else fat_get 4 empty_disk))
fat_set_lem_example =
    fat_set_lem 2 3 4 empty_disk empty_disk-IsSound (omega arith) (omega arith) (omega arith)

write_root_dirent_lem_example :
    (IsFull empty_disk
      × (write_root_dirent (parse_83 (65 ∷ [])) 2 5 empty_disk ≡ done (false, empty_disk)))
    ⊎ Created (65 ∷ []) 2 5 empty_disk
write_root_dirent_lem_example =
    write_root_dirent_lem (65 ∷ []) 2 5 empty_disk (IsVolume-HasRoot empty_disk empty_disk-IsVolume)
      refl letter-IsName (omega arith) (omega arith) empty_disk_missing
