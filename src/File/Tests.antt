-- ===== src/File/Tests.antt =====
-- Descriptors on the directory and the file of the tests of kernel/fs/ramfs.c.
use flyos.Base.{ℕ, ◌≡◌, refl, true, false, [], ◌∷◌, ◌==◌, if◌then◌else◌, arith, some, ◌⊎◌}
use flyos.Heap.Spec.{Segs}
use flyos.Heap.Valid.{IsHeap}
use flyos.Ramfs.Defs.{str_eq, find_from, find_child}
use flyos.Ramfs.Path.{take_name, skip_slashes, walk, lookup}
use flyos.Ramfs.Data.{minus_one}
use flyos.Ramfs.Enlarge.{Refused}
use flyos.Ramfs.Contents.{Written}
use flyos.Ramfs.Tests.{top, notes, blocks, fs, heap-IsHeap, notes-IsFile}
use flyos.File.Defs.{Files, empty_slot, file_open, file_write, file_read}
use flyos.File.Slots.{Taken, file_open-Taken}
use flyos.File.Transfer.{IsOpen, file_read-file_write}

-- The descriptors 3 and 4 are open on the file, 5 on the directory.
abbrev files : Files
files = record {
  table = λ fd.
      if fd == 3
      then record { used = true; node = notes; pos = 0; is_dir = false }
      else if fd == 4
      then record { used = true; node = notes; pos = 0; is_dir = false }
      else if fd == 5
      then record { used = true; node = top; pos = 0; is_dir = true }
      else empty_slot;
  fs = fs;
}

file_open-Taken_example :
    (fd : ℕ) × (s' : Files) × (file_open (47 ∷ 110 ∷ []) files ≡ some (fd, s'))
    × Taken notes false files fd s'
unfolding lookup walk take_name skip_slashes find_child find_from str_eq
file_open-Taken_example =
    file_open-Taken (47 ∷ 110 ∷ []) notes files refl (λ e. absurd (omega (arith, e))) refl

file_read-file_write_example :
    (r : ℕ) × (s' : Files) × (bs' : Segs) × (file_write 3 (5 ∷ 6 ∷ []) files ≡ some (r, s'))
    × IsHeap s'.fs.heap bs'
    × (((r ≡ 2)
          × IsOpen 3 notes 2 s'
          × Written notes (5 ∷ 6 ∷ []) 0 fs s'.fs blocks bs'
          × ((s'' : Files) × (file_read 4 2 s' ≡ (2, 5 ∷ 6 ∷ [], s'')) × IsOpen 4 notes 2 s''))
        ⊎ ((r ≡ minus_one) × (s'.table ≡ files.table) × Refused fs s'.fs blocks bs'))
file_read-file_write_example =
    file_read-file_write 3 4 notes (5 ∷ 6 ∷ []) 0 files blocks (λ e. absurd (omega (arith, e)))
      (record { low = omega arith; high = omega arith; slot = refl })
      (record { low = omega arith; high = omega arith; slot = refl }) heap-IsHeap notes-IsFile
      (omega arith) (omega arith)
