-- ===== src/Fat/Words.antt =====
-- Sectors under kernel/fs/fat16.c: good and bad ones, and their 16-bit words.
use flyos.Base.{
  if◌then◌else◌, true, false, none, some, refl, ℕ, ◌*◌, ◌%◌, ◌^◌, ◌<◌, ◌≡◌, ◌≢◌, arith,
}
use flyos.Fat.Disk.{
  Sector, Volume, read_sector, write_sector, put_sector, sector_at, address, read16, put16,
}

pub read16-put16 : (off v : ℕ) (b : Sector) → v < 2 ^ 16 → read16 off (put16 off v b) ≡ v
read16-put16 off v b lt = ground arith

-- The words of a table stand at even offsets.
pub read16-put16_other :
    (c d v : ℕ) (b : Sector)
    → c * 2 % 512 ≢ d * 2 % 512
    → read16 (d * 2 % 512) (put16 (c * 2 % 512) v b) ≡ read16 (d * 2 % 512) b
read16-put16_other c d v b ne = ground arith

pub read_sector_good :
    (l : ℕ) (v : Volume)
    → v.read_fails (address l v) ≡ false
    → read_sector l v ≡ some (sector_at l v)
unfolding read_sector
read_sector_good l v e = rw e refl

pub read_sector_bad :
    (l : ℕ) (v : Volume) → v.read_fails (address l v) ≡ true → read_sector l v ≡ none
unfolding read_sector
read_sector_bad l v e = rw e refl

pub write_sector_good :
    (l : ℕ) (b : Sector) (v : Volume)
    → v.write_fails (address l v) ≡ false
    → write_sector l b v ≡ (true, record v { sectors = put_sector (address l v) b v.sectors })
unfolding write_sector
write_sector_good l b v e = rw e refl

pub write_sector_bad :
    (l : ℕ) (b : Sector) (v : Volume)
    → v.write_fails (address l v) ≡ true
    → write_sector l b v ≡ (
      false,
      if v.arrives (address l v)
          then record v { sectors = put_sector (address l v) b v.sectors }
          else v,
    )
unfolding write_sector
write_sector_bad l b v e = rw e refl
