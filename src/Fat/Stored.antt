-- ===== src/Fat/Stored.antt =====
-- `write_cluster`: the sectors of a cluster of kernel/fs/fat16.c hold the bytes, and all others are kept.
use flyos.Base.{
  ℕ, zero, suc, ◌+◌, ◌≤◌, ◌<◌, ◌^◌, ◌≡◌, ◌≢◌, List, [], ◌∷◌, length, drop, true, false, refl, sym,
  ◌∙◌, ap, min, arith,
}
use flyos.Fat.Disk.{Sector, Volume, put_sector, address}
use flyos.Fat.Names.{bytes_at}
use flyos.Fat.Files.{write_cluster}
use flyos.Fat.Words.{write_sector_good}
use flyos.Fat.Entries.{put_sector-at, put_sector_other}
use flyos.Fat.Contents.{left, filled, filled_lem, Holds}

-- The volume with other sectors.
abbrev pub with_sectors : (ℕ → Sector) → Volume → Volume
with_sectors s v = record v { sectors = s }

-- The sectors at the addresses of the `n` sectors from `lba` on alone differ.
abbrev pub OnlyAt : (n lba : ℕ) (s : ℕ → Sector) → Volume → Type 0
OnlyAt n lba s v = (a : ℕ) → ((i : ℕ) → i < n → a ≢ address (lba + i) v) → s a ≡ v.sectors a

abbrev pub Stored : (n lba : ℕ) (xs : List ℕ) → Volume → Type 0
Stored n lba xs v =
    (s : ℕ → Sector) × (write_cluster n lba xs v ≡ (true, left n xs, with_sectors s v))
    × OnlyAt n lba s v
    × Holds n lba xs (with_sectors s v)

write_cluster-step :
    (n lba x : ℕ) (xs : List ℕ) (v : Volume)
    → v.write_fails (address lba v) ≡ false
    → write_cluster (suc n) lba (x ∷ xs) v
      ≡ write_cluster n
          (lba + 1)
          (drop 512 (x ∷ xs))
          (with_sectors (put_sector (address lba v) (filled (x ∷ xs)) v.sectors) v)
unfolding write_cluster
write_cluster-step n lba x xs v good =
    let ys : List ℕ = x ∷ xs in rw (write_sector_good lba (filled ys) v good, write_cluster) refl

pub write_cluster-Stored :
    (n lba : ℕ) (xs : List ℕ) (v : Volume)
    → ((a : ℕ) → v.write_fails a ≡ false)
    → v.part_lba + (lba + n) ≤ 2 ^ 32
    → Stored n lba xs v
unfolding write_cluster left Holds
write_cluster-Stored zero lba xs v writable fits = (v.sectors, refl, λ a out. refl, tt)
write_cluster-Stored (suc n) lba [] v writable fits = (v.sectors, refl, λ a out. refl, tt)
write_cluster-Stored (suc n) lba (x ∷ xs) v writable fits =
    let ys : List ℕ = x ∷ xs in
    let v' : Volume = with_sectors (put_sector (address lba v) (filled ys) v.sectors) v in
    let (s, runs, only, h) =
      write_cluster-Stored n (lba + 1) (drop 512 ys) v' writable (omega arith) in
    let kept : s (address lba v) ≡ filled ys =
      only (address lba v) (λ i lt. omega arith)
      ∙ put_sector-at (address lba v) (filled ys) v.sectors in
    (
      s,
      write_cluster-step n lba x xs v (writable (address lba v)) ∙ runs,
      (λ a out.
          let zeroth : lba + 0 ≡ lba = omega arith in
          let apart : address lba v ≢ a =
            λ e. out 0 (omega arith) (sym e ∙ ap (λ l. address l v) (sym zeroth)) in
          only a (λ i lt e.
            let at : lba + 1 + i ≡ lba + suc i = omega arith in
            out (suc i) (omega arith) (e ∙ ap (λ l. address l v) at))
          ∙ put_sector_other (address lba v) a (filled ys) v.sectors apart),
      (ap (bytes_at (min 512 (length ys)) 0) kept ∙ filled_lem ys, h),
    )
