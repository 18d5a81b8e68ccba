-- ===== src/Fat/Keeping.antt =====
-- What the table's writes of kernel/fs/fat16.c leave alone: the fields of the volume and the root directory.
use flyos.Base.{ℕ, ◌+◌, ◌*◌, ◌≤◌, ◌<◌, ◌/◌, ◌%◌, ◌^◌, ◌≡◌, ◌≢◌, refl, sym, subst, ◌∙◌, arith}
use flyos.Fat.Disk.{Sector, Volume, address, root_sectors, put16}
use flyos.Fat.Table.{fat_set}
use flyos.Fat.Entries.{Words, stay, write, copy_address, Copies, set_copies-Words, put_sector_other}
use flyos.Fat.Assign.{InTable, fat_set-fields}
use flyos.Fat.Stored.{with_sectors}
use flyos.Fat.Chains.{rows}

-- The directory lies after the table and not past the last sector number.
pub record HasTree (v : Volume) : Type 0 where
  pub after : v.fat_start_lba + v.num_fats * v.fat_size ≤ v.root_start_lba
  pub inside : v.part_lba + v.root_start_lba + root_sectors v ≤ 2 ^ 32

-- The address of the sector `i` of the directory.
abbrev pub root_address : ℕ → Volume → ℕ
root_address i v = address (v.root_start_lba + i) v

abbrev pub KeepsRoot : Volume → Volume → Type 0
KeepsRoot v v' =
    (s : ℕ → Sector) × (v' ≡ with_sectors s v)
    × ((i : ℕ) → i < root_sectors v → s (root_address i v) ≡ v.sectors (root_address i v))

pub KeepsRoot-refl : (v : Volume) → KeepsRoot v v
KeepsRoot-refl v = (v.sectors, refl, λ i lt. refl)

pub KeepsRoot-trans : (v v' v'' : Volume) → KeepsRoot v v' → KeepsRoot v' v'' → KeepsRoot v v''
KeepsRoot-trans v v' v'' (s, e, f) =
    subst (λ w. KeepsRoot w v'' → KeepsRoot v v'') (sym e)
      (λ (s', e', f'). (s', e', λ i lt. f' i lt ∙ f i lt))

Words_sectors :
    (P : ℕ → Type 0) (c x y : ℕ) {v v' : Volume}
    → ((a : ℕ) → P a → a ≢ y)
    → Words P c x v v'
    → v'.sectors y ≡ v.sectors y
Words_sectors P c x y apart stay = refl
Words_sectors P c x y apart (write {v} {v'} a p w) =
    Words_sectors P c x y apart w
    ∙ put_sector_other a y (put16 (c * 2 % 512) x (v.sectors a)) v.sectors (apart a p)

root_apart :
    (part fat q gz z nz root i n : ℕ)
    → gz + z ≤ nz
    → fat + nz ≤ root
    → part + root + n ≤ 2 ^ 32
    → q < z
    → i < n
    → (part + (fat + q + gz)) % 2 ^ 32 ≢ (part + (root + i)) % 2 ^ 32
root_apart part fat q gz z nz root i n row after inside lt lt_i = omega arith

copy_address≢root :
    (c g i : ℕ) (v : Volume)
    → HasTree v
    → InTable c v
    → g < v.num_fats
    → i < root_sectors v
    → copy_address c g v ≢ root_address i v
copy_address≢root c g i v tree in_c lt lt_i =
    let row : g * v.fat_size + v.fat_size ≤ v.num_fats * v.fat_size =
      rows g v.num_fats v.fat_size lt in
    let after : v.fat_start_lba + v.num_fats * v.fat_size ≤ v.root_start_lba = tree.after in
    let inside : v.part_lba + v.root_start_lba + root_sectors v ≤ 2 ^ 32 = tree.inside in
    root_apart v.part_lba v.fat_start_lba (c * 2 / 512) (g * v.fat_size) v.fat_size
      (v.num_fats * v.fat_size) v.root_start_lba i (root_sectors v) row after inside (omega arith)
      lt_i

-- Writing an entry keeps the directory.
pub fat_set-KeepsRoot :
    (c x : ℕ) (v : Volume) → HasTree v → InTable c v → KeepsRoot v (fat_set c x v).1
unfolding fat_set
fat_set-KeepsRoot c x v tree in_c = (
  (fat_set c x v).1.sectors,
  fat_set-fields c x v,
  λ i lt.
      Words_sectors (Copies c 0 v.num_fats v) c x (root_address i v)
        (λ a (g, lo, hi, e). rw e (copy_address≢root c g i v tree in_c (omega arith) lt))
        (set_copies-Words v.num_fats 0 c x v),
)
