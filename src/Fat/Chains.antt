-- ===== src/Fat/Chains.antt =====
-- Cluster chains of kernel/fs/fat16.c and the places of their sectors.
use flyos.Base.{
  ℕ, ◌+◌, ◌-◌, ◌*◌, ◌≤◌, ◌<◌, ◌%◌, ◌^◌, ◌≡◌, ◌≢◌, ◌⊎◌, inl, inr, List, [], ◌∷◌, true, false, refl,
  sym, subst, ◌∙◌, ap, arith,
}
use flyos.Fat.Disk.{Sector, Volume, address, read16}
use flyos.Fat.Table.{fat_get, is_data}
use flyos.Fat.Files.{cluster_lba}
use flyos.Fat.Entries.{fat_address, fat_get_good}
use flyos.Fat.Assign.{InTable}
use flyos.Fat.Contents.{left, Holds}
use flyos.Fat.Stored.{with_sectors}

unfoldable pub In : ℕ → List ℕ → Type 0
In c [] = ⊥
In c (d ∷ ds) = (c ≡ d) ⊎ In c ds

unfoldable pub Distinct : List ℕ → Type 0
Distinct [] = Unit
Distinct (c ∷ cs) = (¬ In c cs) × Distinct cs

-- The chain from `c` on runs through the clusters and then ends.
unfoldable pub IsChain : (c : ℕ) → List ℕ → Volume → Type 0
IsChain c [] v = is_data c ≡ false
IsChain c (d ∷ ds) v = (c ≡ d) × (is_data d ≡ true) × IsChain (fat_get d v) ds v

-- No sector fails, and the data lie after the first copy of the table and not past the last sector number.
pub record HasData (v : Volume) : Type 0 where
  pub healthy : (a : ℕ) → v.read_fails a ≡ false
  pub writable : (a : ℕ) → v.write_fails a ≡ false
  pub after : v.fat_start_lba + v.fat_size ≤ v.data_start_lba
  pub fits : v.part_lba + v.data_start_lba + 0xFFF8 * v.sectors_per_cluster ≤ 2 ^ 32

abbrev pub IsCluster : ℕ → Volume → Type 0
IsCluster c v = (2 ≤ c) × (c < 0xFFF8) × InTable c v

abbrev pub AreClusters : List ℕ → Volume → Type 0
AreClusters cs v = (c : ℕ) → In c cs → IsCluster c v

-- The address of the sector `i` of a cluster.
abbrev pub place : (c i : ℕ) → Volume → ℕ
place c i v = address (cluster_lba c v + i) v

less_cases : (c d : ℕ) → c ≢ d → (c < d) ⊎ (d < c)
less_cases c d ne = ground arith

pub rows : (m n z : ℕ) → m < n → m * z + z ≤ n * z
rows m n z lt = grind arith

place_apart :
    (c d i j : ℕ) (v : Volume)
    → HasData v
    → IsCluster c v
    → IsCluster d v
    → c < d
    → i < v.sectors_per_cluster
    → j < v.sectors_per_cluster
    → place c i v ≢ place d j v
place_apart c d i j v h (lo, hi, in_c) (lo', hi', in_d) lt lt_i lt_j =
    let z : ℕ = v.sectors_per_cluster in
    let fits : v.part_lba + v.data_start_lba + 0xFFF8 * z ≤ 2 ^ 32 = h.fits in
    let rows_c : (c - 2) * z + z ≤ (d - 2) * z = rows (c - 2) (d - 2) z (omega arith) in
    let rows_d : (d - 2) * z + z ≤ 0xFFF8 * z = rows (d - 2) 0xFFF8 z (omega arith) in
    omega (arith, rows_c, rows_d)

-- Sectors of two clusters have different addresses.
pub place≢place :
    (c d i j : ℕ) (v : Volume)
    → HasData v
    → IsCluster c v
    → IsCluster d v
    → c ≢ d
    → i < v.sectors_per_cluster
    → j < v.sectors_per_cluster
    → place c i v ≢ place d j v
place≢place c d i j v h hc hd ne lt_i lt_j = elim (less_cases c d ne) [
  | inl lt ↦ place_apart c d i j v h hc hd lt lt_i lt_j
  | inr lt ↦ λ e. place_apart d c j i v h hd hc lt lt_j lt_i (sym e)
]

-- The table and the clusters do not overlap.
pub fat_address≢place :
    (d c i : ℕ) (v : Volume)
    → HasData v
    → InTable d v
    → IsCluster c v
    → i < v.sectors_per_cluster
    → fat_address d v ≢ place c i v
fat_address≢place d c i v h in_d (lo, hi, in_c) lt =
    let z : ℕ = v.sectors_per_cluster in
    let fits : v.part_lba + v.data_start_lba + 0xFFF8 * z ≤ 2 ^ 32 = h.fits in
    let after : v.fat_start_lba + v.fat_size ≤ v.data_start_lba = h.after in
    let rows_c : (c - 2) * z + z ≤ 0xFFF8 * z = rows (c - 2) 0xFFF8 z (omega arith) in
    omega (arith, rows_c)

pub fat_get_same :
    (d : ℕ) (s : ℕ → Sector) (v : Volume)
    → ((a : ℕ) → v.read_fails a ≡ false)
    → s (fat_address d v) ≡ v.sectors (fat_address d v)
    → fat_get d (with_sectors s v) ≡ fat_get d v
fat_get_same d s v healthy e =
    fat_get_good d (with_sectors s v) (healthy (fat_address d v))
    ∙ ap (read16 (d * 2 % 512)) e
    ∙ sym (fat_get_good d v (healthy (fat_address d v)))

-- A chain stays where the entries of its clusters do.
pub IsChain-same :
    (c : ℕ) (cs : List ℕ) (v v' : Volume)
    → ((d : ℕ) → In d cs → fat_get d v' ≡ fat_get d v)
    → IsChain c cs v
    → IsChain c cs v'
unfolding IsChain In
IsChain-same c [] v v' same h = h
IsChain-same c (d ∷ ds) v v' same (at, inside, h) = (
  at,
  inside,
  subst (λ e. IsChain e ds v') (sym (same d (inl refl)))
      (IsChain-same (fat_get d v) ds v v' (λ e h'. same e (inr h')) h),
)

-- The clusters hold the bytes, each as many as it has room for.
unfoldable pub HoldsChain : (cs xs : List ℕ) → Volume → Type 0
HoldsChain [] xs v = Unit
HoldsChain (c ∷ cs) xs v =
    Holds v.sectors_per_cluster (cluster_lba c v) xs v
    × HoldsChain cs (left v.sectors_per_cluster xs) v

-- The clusters have room for the bytes.
unfoldable pub HaveRoom : (per : ℕ) (cs xs : List ℕ) → Type 0
HaveRoom per [] xs = xs ≡ []
HaveRoom per (c ∷ cs) xs = HaveRoom per cs (left per xs)
