-- ===== src/Fat/Allocate.antt =====
-- `alloc_cluster` of kernel/fs/fat16.c takes the lowest free cluster.
use flyos.Base.{
  ℕ, zero, suc, ◌+◌, ◌*◌, ◌≤◌, ◌<◌, ◌/◌, ◌%◌, ◌≡◌, ◌≢◌, ◌⊎◌, inl, inr, true, false, refl, sym,
  subst, ◌∙◌, ap, ◌==◌, ltb, leb, ==_iff, Bool-cases, if◌then◌else◌, arith,
}
use flyos.Fat.Disk.{Sector, Volume, read16, sector_at, address}
use flyos.Fat.Table.{
  fat_get, fat_set, Scan, more, out_of_range, free_at, scan_entries, scan_table, alloc_cluster,
}
use flyos.Fat.Words.{read_sector_good}
use flyos.Fat.Entries.{==_cases, fat_get_good, fat_address}
use flyos.Fat.Assign.{IsSound, InTable, fat_set_lem}

-- The entries from `lo` to `hi` - 1 that may be allocated are in use.
abbrev Taken : (value : ℕ → ℕ) (lo hi : ℕ) → Type 0
Taken value lo hi = (d : ℕ) → lo ≤ d → d < hi → 2 ≤ d → d < 0xFFF0 → value d ≢ 0

abbrev Lowest : (value : ℕ → ℕ) (lo hi c : ℕ) → Type 0
Lowest value lo hi c =
    (lo ≤ c) × (c < hi) × (2 ≤ c) × (c < 0xFFF0) × (value c ≡ 0) × Taken value lo c

Outcomes : (value : ℕ → ℕ) (lo hi : ℕ) → Scan → Type 0
Outcomes value lo hi more = Taken value lo hi
Outcomes value lo hi out_of_range = Taken value lo hi × (0xFFF0 < hi)
Outcomes value lo hi (free_at c) = Lowest value lo hi c

Taken-skip :
    (value : ℕ → ℕ) (lo hi : ℕ)
    → ((2 ≤ lo) → (lo < 0xFFF0) → value lo ≢ 0)
    → Taken value (lo + 1) hi
    → Taken value lo hi
Taken-skip value lo hi here t d ge lt two top = elim (==_cases lo d) [
  | inl e ↦ subst (λ k. value k ≢ 0) e (here (omega arith) (omega arith))
  | inr ne ↦ t d (omega arith) lt two top
]

-- One more entry in front that cannot be taken.
Outcomes-skip :
    (value : ℕ → ℕ) (lo hi : ℕ) (r : Scan)
    → lo < hi
    → ((2 ≤ lo) → (lo < 0xFFF0) → value lo ≢ 0)
    → Outcomes value (lo + 1) hi r
    → Outcomes value lo hi r
unfolding Outcomes
Outcomes-skip value lo hi more lt here t = Taken-skip value lo hi here t
Outcomes-skip value lo hi out_of_range lt here (t, far) = (Taken-skip value lo hi here t, far)
Outcomes-skip value lo hi (free_at c) lt here (above, below, two, top, empty, t) =
    (omega arith, below, two, top, empty, Taken-skip value lo c here t)

scan_entries_lem :
    (value : ℕ → ℕ) (n i s : ℕ) (b : Sector)
    → ((j : ℕ) → i ≤ j → j < i + n → value (s * 256 + j) ≡ read16 (j * 2) b)
    → Outcomes value (s * 256 + i) (s * 256 + i + n) (scan_entries n i s b)
unfolding Outcomes scan_entries
scan_entries_lem value zero i s b reads = λ d lo hi two top. absurd (omega arith)
scan_entries_lem value (suc n) i s b reads =
    let lo : ℕ = s * 256 + i in
    let r : Scan = scan_entries n (i + 1) s b in
    let lows : s * 256 + (i + 1) ≡ lo + 1 = omega arith in
    let highs : s * 256 + (i + 1) + n ≡ lo + suc n = omega arith in
    let tail : Outcomes value (lo + 1) (lo + suc n) r =
      subst (λ h. Outcomes value (lo + 1) h r) highs
        (subst (λ l. Outcomes value l (s * 256 + (i + 1) + n) r) lows
          (scan_entries_lem value n (i + 1) s b
            (λ j ge lt. reads j (omega arith) (omega arith)))) in
    let entry : value lo ≡ read16 (i * 2) b = reads i (omega arith) (omega arith) in
    let skipped : ((2 ≤ lo) → (lo < 0xFFF0) → value lo ≢ 0) → Outcomes value lo (lo + suc n) r =
      λ here. Outcomes-skip value lo (lo + suc n) r (omega arith) here tail in
    elim (Bool-cases (ltb lo 2)) [
      | inl small ↦ rw small (skipped (λ two top. absurd (ground arith)))
      | inr large ↦ elim (Bool-cases (leb 0xFFF0 lo)) [
        | inl past ↦
            let far : 0xFFF0 ≤ lo = ground arith in
            rw (large, past) (λ d ge lt two top. absurd (omega arith), omega arith)
        | inr inside ↦ elim (Bool-cases (read16 (i * 2) b == 0)) [
          | inl empty ↦
              let free : value lo ≡ 0 = entry ∙ (==_iff (read16 (i * 2) b) 0).0 empty in
              let two : 2 ≤ lo = ground arith in
              let top : lo < 0xFFF0 = ground arith in
              rw (large, inside, empty)
                (omega arith, omega arith, two, top, free, λ d ge lt two top. absurd (omega arith))
          | inr used ↦
              let taken : value lo ≢ 0 = rw entry (ground arith) in
              rw (large, inside, used) (skipped (λ two top. taken))
        ]
      ]
    ]

-- What the scan finds from `lo` to `hi` - 1: nothing, or the lowest.
Found : (value : ℕ → ℕ) (lo hi c : ℕ) → Type 0
Found value lo hi c = ((c ≡ 0) × Taken value lo hi) ⊎ Lowest value lo hi c

abbrev go_on : Scan → ℕ → ℕ
go_on more rest = rest
go_on out_of_range rest = 0
go_on (free_at c) rest = c

Taken-append :
    (value : ℕ → ℕ) (lo mid hi : ℕ) → Taken value lo mid → Taken value mid hi → Taken value lo hi
Taken-append value lo mid hi t u d ge lt two top = elim (Bool-cases (ltb d mid)) [
  | inl below ↦ t d ge (ground arith) two top
  | inr above ↦ u d (ground arith) lt two top
]

Found-step :
    (value : ℕ → ℕ) (lo mid hi rest : ℕ) (r : Scan)
    → lo ≤ mid
    → mid ≤ hi
    → Outcomes value lo mid r
    → Found value mid hi rest
    → Found value lo hi (go_on r rest)
unfolding Outcomes Found
Found-step value lo mid hi rest more le le' t (inl (e, u)) =
    inl (e, Taken-append value lo mid hi t u)
Found-step value lo mid hi rest more le le' t (inr (above, below, two, top, empty, u)) =
    inr (omega arith, below, two, top, empty, Taken-append value lo mid rest t u)
Found-step value lo mid hi rest out_of_range le le' (t, far) found =
    inl (refl, λ d ge lt two top. t d ge (omega arith) two top)
Found-step value lo mid hi rest (free_at c) le le' (above, below, two, top, empty, t) found =
    inr (above, omega arith, two, top, empty, t)

entry_in_sector :
    (s j : ℕ) (v : Volume)
    → IsSound v
    → j < 256
    → fat_get (s * 256 + j) v ≡ read16 (j * 2) (sector_at (v.fat_start_lba + s) v)
entry_in_sector s j v sound lt =
    let off : (s * 256 + j) * 2 % 512 ≡ j * 2 = omega arith in
    let sec : (s * 256 + j) * 2 / 512 ≡ s = omega arith in
    fat_get_good (s * 256 + j) v (sound.healthy (fat_address (s * 256 + j) v))
    ∙ ap (λ o. read16 o (sector_at (v.fat_start_lba + (s * 256 + j) * 2 / 512) v)) off
    ∙ ap (λ q. read16 (j * 2) (sector_at (v.fat_start_lba + q) v)) sec

go_on_lem :
    (r : Scan) (rest : ℕ) → elim r [ more ↦ rest | out_of_range ↦ 0 | free_at c ↦ c ] ≡ go_on r rest
go_on_lem more rest = refl
go_on_lem out_of_range rest = refl
go_on_lem (free_at c) rest = refl

scan_table-go_on :
    (n s : ℕ) (v : Volume)
    → IsSound v
    → scan_table (suc n) s v
      ≡ go_on (scan_entries 256 0 s (sector_at (v.fat_start_lba + s) v)) (scan_table n (s + 1) v)
unfolding scan_table
scan_table-go_on n s v sound =
    rw
      (
        read_sector_good (v.fat_start_lba + s) v (sound.healthy (address (v.fat_start_lba + s) v)),
        scan_table,
      )
      (go_on_lem (scan_entries 256 0 s (sector_at (v.fat_start_lba + s) v))
        (scan_table n (s + 1) v))

scan_table_lem :
    (n s : ℕ) (v : Volume)
    → IsSound v
    → Found (λ d. fat_get d v) (s * 256) ((s + n) * 256) (scan_table n s v)
unfolding scan_table Found
scan_table_lem zero s v sound = inl (refl, λ d ge lt two top. absurd (omega arith))
scan_table_lem (suc n) s v sound =
    let b : Sector = sector_at (v.fat_start_lba + s) v in
    let rest : ℕ = scan_table n (s + 1) v in
    let ends : (s + 1 + n) * 256 ≡ (s + suc n) * 256 = omega arith in
    let mid : s * 256 + 0 + 256 ≡ (s + 1) * 256 = omega arith in
    let low : s * 256 + 0 ≡ s * 256 = omega arith in
    let here : Outcomes (λ d. fat_get d v) (s * 256) ((s + 1) * 256) (scan_entries 256 0 s b) =
      subst (λ m. Outcomes (λ d. fat_get d v) (s * 256) m (scan_entries 256 0 s b)) mid
        (subst (λ l. Outcomes (λ d. fat_get d v) l (s * 256 + 0 + 256) (scan_entries 256 0 s b)) low
          (scan_entries_lem (λ d. fat_get d v) 256 0 s b
            (λ j ge lt. entry_in_sector s j v sound (omega arith)))) in
    let there : Found (λ d. fat_get d v) ((s + 1) * 256) ((s + suc n) * 256) rest =
      subst (λ h. Found (λ d. fat_get d v) ((s + 1) * 256) h rest) ends
        (scan_table_lem n (s + 1) v sound) in
    subst (Found (λ d. fat_get d v) (s * 256) ((s + suc n) * 256))
      (sym (scan_table-go_on n s v sound))
      (Found-step (λ d. fat_get d v) (s * 256) ((s + 1) * 256) ((s + suc n) * 256) rest
        (scan_entries 256 0 s b) (omega arith) (omega arith) here there)

-- A cluster that may be allocated.
abbrev pub IsFree : ℕ → Volume → Type 0
IsFree d v = (2 ≤ d) × (d < 0xFFF0) × InTable d v × (fat_get d v ≡ 0)

-- The cluster `c` is taken in the table.
pub record Takes (v : Volume) (c : ℕ) (v' : Volume) : Type 0 where
  pub free : IsFree c v
  pub lowest : (d : ℕ) → IsFree d v → c ≤ d
  pub table : (d : ℕ) → InTable d v → fat_get d v' ≡ (if c == d then 0xFFFF else fat_get d v)
  pub written : v' ≡ (fat_set c 0xFFFF v).1

scan-Found :
    (v : Volume)
    → IsSound v
    → Found (λ d. fat_get d v) 0 (v.fat_size * 256) (scan_table v.fat_size 0 v)
unfolding Found
scan-Found v sound =
    let low : 0 * 256 ≡ 0 = omega arith in
    let high : (0 + v.fat_size) * 256 ≡ v.fat_size * 256 = omega arith in
    subst (λ h. Found (λ d. fat_get d v) 0 h (scan_table v.fat_size 0 v)) high
      (scan_table_lem v.fat_size 0 v sound)

alloc_cluster_found :
    (v : Volume)
    → scan_table v.fat_size 0 v ≢ 0
    → (fat_set (scan_table v.fat_size 0 v) 0xFFFF v).0 ≡ true
    → alloc_cluster v
      ≡ (scan_table v.fat_size 0 v, (fat_set (scan_table v.fat_size 0 v) 0xFFFF v).1)
unfolding alloc_cluster
alloc_cluster_found v ne ok =
    let eq : (scan_table v.fat_size 0 v == 0) ≡ false = ground arith in rw (eq, ok) refl

lowest_of : (c d : ℕ) (v : Volume) → 2 ≤ c → Taken (λ d. fat_get d v) 0 c → IsFree d v → c ≤ d
lowest_of c d v two taken (lo, hi, inside, zeroed) = elim (Bool-cases (ltb d c)) [
  | inl below ↦ absurd (taken d (omega arith) (ground arith) lo hi zeroed)
  | inr above ↦ ground arith
]

-- On a sound volume alloc_cluster returns 0 and changes nothing when no cluster from 2 to 0xFFEF of the table is free;
-- else it returns the lowest that is, with 0xFFFF in its entry and every other entry as before.
pub alloc_cluster_lem :
    (v : Volume)
    → IsSound v
    → ((alloc_cluster v ≡ (0, v)) × ((d : ℕ) → ¬ IsFree d v))
      ⊎ Takes v (alloc_cluster v).0 (alloc_cluster v).1
unfolding alloc_cluster Found
alloc_cluster_lem v sound = elim (scan-Found v sound) [
  | inl (e, taken) ↦
      inl (rw e refl, λ d (two, top, inside, empty). taken d (omega arith) inside two top empty)
  | inr (above, below, two, top, empty, taken) ↦
      let c : ℕ = scan_table v.fat_size 0 v in
      let ok : (fat_set c 0xFFFF v).0 ≡ true =
        (fat_set_lem c 0xFFFF c v sound (omega arith) below below).0 in
      inr (
        rw (alloc_cluster_found v (omega arith) ok) record {
          free = (two, top, below, empty);
          lowest = λ d (lo, hi, inside, zeroed). lowest_of c d v two taken (lo, hi, inside, zeroed);
          table = λ d inside. (fat_set_lem c 0xFFFF d v sound (omega arith) below inside).1;
          written = refl;
        })
]
