-- ===== src/Fat/Written.antt =====
-- The loop of `fat16_write_file` of kernel/fs/fat16.c over the clusters of a chain.
use flyos.Base.{
  ℕ, zero, suc, ◌+◌, ◌-◌, ◌*◌, ◌≤◌, ◌<◌, ◌^◌, ◌≡◌, ◌≢◌, inl, inr, List, [], ◌∷◌, length, Bool, true,
  false, refl, sym, subst, ◌∙◌, ap, ◌==◌, Bool-cases, if◌then◌else◌, arith,
}
use flyos.Fat.Disk.{Sector, Volume, done}
use flyos.Fat.Table.{fat_get, is_data}
use flyos.Fat.Files.{cluster_lba, write_chain, write_cluster}
use flyos.Fat.Entries.{fat_address}
use flyos.Fat.Assign.{InTable}
use flyos.Fat.Contents.{left, Holds, Holds-same}
use flyos.Fat.Stored.{with_sectors, OnlyAt, write_cluster-Stored}
use flyos.Fat.Chains.{
  In, Distinct, IsChain, IsChain-same, HasData, IsCluster, AreClusters, place, place≢place,
  fat_address≢place, fat_get_same, HoldsChain, HaveRoom, rows,
}

-- Only sectors of the clusters differ.
abbrev pub OnlyIn : (cs : List ℕ) (s : ℕ → Sector) → Volume → Type 0
OnlyIn cs s v =
    (a : ℕ)
    → ((c i : ℕ) → In c cs → i < v.sectors_per_cluster → a ≢ place c i v)
    → s a ≡ v.sectors a

-- What the loop comes to.
abbrev pub Written : (fuel c : ℕ) (cs xs : List ℕ) → Volume → Type 0
Written fuel c cs xs v =
    (s : ℕ → Sector) × (write_chain fuel c xs v ≡ done (true, with_sectors s v))
    × OnlyIn cs s v
    × HoldsChain cs xs (with_sectors s v)

write_chain_end : (fuel c : ℕ) (v : Volume) → write_chain (suc fuel) c [] v ≡ done (true, v)
unfolding write_chain
write_chain_end fuel c v = elim (Bool-cases (is_data c)) [ inl e ↦ rw e refl | inr e ↦ rw e refl ]

left_empty : (n : ℕ) → left n [] ≡ []
unfolding left
left_empty zero = refl
left_empty (suc n) = refl

Holds-empty : (n lba : ℕ) (v : Volume) → Holds n lba [] v
unfolding Holds
Holds-empty zero lba v = tt
Holds-empty (suc n) lba v = tt

HoldsChain-empty : (cs : List ℕ) (v : Volume) → HoldsChain cs [] v
unfolding HoldsChain
HoldsChain-empty [] v = tt
HoldsChain-empty (c ∷ cs) v =
    let none_left : left v.sectors_per_cluster [] ≡ [] = left_empty v.sectors_per_cluster in
    (Holds-empty v.sectors_per_cluster (cluster_lba c v) v, rw none_left (HoldsChain-empty cs v))

write_chain-step :
    (fuel c x : ℕ) (xs rest : List ℕ) (v v' : Volume)
    → is_data c ≡ true
    → write_cluster v.sectors_per_cluster (cluster_lba c v) (x ∷ xs) v ≡ (true, rest, v')
    → write_chain (suc fuel) c (x ∷ xs) v ≡ write_chain fuel (fat_get c v') rest v'
unfolding write_chain
write_chain-step fuel c x xs rest v v' inside e =
    let eq : (length (x ∷ xs) == 0) ≡ false = ground arith in
    rw (inside, eq)
      (ap
        (λ (r : Bool × List ℕ × Volume).
          if r.0 then write_chain fuel (fat_get c r.2) r.1 r.2 else done (false, r.2))
        e)

-- Later writes keep a cluster, and what it holds.
HoldsChain-first :
    (c : ℕ) (cs xs : List ℕ) (s s' : ℕ → Sector) (v : Volume)
    → HasData v
    → AreClusters (c ∷ cs) v
    → ¬ In c cs
    → OnlyIn cs s' (with_sectors s v)
    → Holds v.sectors_per_cluster (cluster_lba c v) xs (with_sectors s v)
    → Holds v.sectors_per_cluster (cluster_lba c v) xs (with_sectors s' v)
unfolding In
HoldsChain-first c cs xs s s' v has clusters new only h =
    Holds-same v.sectors_per_cluster (cluster_lba c v) xs (with_sectors s v) (with_sectors s' v)
      (λ i lt. only (place c i v) (λ d j h' lt'.
        place≢place c d i j v has (clusters c (inl refl)) (clusters d (inr h'))
          (λ e. new (subst (λ k. In k cs) (sym e) h')) lt lt'))
      h

-- A write to a cluster keeps the table.
fat_get-OnlyAt :
    (c d : ℕ) (s : ℕ → Sector) (v : Volume)
    → HasData v
    → IsCluster c v
    → InTable d v
    → OnlyAt v.sectors_per_cluster (cluster_lba c v) s v
    → fat_get d (with_sectors s v) ≡ fat_get d v
fat_get-OnlyAt c d s v has cluster in_d only =
    fat_get_same d s v has.healthy
      (only (fat_address d v) (λ i lt. fat_address≢place d c i v has in_d cluster lt))

cluster_fits :
    (c : ℕ) (v : Volume)
    → HasData v
    → IsCluster c v
    → v.part_lba + (cluster_lba c v + v.sectors_per_cluster) ≤ 2 ^ 32
cluster_fits c v has (lo, hi, in_c) =
    let z : ℕ = v.sectors_per_cluster in
    let fits : v.part_lba + v.data_start_lba + 0xFFF8 * z ≤ 2 ^ 32 = has.fits in
    let row : (c - 2) * z + z ≤ 0xFFF8 * z = rows (c - 2) 0xFFF8 z (omega arith) in
    omega (arith, row)

-- On a chain of distinct clusters that have room for the bytes, the loop writes them there and nowhere else.
pub write_chain-Written :
    (fuel c : ℕ) (cs xs : List ℕ) (v : Volume)
    → HasData v
    → Distinct cs
    → AreClusters cs v
    → IsChain c cs v
    → HaveRoom v.sectors_per_cluster cs xs
    → length cs < fuel
    → Written fuel c cs xs v
unfolding IsChain HaveRoom HoldsChain In Distinct
write_chain-Written zero c cs xs v has distinct clusters chain room lt = absurd (omega arith)
write_chain-Written (suc fuel) c [] xs v has distinct clusters chain room lt =
    subst (λ ys. Written (suc fuel) c [] ys v) (sym room)
      (v.sectors, write_chain_end fuel c v, (λ a out. refl), tt)
write_chain-Written (suc fuel) c (d ∷ ds) [] v has distinct clusters chain room lt =
    (v.sectors, write_chain_end fuel c v, (λ a out. refl), HoldsChain-empty (d ∷ ds) v)
write_chain-Written (suc fuel) c (d ∷ ds) (x ∷ xs) v has (new, distinct) clusters
      (at, inside, chain) room lt =
    let n : ℕ = v.sectors_per_cluster in
    let ys : List ℕ = x ∷ xs in
    let cluster : IsCluster d v = clusters d (inl refl) in
    let (s, runs, only, here) =
      write_cluster-Stored n (cluster_lba d v) ys v has.writable (cluster_fits d v has cluster) in
    let v' : Volume = with_sectors s v in
    let kept : (e : ℕ) → InTable e v → fat_get e v' ≡ fat_get e v =
      λ e in_e. fat_get-OnlyAt d e s v has cluster in_e only in
    let next : IsChain (fat_get d v') ds v' =
      subst (λ e. IsChain e ds v') (sym (kept d cluster.2))
        (IsChain-same (fat_get d v) ds v v' (λ e h. kept e (clusters e (inr h)).2) chain) in
    let has' : HasData v' = record {
      healthy = has.healthy;
      writable = has.writable;
      after = has.after;
      fits = has.fits;
    } in
    let (s', runs', only', there) =
      write_chain-Written fuel (fat_get d v') ds (left n ys) v' has' distinct
        (λ e h. clusters e (inr h)) next room (omega arith) in
    (
      s',
      subst (λ e. write_chain (suc fuel) e ys v ≡ done (true, with_sectors s' v)) (sym at)
          (write_chain-step fuel d x xs (left n ys) v v' inside runs ∙ runs'),
      (λ a out. only' a (λ e i h. out e i (inr h)) ∙ only a (λ i. out d i (inl refl))),
      (HoldsChain-first d ds ys s s' v has clusters new only' here, there),
    )
