-- ===== src/Fat/RoundTrip.antt =====
-- `fat16_write_file` of kernel/fs/fat16.c and then `fat16_read_file`.
use flyos.Base.{
  ℕ, ◌+◌, ◌-◌, ◌*◌, ◌/◌, ◌≤◌, ◌<◌, ◌^◌, ◌≡◌, ◌≢◌, ◌⊎◌, inl, inr, Bool, List, [], ◌∷◌, length,
  get_or, true, false, none, some, refl, sym, subst, ◌∙◌, ap, ◌==◌, if◌then◌else◌, arith,
}
use flyos.Fat.Disk.{Volume, Outcome, done}
use flyos.Fat.Names.{blank, parse_83}
use flyos.Fat.Table.{fat_set, free_chain}
use flyos.Fat.Files.{
  full, linked, alloc_chain, link_to, cluster_size, write_linked, write_new, fat16_write_file,
  fat16_delete_file,
}
use flyos.Fat.Root.{find_root_entry}
use flyos.Fat.Scanning.{IsName}
use flyos.Fat.Dirents.{AreBytes}
use flyos.Fat.Parsing.{parse_83-IsName}
use flyos.Fat.Assign.{IsSound}
use flyos.Fat.Allocate.{IsFree}
use flyos.Fat.Chains.{In, Distinct, IsChain}
use flyos.Fat.Keeping.{HasTree, KeepsRoot, KeepsRoot-refl, KeepsRoot-trans, fat_set-KeepsRoot}
use flyos.Fat.Separate.{IsVolume, IsVolume-IsSound, IsVolume-HasTree, IsVolume-HasRoot}
use flyos.Fat.Sameness.{find_root_entry_same}
use flyos.Fat.Reading.{HaveRoom-enough}
use flyos.Fat.Linking.{Links, Building}
use flyos.Fat.Growing.{alloc_chain-Grown}
use flyos.Fat.Closing.{Closed, Building-Closed}
use flyos.Fat.Create.{IsFull}
use flyos.Fat.Store.{ReadsBack, write_linked-Outcomes}
use flyos.Fat.Release.{free_chain-ends}

-- The chain that the loop leaves, in the volume after the end mark.
abbrev Chained : (n f : ℕ) → Volume → Volume → Type 0
Chained n f v w = (cs : List ℕ) × Closed f cs w × (length cs ≡ n) × (f < 2 ^ 16) × KeepsRoot v w

IsChain-small : (f : ℕ) (cs : List ℕ) (v : Volume) → Closed f cs v → 1 ≤ length cs → f < 2 ^ 16
unfolding IsChain In
IsChain-small f [] v closed le = absurd (omega arith)
IsChain-small f (c ∷ cs) v (chain, distinct, clusters) le =
    let at : f ≡ c = chain.0 in let top : c < 0xFFF8 = (clusters c (inl refl)).1 in omega arith

Building-Chained :
    (f p : ℕ) (rs : List ℕ) (v : Volume)
    → IsSound v
    → HasTree v
    → Building f p rs v
    → Chained (length rs) f v (link_to p 0xFFFF v)
unfolding Links IsChain Distinct In
Building-Chained f p [] v sound tree b =
    let at : p ≡ 0 = b.last in
    let first : f ≡ 0 = b.links in
    subst (λ q. Chained 0 f v (link_to q 0xFFFF v)) (sym at)
      ([], ((rw first refl), tt, λ c h. absurd h), refl, omega arith, KeepsRoot-refl v)
Building-Chained f p (q ∷ rs) v sound tree b =
    let at : p ≡ q = b.last in
    let lo : 2 ≤ q = (b.used q (inl refl)).0 in
    let on : (q == 0) ≡ false = ground arith in
    let b' : Building f q (q ∷ rs) v = subst (λ k. Building f k (q ∷ rs) v) at b in
    let (cs, closed, len) = Building-Closed f q rs v sound b' in
    let some_clusters : 1 ≤ length cs = omega (arith, len) in
    subst (λ k. Chained (length (q ∷ rs)) f v (link_to k 0xFFFF v)) (sym at)
      (subst (λ t. Chained (length (q ∷ rs)) f v (if t then v else (fat_set q 0xFFFF v).1)) (sym on)
        (
          cs,
          closed,
          len,
          IsChain-small f cs (fat_set q 0xFFFF v).1 closed some_clusters,
          fat_set-KeepsRoot q 0xFFFF v tree (b.used q (inl refl)).2,
        ))

-- The number of clusters for the contents.
abbrev pub clusters_for : List ℕ → Volume → ℕ
clusters_for xs v = (length xs + cluster_size v - 1) / cluster_size v

enough : (l m : ℕ) → 1 ≤ m → l ≤ (l + m - 1) / m * m
enough l m one = grind arith

few : (l m : ℕ) → 1 ≤ m → (l + m - 1) / m ≤ l
few l m one = grind arith

write_new-step :
    (fuel : ℕ) (want xs : List ℕ) (v : Volume)
    → cluster_size v ≢ 0
    → write_new fuel want xs v ≡ write_linked fuel want xs (alloc_chain (clusters_for xs v) 0 0 v)
unfolding write_new
write_new-step fuel want xs v ne =
    let on : (cluster_size v == 0) ≡ false = ground arith in rw on refl

-- The allocation loop ends because no cluster is left.
abbrev pub NoSpace : List ℕ → Volume → Type 0
NoSpace xs v =
    (f : ℕ) × (u : Volume) × (alloc_chain (clusters_for xs v) 0 0 v ≡ full f u)
    × ((d : ℕ) → ¬ IsFree d u)

write_linked-full :
    (fuel f : ℕ) (want xs : List ℕ) (u w : Volume)
    → free_chain fuel f u ≡ some w
    → write_linked fuel want xs (full f u) ≡ done (false, w)
unfolding write_linked
write_linked-full fuel f want xs u w e = rw (e, write_linked) refl

-- How the call ends: no cluster or no directory entry is left, or the file can be read back.
abbrev pub Stored : (fuel : ℕ) (name xs : List ℕ) → Volume → Outcome (Bool × Volume) → Type 0
Stored fuel name xs v r =
    ((w : Volume) × (r ≡ done (false, w)) × (NoSpace xs v ⊎ IsFull w))
    ⊎ ((w : Volume) × (r ≡ done (true, w)) × ReadsBack fuel name xs w)

IsVolume-keep : (v w : Volume) → KeepsRoot v w → IsVolume v → IsVolume w
IsVolume-keep v w (s, e, kept) vol = subst IsVolume (sym e) record {
  healthy = vol.healthy;
  writable = vol.writable;
  copies = vol.copies;
  sized = vol.sized;
  clustered = vol.clustered;
  fat_end = vol.fat_end;
  root_end = vol.root_end;
  fits = vol.fits;
}

memory_keep : (v w : Volume) → KeepsRoot v w → w.has_memory ≡ v.has_memory
memory_keep v w (s, e, kept) = ap (λ (u : Volume). u.has_memory) e

per_keep : (v w : Volume) → KeepsRoot v w → w.sectors_per_cluster ≡ v.sectors_per_cluster
per_keep v w (s, e, kept) = ap (λ (u : Volume). u.sectors_per_cluster) e

Building-empty : (v : Volume) → Building 0 0 [] v
unfolding Links Distinct In
Building-empty v = record { last = refl; links = refl; distinct = tt; used = λ d h. absurd h }

module _ (fuel : ℕ) (name xs : List ℕ) (v : Volume) (vol : IsVolume v)
    (memory : v.has_memory ≡ true) (is_name : IsName (parse_83 name))
    (missing : find_root_entry name v ≡ done none) (short : length xs < 2 ^ 31)
    (lt : length xs + 65530 ≤ fuel) where
  one_sector : 1 ≤ cluster_size v
  one_sector =
      let per : 1 ≤ v.sectors_per_cluster = vol.clustered in
      let size : v.bytes_per_sector ≡ 512 = vol.sized in rw size (omega arith)

  Stored-full :
      (f : ℕ) (u : Volume)
      → alloc_chain (clusters_for xs v) 0 0 v ≡ full f u
      → ((d : ℕ) → ¬ IsFree d u)
      → KeepsRoot v u
      → Stored fuel name xs v (write_new fuel (parse_83 name) xs v)
  Stored-full f u e none_free keeps =
      let vol' : IsVolume u = IsVolume-keep v u keeps vol in
      let (w, runs, z, begun) =
        free_chain-ends fuel f u vol'.copies (λ a h. vol'.writable a) (omega arith) in
      inl (
        w,
        write_new-step fuel (parse_83 name) xs v
              (let one : 1 ≤ cluster_size v = one_sector in omega (arith, one))
            ∙ ap (write_linked fuel (parse_83 name) xs) e
            ∙ write_linked-full fuel f (parse_83 name) xs u w runs,
        inl (f, u, e, none_free),
      )

  Stored-linked :
      (f p : ℕ) (w : Volume)
      → alloc_chain (clusters_for xs v) 0 0 v ≡ linked f p w
      → Chained (clusters_for xs v) f v w
      → Stored fuel name xs v (write_new fuel (parse_83 name) xs v)
  Stored-linked f p w e (cs, closed, len, small, keeps) =
      let one : 1 ≤ cluster_size v = one_sector in
      let step : write_new fuel (parse_83 name) xs v
          ≡ write_linked fuel (parse_83 name) xs (linked f p w) =
        write_new-step fuel (parse_83 name) xs v (omega (arith, one))
        ∙ ap (write_linked fuel (parse_83 name) xs) e in
      let fewer : length cs < fuel =
        (let k : clusters_for xs v ≤ length xs = few (length xs) (cluster_size v) one in
          omega (arith, k, len)) in
      let wide : length xs ≤ length cs * (w.sectors_per_cluster * 512) =
        rw (len, per_keep v w keeps, sym vol.sized) (enough (length xs) (cluster_size v) one) in
      let still : find_root_entry name w ≡ done none =
        find_root_entry_same name v w (IsVolume-HasRoot v vol) memory keeps ∙ missing in
      elim (write_linked-Outcomes fuel f name cs xs w (IsVolume-keep v w keeps vol)
        (memory_keep v w keeps ∙ memory) is_name still closed
        (HaveRoom-enough w.sectors_per_cluster cs xs wide) small short fewer p) [
          | inl (u, e', full_root) ↦ inl (u, step ∙ e', inr full_root)
          | inr (u, e', reads) ↦ inr (u, step ∙ e', reads)
        ]

  write_new-Stored : Stored fuel name xs v (write_new fuel (parse_83 name) xs v)
  write_new-Stored =
      let n : ℕ = clusters_for xs v in
      elim (alloc_chain-Grown n 0 0 [] v (IsVolume-IsSound v vol) (IsVolume-HasTree v vol)
        (Building-empty v)) [
          | inl (f, u, e, none_free, keeps) ↦ Stored-full f u e none_free keeps
          | inr (f, p, rs, u, e, b, len, sound, keeps) ↦
              let tree : HasTree u = IsVolume-HasTree u (IsVolume-keep v u keeps vol) in
              let (cs, closed, k, small, keeps') = Building-Chained f p rs u sound tree b in
              Stored-linked f p (link_to p 0xFFFF u) e (
                cs,
                closed,
                k ∙ len ∙ (let z : 0 + n ≡ n = omega arith in z),
                small,
                KeepsRoot-trans v u (link_to p 0xFFFF u) keeps keeps',
              )
        ]

-- Writing the whole file. The volume that the deletion leaves is laid out well, the heap has memory, and the file's
-- name is none that is found there; then fat16_write_file returns, with fuel for the length and 65,530 more. It fails
-- only where no cluster or no place in the directory is left; else fat16_read_file returns the contents.
pub fat16_write_file-Stored :
    (fuel : ℕ) (name xs : List ℕ) (ok : Bool) (v0 v : Volume)
    → fat16_delete_file fuel name v0 ≡ done (ok, v)
    → IsVolume v
    → v.has_memory ≡ true
    → AreBytes name
    → get_or name 0 blank ≢ 0
    → get_or name 0 blank ≢ 0xE5
    → find_root_entry name v ≡ done none
    → length xs < 2 ^ 31
    → length xs + 65530 ≤ fuel
    → Stored fuel name xs v (fat16_write_file fuel name xs v0)
unfolding fat16_write_file
fat16_write_file-Stored fuel name xs ok v0 v deleted vol memory bytes ne ne' missing short lt =
    rw (deleted, fat16_write_file)
      (write_new-Stored fuel name xs v vol memory (parse_83-IsName name bytes ne ne') missing short
        lt)
