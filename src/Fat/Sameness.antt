-- ===== src/Fat/Sameness.antt =====
-- What kernel/fs/fat16.c reads of the directory and of the clusters depends on their sectors alone.
use flyos.Base.{
  ℕ, zero, suc, ◌+◌, ◌≤◌, ◌<◌, ◌≡◌, inl, inr, List, [], ◌∷◌, true, false, refl, sym, subst, ◌∙◌, ap,
  arith,
}
use flyos.Fat.Disk.{Sector, Volume, done, root_sectors, sector_at}
use flyos.Fat.Names.{parse_83}
use flyos.Fat.Files.{cluster_lba}
use flyos.Fat.Root.{Verdict, look, scan_root, find_test, find_root_entry, entry_of}
use flyos.Fat.Contents.{Holds-same, left}
use flyos.Fat.Stored.{with_sectors}
use flyos.Fat.Chains.{In, place, HoldsChain}
use flyos.Fat.Keeping.{KeepsRoot, root_address}
use flyos.Fat.Create.{HasRoot, find_root_entry_on}
use flyos.Fat.Lookup.{go_on, scan_root-go_on}

scan_root_same :
    (test : ℕ → Sector → Verdict) (n s : ℕ) (sec : ℕ → Sector) (v : Volume)
    → ((a : ℕ) → v.read_fails a ≡ false)
    → ((i : ℕ) → s ≤ i → i < s + n → sec (root_address i v) ≡ v.sectors (root_address i v))
    → scan_root test n s (with_sectors sec v) ≡ scan_root test n s v
unfolding scan_root
scan_root_same test zero s sec v healthy same = refl
scan_root_same test (suc n) s sec v healthy same =
    let w : Volume = with_sectors sec v in
    let good : v.read_fails (root_address s v) ≡ false = healthy (root_address s v) in
    scan_root-go_on test n s w good
    ∙ ap (λ b. go_on (look test 16 0 b) s b (scan_root test n (s + 1) w))
        (same s (omega arith) (omega arith))
    ∙ ap
        (go_on (look test 16 0 (sector_at (v.root_start_lba + s) v)) s
          (sector_at (v.root_start_lba + s) v))
        (scan_root_same test n (s + 1) sec v healthy
          (λ i ge lt. same i (omega arith) (omega arith)))
    ∙ sym (scan_root-go_on test n s v good)

-- A volume with the same directory has the same files.
pub find_root_entry_same :
    (name : List ℕ) (v v' : Volume)
    → HasRoot v
    → v.has_memory ≡ true
    → KeepsRoot v v'
    → find_root_entry name v' ≡ find_root_entry name v
find_root_entry_same name v v' root memory (sec, e, same) =
    subst (λ w. find_root_entry name w ≡ find_root_entry name v) (sym e)
      (find_root_entry_on name (with_sectors sec v) root.sized memory
        ∙ ap (λ r. done (entry_of r))
            (scan_root_same (find_test (parse_83 name)) (root_sectors v) 0 sec v root.healthy
              (λ i ge lt. same i (omega arith)))
        ∙ sym (find_root_entry_on name v root.sized memory))

-- Clusters with the same sectors hold the same bytes.
pub HoldsChain-same :
    (cs xs : List ℕ) (s s' : ℕ → Sector) (v : Volume)
    → ((c i : ℕ) → In c cs → i < v.sectors_per_cluster → s' (place c i v) ≡ s (place c i v))
    → HoldsChain cs xs (with_sectors s v)
    → HoldsChain cs xs (with_sectors s' v)
unfolding HoldsChain In
HoldsChain-same [] xs s s' v same h = tt
HoldsChain-same (c ∷ cs) xs s s' v same (here, h) = (
  Holds-same v.sectors_per_cluster (cluster_lba c v) xs (with_sectors s v) (with_sectors s' v)
      (λ i lt. same c i (inl refl) lt) here,
  HoldsChain-same cs (left v.sectors_per_cluster xs) s s' v (λ d i h'. same d i (inr h')) h,
)
