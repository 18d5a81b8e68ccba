-- ===== src/Fat/ReadBack.antt =====
-- What the loop of `fat16_write_file` of kernel/fs/fat16.c writes along a chain, the loop of `fat16_read_file` reads.
use flyos.Base.{
  ℕ, zero, suc, ◌+◌, ◌-◌, ◌<◌, ◌≡◌, ◌≢◌, inl, inr, List, [], ◌∷◌, ◌++◌, length, length-append, true,
  false, some, refl, sym, subst, ◌∙◌, ap, ◌==◌, Bool-cases, arith,
}
use flyos.Fat.Disk.{Volume, done}
use flyos.Fat.Table.{fat_get, fat_next, is_data}
use flyos.Fat.Files.{cluster_lba, read_cluster, read_chain, prepend}
use flyos.Fat.Contents.{part, left, part-append-left, read_cluster-part}
use flyos.Fat.Chains.{IsChain, HoldsChain, HaveRoom}

read_chain_end : (fuel c : ℕ) (v : Volume) → read_chain (suc fuel) c 0 v ≡ done (some [])
unfolding read_chain
read_chain_end fuel c v = elim (Bool-cases (is_data c)) [ inl e ↦ rw e refl | inr e ↦ rw e refl ]

read_chain-step :
    (fuel c l : ℕ) (bs : List ℕ) (v : Volume)
    → is_data c ≡ true
    → l ≢ 0
    → read_cluster v.sectors_per_cluster (cluster_lba c v) l v ≡ some bs
    → read_chain (suc fuel) c l v ≡ prepend bs (read_chain fuel (fat_get c v) (l - length bs) v)
unfolding read_chain fat_next
read_chain-step fuel c l bs v inside ne e =
    let eq : (l == 0) ≡ false = ground arith in rw (inside, eq, e) refl

pub read_chain-HoldsChain :
    (fuel c : ℕ) (cs xs : List ℕ) (v : Volume)
    → ((a : ℕ) → v.read_fails a ≡ false)
    → IsChain c cs v
    → HaveRoom v.sectors_per_cluster cs xs
    → HoldsChain cs xs v
    → length cs < fuel
    → read_chain fuel c (length xs) v ≡ done (some xs)
unfolding IsChain HaveRoom HoldsChain prepend
read_chain-HoldsChain zero c cs xs v healthy chain room h lt = absurd (omega arith)
read_chain-HoldsChain (suc fuel) c [] xs v healthy chain room h lt =
    subst (λ ys. read_chain (suc fuel) c (length ys) v ≡ done (some ys)) (sym room)
      (read_chain_end fuel c v)
read_chain-HoldsChain (suc fuel) c (d ∷ ds) [] v healthy chain room h lt = read_chain_end fuel c v
read_chain-HoldsChain (suc fuel) c (d ∷ ds) (x ∷ xs) v healthy (at, inside, chain) room (here, h)
      lt =
    let n : ℕ = v.sectors_per_cluster in
    let ys : List ℕ = x ∷ xs in
    let rest : read_chain fuel (fat_get d v) (length (left n ys)) v ≡ done (some (left n ys)) =
      read_chain-HoldsChain fuel (fat_get d v) ds (left n ys) v healthy chain room h
        (omega arith) in
    let sum : length (part n ys ++ left n ys) ≡ length (part n ys) + length (left n ys) =
      length-append (part n ys) (left n ys) in
    let whole : length (part n ys ++ left n ys) ≡ length ys =
      ap (λ zs. length zs) (part-append-left n ys) in
    let fewer : length ys - length (part n ys) ≡ length (left n ys) = omega (arith, sum, whole) in
    subst (λ e. read_chain (suc fuel) e (length ys) v ≡ done (some ys)) (sym at)
      (read_chain-step fuel d (length ys) (part n ys) v inside (omega arith)
          (read_cluster-part n (cluster_lba d v) ys v healthy here)
        ∙ ap (λ l. prepend (part n ys) (read_chain fuel (fat_get d v) l v)) fewer
        ∙ ap (prepend (part n ys)) rest
        ∙ ap (λ zs. done (some zs)) (part-append-left n ys))
