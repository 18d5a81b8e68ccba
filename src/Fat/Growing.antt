-- ===== src/Fat/Growing.antt =====
-- The allocation loop of `fat16_write_file` of kernel/fs/fat16.c, run to its end.
use flyos.Base.{
  ℕ, zero, suc, ◌+◌, ◌≤◌, ◌≡◌, ◌≢◌, ◌⊎◌, inl, inr, List, [], ◌∷◌, length, false, refl, sym, subst,
  ◌∙◌, ap, ◌==◌, if◌then◌else◌, arith,
}
use flyos.Fat.Disk.{Volume}
use flyos.Fat.Table.{fat_set, alloc_cluster}
use flyos.Fat.Files.{full, linked, alloc_chain, link_to}
use flyos.Fat.Assign.{IsSound, InTable, fat_set-IsSound, fat_set-InTable}
use flyos.Fat.Allocate.{IsFree, alloc_cluster_lem}
use flyos.Fat.Chains.{In}
use flyos.Fat.Keeping.{HasTree, KeepsRoot, KeepsRoot-trans, KeepsRoot-refl, fat_set-KeepsRoot}
use flyos.Fat.Linking.{Building, Building-first, Building-next}

alloc_chain_full :
    (n first prev : ℕ) (v : Volume)
    → alloc_cluster v ≡ (0, v)
    → alloc_chain (suc n) first prev v ≡ full first v
unfolding alloc_chain
alloc_chain_full n first prev v e =
    ap
      (λ (r : ℕ × Volume).
        if r.0 == 0
        then full first r.1
        else alloc_chain n (if prev == 0 then r.0 else first) r.0 (link_to prev r.0 r.1))
      e

alloc_chain_next :
    (n first prev c : ℕ) (v v' : Volume)
    → alloc_cluster v ≡ (c, v')
    → c ≢ 0
    → alloc_chain (suc n) first prev v
      ≡ alloc_chain n (if prev == 0 then c else first) c (link_to prev c v')
unfolding alloc_chain
alloc_chain_next n first prev c v v' e ne =
    let some_cluster : (c == 0) ≡ false = ground arith in
    ap
      (λ (r : ℕ × Volume).
        if r.0 == 0
        then full first r.1
        else alloc_chain n (if prev == 0 then r.0 else first) r.0 (link_to prev r.0 r.1))
      e
    ∙ (rw some_cluster refl)

-- The loop ends with no free cluster left, or with `n` more clusters than before.
abbrev pub Grown : (n first prev : ℕ) (rs : List ℕ) → Volume → Type 0
Grown n first prev rs v =
    ((f : ℕ) × (v' : Volume) × (alloc_chain n first prev v ≡ full f v')
      × ((d : ℕ) → ¬ IsFree d v')
      × KeepsRoot v v')
    ⊎ ((f p : ℕ) × (rs' : List ℕ) × (v' : Volume) × (alloc_chain n first prev v
          ≡ linked f p (link_to p 0xFFFF v'))
        × Building f p rs' v'
        × (length rs' ≡ length rs + n)
        × IsSound v'
        × KeepsRoot v v')

Grown_step :
    (n first prev f p : ℕ) (rs rs' : List ℕ) (v v' : Volume)
    → alloc_chain (suc n) first prev v ≡ alloc_chain n f p v'
    → length rs' ≡ length rs + 1
    → KeepsRoot v v'
    → Grown n f p rs' v'
    → Grown (suc n) first prev rs v
Grown_step n first prev f p rs rs' v v' runs more keeps (inl (g, w, e, none_free, keeps')) =
    inl (g, w, runs ∙ e, none_free, KeepsRoot-trans v v' w keeps keeps')
Grown_step n first prev f p rs rs' v v' runs more keeps
      (inr (g, q, qs, w, e, b, len, sound, keeps')) =
    inr (
      g,
      q,
      qs,
      w,
      runs ∙ e,
      b,
      omega (arith, more, len),
      sound,
      KeepsRoot-trans v v' w keeps keeps',
    )

In-head : (p : ℕ) (rs : List ℕ) → In p (p ∷ rs)
unfolding In
In-head p rs = inl refl

pub HasTree-keep : (v v' : Volume) → KeepsRoot v v' → HasTree v → HasTree v'
HasTree-keep v v' (s, e, kept) tree =
    subst HasTree (sym e) (record { after = tree.after; inside = tree.inside })

alloc_chain_end :
    (first prev : ℕ) (v : Volume)
    → alloc_chain zero first prev v ≡ linked first prev (link_to prev 0xFFFF v)
unfolding alloc_chain
alloc_chain_end first prev v = refl

-- One more cluster, with what follows.
grow :
    (n first prev c : ℕ) (rs : List ℕ) (v : Volume)
    → IsSound v
    → HasTree v
    → Building first prev rs v
    → IsFree c v
    → alloc_cluster v ≡ (c, (fat_set c 0xFFFF v).1)
    → ((f p : ℕ) (qs : List ℕ) (w : Volume)
        → IsSound w
        → HasTree w
        → Building f p qs w
        → Grown n f p qs w)
    → Grown (suc n) first prev rs v
grow n first prev c [] v sound tree b free e rest =
    let v' : Volume = (fat_set c 0xFFFF v).1 in
    let lo : 2 ≤ c = free.0 in
    let keeps : KeepsRoot v v' = fat_set-KeepsRoot c 0xFFFF v tree free.2 in
    let at : prev ≡ 0 = b.last in
    let runs : alloc_chain (suc n) first prev v ≡ alloc_chain n c c v' =
      alloc_chain_next n first prev c v v' e (omega arith)
      ∙ ap (λ q. alloc_chain n (if q == 0 then c else first) c (link_to q c v')) at in
    Grown_step n first prev c c [] (c ∷ []) v v' runs (omega arith) keeps (
      rest c c (c ∷ []) v' (fat_set-IsSound c 0xFFFF v sound) (HasTree-keep v v' keeps tree)
        (Building-first c v sound free))
grow n first prev c (p ∷ rs) v sound tree b free e rest =
    let v' : Volume = (fat_set c 0xFFFF v).1 in
    let w : Volume = (fat_set p c v').1 in
    let lo : 2 ≤ c = free.0 in
    let lo' : 2 ≤ p = (b.used p (In-head p rs)).0 in
    let keeps : KeepsRoot v v' = fat_set-KeepsRoot c 0xFFFF v tree free.2 in
    let tree' : HasTree v' = HasTree-keep v v' keeps tree in
    let in_p : InTable p v' = fat_set-InTable c 0xFFFF p v (b.used p (In-head p rs)).2 in
    let keeps' : KeepsRoot v w =
      KeepsRoot-trans v v' w keeps (fat_set-KeepsRoot p c v' tree' in_p) in
    let later : (p == 0) ≡ false = ground arith in
    let at : prev ≡ p = b.last in
    let runs : alloc_chain (suc n) first prev v ≡ alloc_chain n first c w =
      alloc_chain_next n first prev c v v' e (omega arith)
      ∙ ap (λ q. alloc_chain n (if q == 0 then c else first) c (link_to q c v')) at
      ∙ (rw later refl) in
    let b' : Building first p (p ∷ rs) v = subst (λ q. Building first q (p ∷ rs) v) at b in
    Grown_step n first prev first c (p ∷ rs) (c ∷ p ∷ rs) v w runs (omega arith) keeps' (
      rest first c (c ∷ p ∷ rs) w (fat_set-IsSound p c v' (fat_set-IsSound c 0xFFFF v sound))
        (HasTree-keep v w keeps' tree) (Building-next first p c rs v sound free b'))

pub alloc_chain-Grown :
    (n first prev : ℕ) (rs : List ℕ) (v : Volume)
    → IsSound v
    → HasTree v
    → Building first prev rs v
    → Grown n first prev rs v
alloc_chain-Grown zero first prev rs v sound tree b =
    inr (first, prev, rs, v, alloc_chain_end first prev v, b, omega arith, sound, KeepsRoot-refl v)
alloc_chain-Grown (suc n) first prev rs v sound tree b = elim (alloc_cluster_lem v sound) [
  | inl (e, none_free) ↦
      inl (first, v, alloc_chain_full n first prev v e, none_free, KeepsRoot-refl v)
  | inr t ↦
      let c : ℕ = (alloc_cluster v).0 in
      let e : alloc_cluster v ≡ (c, (fat_set c 0xFFFF v).1) =
        ap (λ (w : Volume). (c, w)) t.written in
      grow n first prev c rs v sound tree b t.free e (alloc_chain-Grown n)
]
