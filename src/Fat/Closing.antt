-- ===== src/Fat/Closing.antt =====
-- The end mark that `fat16_write_file` of kernel/fs/fat16.c puts into the last entry makes a chain.
use flyos.Base.{
  ℕ, ◌+◌, ◌≤◌, ◌<◌, ◌≡◌, ◌≢◌, ◌⊎◌, inl, inr, List, [], ◌∷◌, length, true, false, refl, sym, subst,
  arith,
}
use flyos.Fat.Disk.{Volume}
use flyos.Fat.Table.{fat_get, fat_set, is_data}
use flyos.Fat.Assign.{IsSound, InTable, fat_set-InTable}
use flyos.Fat.Chains.{In, Distinct, IsChain, AreClusters}
use flyos.Fat.Linking.{Links, Links-same, Building, entry_set, entry_other}

-- The clusters of the list from its end, in front of others.
rev_onto : (rs acc : List ℕ) → List ℕ
rev_onto [] acc = acc
rev_onto (q ∷ rs) acc = rev_onto rs (q ∷ acc)

length-rev_onto : (rs acc : List ℕ) → length (rev_onto rs acc) ≡ length rs + length acc
unfolding rev_onto
length-rev_onto [] acc = omega arith
length-rev_onto (q ∷ rs) acc =
    let rest : length (rev_onto rs (q ∷ acc)) ≡ length rs + length (q ∷ acc) =
      length-rev_onto rs (q ∷ acc) in
    omega arith

In-rev_onto : (d : ℕ) (rs acc : List ℕ) → In d (rev_onto rs acc) → In d rs ⊎ In d acc
unfolding rev_onto In
In-rev_onto d [] acc h = inr h
In-rev_onto d (q ∷ rs) acc h = elim (In-rev_onto d rs (q ∷ acc) h) [
  | inl early ↦ inl (inr early)
  | inr later ↦ elim later [ inl e ↦ inl (inl e) | inr h' ↦ inr h' ]
]

Distinct-rev_onto :
    (rs acc : List ℕ)
    → Distinct rs
    → Distinct acc
    → ((d : ℕ) → In d rs → ¬ In d acc)
    → Distinct (rev_onto rs acc)
unfolding rev_onto Distinct In
Distinct-rev_onto [] acc hr ha apart = ha
Distinct-rev_onto (q ∷ rs) acc (new, hr) ha apart =
    Distinct-rev_onto rs (q ∷ acc) hr (apart q (inl refl), ha)
      (λ d h later. elim later [
        | inl e ↦ new (subst (λ k. In k rs) e h)
        | inr h' ↦ apart d (inr h) h'
      ])

-- A chain from the last of the linked clusters goes on from the first.
IsChain-rev_onto :
    (first p : ℕ) (rs tail : List ℕ) (v : Volume)
    → Links first (p ∷ rs) v
    → ((d : ℕ) → In d rs → is_data d ≡ true)
    → IsChain p (p ∷ tail) v
    → IsChain first (rev_onto rs (p ∷ tail)) v
unfolding rev_onto Links IsChain In
IsChain-rev_onto first p [] tail v at inside (e, here, chain) = (at, here, chain)
IsChain-rev_onto first p (q ∷ rs) tail v (link, links) inside (e, here, chain) =
    IsChain-rev_onto first q rs (p ∷ tail) v links (λ d h. inside d (inr h))
      (refl, inside q (inl refl), (link, here, chain))

-- The volume after the end mark has the clusters as a chain, from the first to the last.
abbrev pub Closed : (first : ℕ) (cs : List ℕ) → Volume → Type 0
Closed first cs v = IsChain first cs v × Distinct cs × AreClusters cs v

is_data_lem : (d : ℕ) → 2 ≤ d → d < 0xFFF0 → is_data d ≡ true
is_data_lem d lo hi = ground arith

swap_front : (c p : ℕ) (rs : List ℕ) → In c rs ⊎ In c (p ∷ []) → In c (p ∷ rs)
unfolding In
swap_front c p rs (inl h) = inr h
swap_front c p rs (inr (inl e)) = inl e
swap_front c p rs (inr (inr n)) = absurd n

pub Building-Closed :
    (first p : ℕ) (rs : List ℕ) (v : Volume)
    → IsSound v
    → Building first p (p ∷ rs) v
    → (cs : List ℕ) × Closed first cs (fat_set p 0xFFFF v).1 × (length cs ≡ length (p ∷ rs))
unfolding Distinct In IsChain
Building-Closed first p rs v sound b =
    let w : Volume = (fat_set p 0xFFFF v).1 in
    let at_p : (2 ≤ p) × (p < 0xFFF0) × InTable p v × (fat_get p v ≢ 0) = b.used p (inl refl) in
    let in_p : InTable p v = at_p.2 in
    let mark : fat_get p w ≡ 0xFFFF = entry_set p 0xFFFF v sound (omega arith) in_p in
    let kept : (d : ℕ) → In d rs → fat_get d w ≡ fat_get d v = λ d h.
      entry_other p 0xFFFF v sound (omega arith) in_p d (b.used d (inr h)).2
        (λ e. b.distinct.0 (subst (λ k. In k rs) (sym e) h)) in
    let data_of : (d : ℕ) → In d (p ∷ rs) → is_data d ≡ true =
      λ d h. is_data_lem d (b.used d h).0 (b.used d h).1 in
    let ends : is_data (fat_get p w) ≡ false = (rw mark refl) in
    (
      rev_onto rs (p ∷ []),
      (
        IsChain-rev_onto first p rs [] w (Links-same first p rs v w kept b.links)
            (λ d h. data_of d (inr h)) (refl, data_of p (inl refl), ends),
        Distinct-rev_onto rs (p ∷ []) b.distinct.1 ((λ h. h), tt)
            (λ d h at. elim at [ inl e ↦ b.distinct.0 (subst (λ k. In k rs) e h) | inr n ↦ n ]),
        λ c h.
            let u : (2 ≤ c) × (c < 0xFFF0) × InTable c v × (fat_get c v ≢ 0) =
              b.used c (swap_front c p rs (In-rev_onto c rs (p ∷ []) h)) in
            let top : c < 0xFFF0 = u.1 in (u.0, omega arith, fat_set-InTable p 0xFFFF c v u.2),
      ),
      (let n : length (rev_onto rs (p ∷ [])) ≡ length rs + length (p ∷ []) =
            length-rev_onto rs (p ∷ []) in
          omega arith),
    )
