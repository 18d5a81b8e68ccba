-- ===== src/Fat/Release.antt =====
-- `free_chain` of kernel/fs/fat16.c ends on every table, a cyclic one included, of a disk on which a sector that
-- can be read can be written: each round that goes on has made one more entry zero.
use flyos.Base.{
  ℕ, zero, suc, ◌+◌, ◌-◌, ◌≤◌, ◌<◌, ◌≡◌, ◌≢◌, ◌⊎◌, inl, inr, true, false, some, refl, sym, subst,
  ◌∙◌, ap, ◌==◌, Bool-cases, if◌then◌else◌, arith,
}
use flyos.Fat.Disk.{Volume}
use flyos.Fat.Table.{fat_get, fat_set, set_copies, is_data, free_chain}
use flyos.Fat.Entries.{
  set_word, fat_address, copy_address, copy_address_first, ==_cases, fat_get_bad, fat_get-set_word,
  set_copies_good, set_copies-Words, Copies, Words-zero, Words-fields,
}

-- The entries below `n` that are not zero.
nonzero : (n : ℕ) → Volume → ℕ
nonzero zero v = 0
nonzero (suc n) v = nonzero n v + (if fat_get n v == 0 then 0 else 1)

-- A sector that can be read can be written.
abbrev pub CanWrite : Volume → Type 0
CanWrite v = (a : ℕ) → v.read_fails a ≡ false → v.write_fails a ≡ false

-- Every entry is kept or made zero.
abbrev pub Zeroes : Volume → Volume → Type 0
Zeroes v v' = (d : ℕ) → (fat_get d v' ≡ fat_get d v) ⊎ (fat_get d v' ≡ 0)

nonzero_le : (n : ℕ) (v v' : Volume) → Zeroes v v' → nonzero n v' ≤ nonzero n v
unfolding nonzero
nonzero_le zero v v' z = omega arith
nonzero_le (suc n) v v' z =
    let rest : nonzero n v' ≤ nonzero n v = nonzero_le n v v' z in
    elim (z n) [ inl same ↦ rw same (omega arith) | inr e ↦ rw e (omega arith) ]

nonzero_lt :
    (n c : ℕ) (v v' : Volume)
    → Zeroes v v'
    → c < n
    → fat_get c v ≢ 0
    → fat_get c v' ≡ 0
    → nonzero n v' < nonzero n v
unfolding nonzero
nonzero_lt zero c v v' z lt ne e = absurd (omega arith)
nonzero_lt (suc n) c v v' z lt ne e =
    let rest : nonzero n v' ≤ nonzero n v = nonzero_le n v v' z in
    let below : c < n → nonzero n v' < nonzero n v = λ h. nonzero_lt n c v v' z h ne e in
    elim (==_cases c n) [
      | inl at ↦
          let was : (fat_get n v == 0) ≡ false =
            subst (λ k. (fat_get k v == 0) ≡ false) at (ground arith) in
          let now : (fat_get n v' == 0) ≡ true =
            subst (λ k. (fat_get k v' == 0) ≡ true) at (ground arith) in
          rw (was, now) (omega arith)
      | inr apart ↦
          let less : nonzero n v' < nonzero n v = below (omega arith) in
          elim (z n) [ inl same ↦ rw same (omega arith) | inr gone ↦ rw gone (omega arith) ]
    ]

nonzero_bound : (n : ℕ) (v : Volume) → nonzero n v ≤ n
unfolding nonzero
nonzero_bound zero v = omega arith
nonzero_bound (suc n) v = let rest : nonzero n v ≤ n = nonzero_bound n v in ground arith

fat_set-Zeroes : (c : ℕ) (v : Volume) → Zeroes v (fat_set c 0 v).1
unfolding fat_set
fat_set-Zeroes c v d =
    Words-zero (Copies c 0 v.num_fats v) c d (set_copies-Words v.num_fats 0 c 0 v)

set_copies-zero :
    (n c : ℕ) (v : Volume)
    → CanWrite v
    → v.read_fails (fat_address c v) ≡ false
    → fat_get c (set_copies (suc n) 0 c 0 v).1 ≡ 0
set_copies-zero n c v can good =
    let at : copy_address c 0 v ≡ fat_address c v = copy_address_first c v in
    let usable : v.read_fails (copy_address c 0 v) ≡ false = rw at good in
    let hit : fat_get c (set_word (copy_address c 0 v) c 0 v) ≡ 0 =
      subst (λ a. fat_get c (set_word a c 0 v) ≡ 0) (sym at)
        (fat_get-set_word c 0 c v (omega arith) refl good) in
    let v' : Volume = set_word (copy_address c 0 v) c 0 v in
    rw (set_copies_good n 0 c 0 v usable (can (copy_address c 0 v) usable))
      (elim (Words-zero (Copies c 1 n v') c c (set_copies-Words n 1 c 0 v')) [
        | inl same ↦ same ∙ hit
        | inr gone ↦ gone
      ])

fat_set_zero :
    (c : ℕ) (v : Volume)
    → 1 ≤ v.num_fats
    → CanWrite v
    → v.read_fails (fat_address c v) ≡ false
    → fat_get c (fat_set c 0 v).1 ≡ 0
unfolding fat_set
fat_set_zero c v some_fat can good =
    let back : suc (v.num_fats - 1) ≡ v.num_fats = omega arith in
    subst (λ n. fat_get c (set_copies n 0 c 0 v).1 ≡ 0) back
      (set_copies-zero (v.num_fats - 1) c v can good)

-- An entry that is not read as 0xFFFF is in a sector that can be read.
readable : (c : ℕ) (v : Volume) → fat_get c v ≢ 0xFFFF → v.read_fails (fat_address c v) ≡ false
readable c v ne = elim (Bool-cases (v.read_fails (fat_address c v))) [
  | inl bad ↦ absurd (ne (fat_get_bad c v bad))
  | inr good ↦ good
]

fat_set-num_fats : (c x : ℕ) (v : Volume) → (fat_set c x v).1.num_fats ≡ v.num_fats
unfolding fat_set
fat_set-num_fats c x v =
    ap (λ (w : Volume). w.num_fats)
      (Words-fields (Copies c 0 v.num_fats v) c x (set_copies-Words v.num_fats 0 c x v))

fat_set-CanWrite : (c x : ℕ) (v : Volume) → CanWrite v → CanWrite (fat_set c x v).1
unfolding fat_set
fat_set-CanWrite c x v can =
    subst CanWrite
      (sym (Words-fields (Copies c 0 v.num_fats v) c x (set_copies-Words v.num_fats 0 c x v))) can

-- The entry of `c` is zero, if `c` is a cluster and the sector of its entry can be read; if `c` is no cluster, nothing
-- changes.
abbrev pub Begun : ℕ → Volume → Volume → Type 0
Begun c v v' =
    ((is_data c ≡ false) × (v' ≡ v)) ⊎ (v.read_fails (fat_address c v) ≡ true) ⊎ (fat_get c v' ≡ 0)

-- What the chain's release comes to.
abbrev pub Freed : (fuel c : ℕ) → Volume → Type 0
Freed fuel c v = (v' : Volume) × (free_chain fuel c v ≡ some v') × Zeroes v v' × Begun c v v'

Zeroes-trans : (v v' v'' : Volume) → Zeroes v v' → Zeroes v' v'' → Zeroes v v''
Zeroes-trans v v' v'' f g d = elim (g d) [
  | inl same ↦ elim (f d) [ inl e ↦ inl (same ∙ e) | inr e ↦ inr (same ∙ e) ]
  | inr e ↦ inr e
]

free_chain_end : (fuel c : ℕ) (v : Volume) → is_data c ≡ false → free_chain (suc fuel) c v ≡ some v
unfolding free_chain
free_chain_end fuel c v e = rw e refl

free_chain_next :
    (fuel c : ℕ) (v : Volume)
    → is_data c ≡ true
    → free_chain (suc fuel) c v ≡ free_chain fuel (fat_get c v) (fat_set c 0 v).1
unfolding free_chain
free_chain_next fuel c v e = rw e refl

Freed-next :
    (fuel c : ℕ) (v : Volume)
    → 1 ≤ v.num_fats
    → CanWrite v
    → is_data c ≡ true
    → Freed fuel (fat_get c v) (fat_set c 0 v).1
    → Freed (suc fuel) c v
Freed-next fuel c v some_fat can e (v', runs, z, begun) = (
  v',
  free_chain_next fuel c v e ∙ runs,
  Zeroes-trans v (fat_set c 0 v).1 v' (fat_set-Zeroes c v) z,
  inr (elim (Bool-cases (v.read_fails (fat_address c v))) [
    | inl bad ↦ inl bad
    | inr good ↦
        inr (elim (z c) [ inl same ↦ same ∙ fat_set_zero c v some_fat can good | inr gone ↦ gone ])
  ]),
)

free_chain-bounded :
    (n fuel c : ℕ) (v : Volume)
    → 1 ≤ v.num_fats
    → CanWrite v
    → 0xFFF8 ≤ n
    → nonzero n v + 1 < fuel
    → Freed fuel c v
free_chain-bounded n zero c v some_fat can big lt = absurd (omega arith)
free_chain-bounded n (suc fuel) c v some_fat can big lt = elim (Bool-cases (is_data c)) [
  | inr out ↦ (v, free_chain_end fuel c v out, (λ d. inl refl), inl (out, refl))
  | inl inside ↦
      Freed-next fuel c v some_fat can inside (elim (Bool-cases (is_data (fat_get c v))) [
        | inr out ↦
            let v' : Volume = (fat_set c 0 v).1 in
            let back : suc (fuel - 1) ≡ fuel = omega arith in
            (
              v',
              subst (λ f. free_chain f (fat_get c v) v' ≡ some v') back
                  (free_chain_end (fuel - 1) (fat_get c v) v' out),
              (λ d. inl refl),
              inl (out, refl),
            )
        | inl next ↦
            let in_range : c < 0xFFF8 = ground arith in
            let link : (fat_get c v ≢ 0) × (fat_get c v ≢ 0xFFFF) = ground arith in
            let fewer : nonzero n (fat_set c 0 v).1 < nonzero n v =
              nonzero_lt n c v (fat_set c 0 v).1 (fat_set-Zeroes c v) (omega arith) link.0
                (fat_set_zero c v some_fat can (readable c v link.1)) in
            free_chain-bounded n fuel (fat_get c v) (fat_set c 0 v).1
              (rw (fat_set-num_fats c 0 v) some_fat) (fat_set-CanWrite c 0 v can) big (omega arith)
      ])
]

-- On every volume that has a copy of the table, and on which every sector that can be read can be written, from
-- every cluster, 65,530 units of fuel are enough for free_chain, also when the chain runs in a cycle or sectors
-- cannot be read. Every entry is kept or made zero. If the call is for a cluster, 2 to 0xFFF7, and the sector of its
-- entry can be read, this entry is zero at the end; if it is for another number, nothing changes.
pub free_chain-ends :
    (fuel c : ℕ) (v : Volume) → 1 ≤ v.num_fats → CanWrite v → 65530 ≤ fuel → Freed fuel c v
free_chain-ends fuel c v some_fat can enough =
    let bound : (n : ℕ) → n ≡ 0xFFF8 → Freed fuel c v = λ n e.
      let few : nonzero n v ≤ n = nonzero_bound n v in
      free_chain-bounded n fuel c v some_fat can (omega arith) (omega arith) in
    bound 0xFFF8 refl
