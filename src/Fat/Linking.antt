-- ===== src/Fat/Linking.antt =====
-- The allocation loop of `fat16_write_file` of kernel/fs/fat16.c builds a chain of distinct clusters.
use flyos.Base.{
  ℕ, ◌≤◌, ◌<◌, ◌^◌, ◌≡◌, ◌≢◌, inl, inr, List, [], ◌∷◌, true, false, refl, sym, subst, ◌∙◌, ◌==◌,
  if◌then◌else◌, arith,
}
use flyos.Fat.Disk.{Volume}
use flyos.Fat.Table.{fat_get, fat_set}
use flyos.Fat.Entries.{==_cases}
use flyos.Fat.Assign.{IsSound, InTable, fat_set_lem, fat_set-IsSound, fat_set-InTable}
use flyos.Fat.Allocate.{IsFree}
use flyos.Fat.Chains.{In, Distinct}

-- The clusters from the last to the first, each linked to the one before it in the list.
unfoldable pub Links : (first : ℕ) → List ℕ → Volume → Type 0
Links first [] v = first ≡ 0
Links first (p ∷ []) v = first ≡ p
Links first (p ∷ q ∷ rs) v = (fat_get q v ≡ p) × Links first (q ∷ rs) v

abbrev pub last_of : List ℕ → ℕ
last_of [] = 0
last_of (p ∷ rs) = p

-- A cluster that the loop has taken.
abbrev pub IsUsed : ℕ → Volume → Type 0
IsUsed d v = (2 ≤ d) × (d < 0xFFF0) × InTable d v × (fat_get d v ≢ 0)

pub record Building (first prev : ℕ) (rs : List ℕ) (v : Volume) : Type 0 where
  pub last : prev ≡ last_of rs
  pub links : Links first rs v
  pub distinct : Distinct rs
  pub used : (d : ℕ) → In d rs → IsUsed d v

-- Entries of the clusters but the last are as before.
pub Links-same :
    (first p : ℕ) (rs : List ℕ) (v v' : Volume)
    → ((d : ℕ) → In d rs → fat_get d v' ≡ fat_get d v)
    → Links first (p ∷ rs) v
    → Links first (p ∷ rs) v'
unfolding Links In
Links-same first p [] v v' same h = h
Links-same first p (q ∷ rs) v v' same (e, h) =
    (same q (inl refl) ∙ e, Links-same first q rs v v' (λ d h'. same d (inr h')) h)

-- A free cluster is none of those.
not-In :
    (first prev c : ℕ) (rs : List ℕ) (v : Volume)
    → Building first prev rs v
    → IsFree c v
    → ¬ In c rs
not-In first prev c rs v b (lo, hi, in_c, zeroed) h = (b.used c h).3 zeroed

module _ (c x : ℕ) (v : Volume) (sound : IsSound v) (lt : x < 2 ^ 16) (in_c : InTable c v) where
  pub entry_set : fat_get c (fat_set c x v).1 ≡ x
  entry_set =
      let e : fat_get c (fat_set c x v).1 ≡ (if c == c then x else fat_get c v) =
        (fat_set_lem c x c v sound lt in_c in_c).1 in
      let same : (c == c) ≡ true = ground arith in e ∙ (rw same refl)

  pub entry_other : (d : ℕ) → InTable d v → c ≢ d → fat_get d (fat_set c x v).1 ≡ fat_get d v
  entry_other d in_d ne =
      let e : fat_get d (fat_set c x v).1 ≡ (if c == d then x else fat_get d v) =
        (fat_set_lem c x d v sound lt in_c in_d).1 in
      let apart : (c == d) ≡ false = ground arith in e ∙ (rw apart refl)

  IsUsed-set : 2 ≤ c → c < 0xFFF0 → x ≢ 0 → IsUsed c (fat_set c x v).1
  IsUsed-set lo hi ne = (lo, hi, fat_set-InTable c x c v in_c, rw entry_set ne)

  IsUsed-other : (d : ℕ) → x ≢ 0 → IsUsed d v → IsUsed d (fat_set c x v).1
  IsUsed-other d ne (lo, hi, in_d, used) = (
    lo,
    hi,
    fat_set-InTable c x d v in_d,
    elim (==_cases c d) [
      | inl e ↦ subst (λ k. fat_get k (fat_set c x v).1 ≢ 0) e (rw entry_set ne)
      | inr apart ↦ rw (entry_other d in_d apart) used
    ],
  )

pub Building-first :
    (c : ℕ) (v : Volume) → IsSound v → IsFree c v → Building c c (c ∷ []) (fat_set c 0xFFFF v).1
unfolding Links Distinct In
Building-first c v sound (lo, hi, in_c, zeroed) = record {
  last = refl;
  links = refl;
  distinct = (λ h. h, tt);
  used = λ d h. elim h [
    | inl e ↦
        subst (λ k. IsUsed k (fat_set c 0xFFFF v).1) (sym e)
          (IsUsed-set c 0xFFFF v sound (omega arith) in_c lo hi (omega arith))
    | inr n ↦ absurd n
  ];
}

pub Building-next :
    (first p c : ℕ) (rs : List ℕ) (v : Volume)
    → IsSound v
    → IsFree c v
    → Building first p (p ∷ rs) v
    → Building first c (c ∷ p ∷ rs) (fat_set p c (fat_set c 0xFFFF v).1).1
unfolding Links Distinct In
Building-next first p c rs v sound (lo, hi, in_c, zeroed) b =
    let v' : Volume = (fat_set c 0xFFFF v).1 in
    let sound' : IsSound v' = fat_set-IsSound c 0xFFFF v sound in
    let at_p : IsUsed p v = b.used p (inl refl) in
    let in_p : InTable p v' = fat_set-InTable c 0xFFFF p v at_p.2 in
    let small : c < 2 ^ 16 = omega arith in
    let new : ¬ In c (p ∷ rs) = not-In first p c (p ∷ rs) v b (lo, hi, in_c, zeroed) in
    let kept : (d : ℕ) → In d rs → fat_get d (fat_set p c v').1 ≡ fat_get d v = λ d h.
      let in_d : InTable d v = (b.used d (inr h)).2 in
      entry_other p c v' sound' small in_p d (fat_set-InTable c 0xFFFF d v in_d)
        (λ e. b.distinct.0 (subst (λ k. In k rs) (sym e) h))
      ∙ entry_other c 0xFFFF v sound (omega arith) in_c d in_d
          (λ e. new (inr (subst (λ k. In k rs) (sym e) h))) in
    record {
      last = refl;
      links = (
        entry_set p c v' sound' small in_p,
        Links-same first p rs v (fat_set p c v').1 kept b.links,
      );
      distinct = (new, b.distinct);
      used = λ d h. elim h [
        | inl e ↦
            subst (λ k. IsUsed k (fat_set p c v').1) (sym e)
              (IsUsed-other p c v' sound' small in_p c (omega arith)
                (IsUsed-set c 0xFFFF v sound (omega arith) in_c lo hi (omega arith)))
        | inr h' ↦
            IsUsed-other p c v' sound' small in_p d (omega arith)
              (IsUsed-other c 0xFFFF v sound (omega arith) in_c d (omega arith) (b.used d h'))
      ];
    }
