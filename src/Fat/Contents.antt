-- ===== src/Fat/Contents.antt =====
-- The bytes of a cluster that kernel/fs/fat16.c writes and reads.
use flyos.Base.{
  ℕ, zero, suc, ◌+◌, ◌-◌, ◌≤◌, ◌<◌, ◌≡◌, ◌≢◌, List, [], ◌∷◌, ◌++◌, length, length-take, length-drop,
  take-append-drop, take, drop, get_or, false, some, refl, sym, subst, ◌∙◌, ap, ◌==◌, min, arith,
}
use mathlib.Core.Option
use flyos.Fat.Disk.{Sector, Volume, sector_at, address}
use flyos.Fat.Names.{bytes_at}
use flyos.Fat.Files.{read_cluster}
use flyos.Fat.Words.{read_sector_good}

-- The bytes that fit in `n` sectors, and those that are left.
unfoldable pub part : (n : ℕ) → List ℕ → List ℕ
part zero xs = []
part (suc n) [] = []
part (suc n) (x ∷ xs) = take 512 (x ∷ xs) ++ part n (drop 512 (x ∷ xs))

unfoldable pub left : (n : ℕ) → List ℕ → List ℕ
left zero xs = xs
left (suc n) [] = []
left (suc n) (x ∷ xs) = left n (drop 512 (x ∷ xs))

append_assoc : (xs ys zs : List ℕ) → (xs ++ ys) ++ zs ≡ xs ++ (ys ++ zs)
append_assoc [] ys zs = refl
append_assoc (x ∷ xs) ys zs = ap (λ ws. x ∷ ws) (append_assoc xs ys zs)

pub part-append-left : (n : ℕ) (xs : List ℕ) → part n xs ++ left n xs ≡ xs
unfolding part left
part-append-left zero xs = refl
part-append-left (suc n) [] = refl
part-append-left (suc n) (x ∷ xs) =
    let ys : List ℕ = x ∷ xs in
    append_assoc (take 512 ys) (part n (drop 512 ys)) (left n (drop 512 ys))
    ∙ ap (λ zs. take 512 ys ++ zs) (part-append-left n (drop 512 ys))
    ∙ take-append-drop 512 ys

take_all : (n : ℕ) (xs : List ℕ) → length xs ≤ n → take n xs ≡ xs
take_all zero [] le = refl
take_all zero (x ∷ xs) le = absurd (omega arith)
take_all (suc n) [] le = refl
take_all (suc n) (x ∷ xs) le = ap (λ ys. x ∷ ys) (take_all n xs (omega arith))

bytes_at-get_or :
    (m off : ℕ) (xs : List ℕ) (b : Sector)
    → ((i : ℕ) → i < m → b (off + i) ≡ get_or xs i 0)
    → m ≤ length xs
    → bytes_at m off b ≡ take m xs
bytes_at-get_or zero off xs b reads le = refl
bytes_at-get_or (suc m) off [] b reads le = absurd (omega arith)
bytes_at-get_or (suc m) off (x ∷ xs) b reads le =
    let zeroth : off + 0 ≡ off = omega arith in
    let head : b off ≡ x = subst (λ o. b o ≡ x) zeroth (reads 0 (omega arith)) in
    rw head (
      ap (λ ys. x ∷ ys)
        (bytes_at-get_or m (off + 1) xs b
          (λ i lt.
            let at : off + suc i ≡ off + 1 + i = omega arith in
            subst (λ o. b o ≡ get_or xs i 0) at (reads (suc i) (omega arith)))
          (omega arith)))

-- The sector that is written for `xs`.
abbrev pub filled : List ℕ → Sector
filled xs i = get_or (take 512 xs) i 0

pub filled_lem : (xs : List ℕ) → bytes_at (min 512 (length xs)) 0 (filled xs) ≡ take 512 xs
filled_lem xs =
    let le : length (take 512 xs) ≡ min 512 (length xs) = length-take 512 xs in
    bytes_at-get_or (min 512 (length xs)) 0 (take 512 xs) (filled xs)
      (λ i lt. let at : 0 + i ≡ i = omega arith in ap (filled xs) at) (omega (arith, le))
    ∙ take_all (min 512 (length xs)) (take 512 xs) (omega (arith, le))

-- The `n` sectors from `lba` on hold the bytes.
unfoldable pub Holds : (n lba : ℕ) (xs : List ℕ) → Volume → Type 0
Holds zero lba xs v = Unit
Holds (suc n) lba [] v = Unit
Holds (suc n) lba (x ∷ xs) v =
    (bytes_at (min 512 (length (x ∷ xs))) 0 (sector_at lba v) ≡ take 512 (x ∷ xs))
    × Holds n (lba + 1) (drop 512 (x ∷ xs)) v

read_cluster-step :
    (n lba l : ℕ) (v : Volume)
    → l ≢ 0
    → v.read_fails (address lba v) ≡ false
    → read_cluster (suc n) lba l v
      ≡ Option.map
          (λ r. bytes_at (min 512 l) 0 (sector_at lba v) ++ r)
          (read_cluster n (lba + 1) (l - 512) v)
unfolding read_cluster
read_cluster-step n lba l v ne good =
    let eq : (l == 0) ≡ false = ground arith in
    rw (eq, read_sector_good lba v good, read_cluster) refl

-- Sectors that hold the bytes are read as those bytes.
pub read_cluster-part :
    (n lba : ℕ) (xs : List ℕ) (v : Volume)
    → ((a : ℕ) → v.read_fails a ≡ false)
    → Holds n lba xs v
    → read_cluster n lba (length xs) v ≡ some (part n xs)
unfolding read_cluster Holds part
read_cluster-part zero lba xs v healthy h = refl
read_cluster-part (suc n) lba [] v healthy h = refl
read_cluster-part (suc n) lba (x ∷ xs) v healthy (first, h) =
    let ys : List ℕ = x ∷ xs in
    let fewer : length (drop 512 ys) ≡ length ys - 512 = length-drop 512 ys in
    read_cluster-step n lba (length ys) v (omega arith) (healthy (address lba v))
    ∙ ap
        (λ l.
          Option.map (λ r. bytes_at (min 512 (length ys)) 0 (sector_at lba v) ++ r)
            (read_cluster n (lba + 1) l v))
        (sym fewer)
    ∙ ap (λ o. Option.map (λ r. bytes_at (min 512 (length ys)) 0 (sector_at lba v) ++ r) o)
        (read_cluster-part n (lba + 1) (drop 512 ys) v healthy h)
    ∙ ap (λ bs. some (bs ++ part n (drop 512 ys))) first

-- What stands in sectors that are not those is of no account.
pub Holds-same :
    (n lba : ℕ) (xs : List ℕ) (v v' : Volume)
    → ((i : ℕ) → i < n → sector_at (lba + i) v' ≡ sector_at (lba + i) v)
    → Holds n lba xs v
    → Holds n lba xs v'
unfolding Holds
Holds-same zero lba xs v v' same h = tt
Holds-same (suc n) lba [] v v' same h = tt
Holds-same (suc n) lba (x ∷ xs) v v' same (first, h) =
    let zeroth : lba + 0 ≡ lba = omega arith in
    let here : sector_at lba v' ≡ sector_at lba v =
      subst (λ l. sector_at l v' ≡ sector_at l v) zeroth (same 0 (omega arith)) in
    (
      ap (bytes_at (min 512 (length (x ∷ xs))) 0) here ∙ first,
      Holds-same n (lba + 1) (drop 512 (x ∷ xs)) v v'
          (λ i lt.
            let at : lba + suc i ≡ lba + 1 + i = omega arith in
            subst (λ l. sector_at l v' ≡ sector_at l v) at (same (suc i) (omega arith)))
          h,
    )
