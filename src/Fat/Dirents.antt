-- ===== src/Fat/Dirents.antt =====
-- The bytes of a directory entry that kernel/fs/fat16.c writes.
use flyos.Base.{
  ℕ, zero, suc, ◌+◌, ◌≤◌, ◌<◌, ◌^◌, ◌≡◌, ◌≢◌, ◌⊎◌, inl, List, [], ◌∷◌, length, replicate, refl,
  subst, ◌∙◌, ap, arith,
}
use flyos.Fat.Disk.{Sector, read16, read32, put8, put16, put32}
use flyos.Fat.Names.{bytes_at}
use flyos.Fat.Root.{put_bytes, put_dirent}

abbrev pub AreBytes : List ℕ → Type 0
AreBytes [] = Unit
AreBytes (x ∷ xs) = (x < 256) × AreBytes xs

put_bytes_other :
    (xs : List ℕ) (off j : ℕ) (b : Sector)
    → (j < off) ⊎ (off + length xs ≤ j)
    → put_bytes xs off b j ≡ b j
unfolding put_bytes
put_bytes_other [] off j b out = refl
put_bytes_other (x ∷ xs) off j b out =
    let apart : off ≢ j = ground arith in
    let rest : put_bytes xs (off + 1) (put8 off x b) j ≡ put8 off x b j =
      put_bytes_other xs (off + 1) j (put8 off x b) (ground arith) in
    let same : put8 off x b j ≡ b j = ground arith in rest ∙ same

put_bytes-head :
    (x : ℕ) (xs : List ℕ) (off : ℕ) (b : Sector) → x < 256 → put_bytes (x ∷ xs) off b off ≡ x
unfolding put_bytes
put_bytes-head x xs off b lt =
    let byte : put8 off x b off ≡ x = ground arith in
    put_bytes_other xs (off + 1) off (put8 off x b) (inl (omega arith)) ∙ byte

bytes_at-put_bytes :
    (xs : List ℕ) (off : ℕ) (b : Sector)
    → AreBytes xs
    → bytes_at (length xs) off (put_bytes xs off b) ≡ xs
unfolding put_bytes
bytes_at-put_bytes [] off b small = refl
bytes_at-put_bytes (x ∷ xs) off b (lt, small) =
    rw (put_bytes-head x xs off b lt)
      (ap (λ ys. x ∷ ys) (bytes_at-put_bytes xs (off + 1) (put8 off x b) small))

pub bytes_at_same :
    (n off : ℕ) (b c : Sector)
    → ((j : ℕ) → off ≤ j → j < off + n → b j ≡ c j)
    → bytes_at n off b ≡ bytes_at n off c
bytes_at_same zero off b c same = refl
bytes_at_same (suc n) off b c same = rw (same off (omega arith) (omega arith)) (
    ap (λ ys. c off ∷ ys)
      (bytes_at_same n (off + 1) b c (λ j ge lt. same j (omega arith) (omega arith))))

-- What follows the name.
abbrev tail_bytes : List ℕ
tail_bytes = 0x20 ∷ replicate 14 0

fields_other :
    (cluster size off j : ℕ) (b : Sector)
    → j < off + 26
    → put32 (off + 28) size (put16 (off + 26) cluster b) j ≡ b j
fields_other cluster size off j b lt = ground arith

fields_far :
    (cluster size off j : ℕ) (b : Sector)
    → (j < off) ⊎ (off + 32 ≤ j)
    → put32 (off + 28) size (put16 (off + 26) cluster b) j ≡ b j
fields_far cluster size off j b out = ground arith

put_dirent_after :
    (want : List ℕ) (cluster size off j : ℕ) (b : Sector)
    → j < off + 26
    → put_dirent want cluster size off b j
      ≡ put_bytes tail_bytes (off + 11) (put_bytes want off b) j
unfolding put_dirent
put_dirent_after want cluster size off j b lt =
    fields_other cluster size off j (put_bytes tail_bytes (off + 11) (put_bytes want off b)) lt

pub put_dirent_other :
    (want : List ℕ) (cluster size off j : ℕ) (b : Sector)
    → length want ≡ 11
    → (j < off) ⊎ (off + 32 ≤ j)
    → put_dirent want cluster size off b j ≡ b j
unfolding put_dirent
put_dirent_other want cluster size off j b eleven out =
    let dated : put_bytes tail_bytes (off + 11) (put_bytes want off b) j ≡ put_bytes want off b j =
      put_bytes_other tail_bytes (off + 11) j (put_bytes want off b) (ground arith) in
    let named : put_bytes want off b j ≡ b j = put_bytes_other want off j b (ground arith) in
    let far : put_dirent want cluster size off b j
        ≡ put_bytes tail_bytes (off + 11) (put_bytes want off b) j =
      fields_far cluster size off j (put_bytes tail_bytes (off + 11) (put_bytes want off b)) out in
    far ∙ dated ∙ named

pub put_dirent-name :
    (want : List ℕ) (cluster size off : ℕ) (b : Sector)
    → length want ≡ 11
    → AreBytes want
    → bytes_at 11 off (put_dirent want cluster size off b) ≡ want
put_dirent-name want cluster size off b eleven small =
    let g : Sector = put_bytes want off b in
    bytes_at_same 11 off (put_dirent want cluster size off b) g (λ j ge lt.
      put_dirent_after want cluster size off j b (omega arith)
      ∙ put_bytes_other tail_bytes (off + 11) j g (inl lt))
    ∙ subst (λ n. bytes_at n off g ≡ want) eleven (bytes_at-put_bytes want off b small)

pub put_dirent-attr :
    (want : List ℕ) (cluster size off : ℕ) (b : Sector)
    → length want ≡ 11
    → put_dirent want cluster size off b (off + 11) ≡ 0x20
put_dirent-attr want cluster size off b eleven =
    put_dirent_after want cluster size off (off + 11) b (omega arith)
    ∙ put_bytes-head 0x20 (replicate 14 0) (off + 11) (put_bytes want off b) (omega arith)

pub put_dirent-cluster :
    (want : List ℕ) (cluster size off : ℕ) (b : Sector)
    → cluster < 2 ^ 16
    → read16 (off + 26) (put_dirent want cluster size off b) ≡ cluster
unfolding put_dirent
put_dirent-cluster want cluster size off b lt = ground arith

pub put_dirent-size :
    (want : List ℕ) (cluster size off : ℕ) (b : Sector)
    → size < 2 ^ 32
    → read32 (off + 28) (put_dirent want cluster size off b) ≡ size
unfolding put_dirent
put_dirent-size want cluster size off b lt = ground arith
