-- ===== src/Ramfs/Bytes.antt =====
-- The loops over the bytes of a buffer.
use flyos.Base.{
  ℕ, zero, suc, ◌+◌, ◌*◌, ◌^◌, ◌%◌, ◌≤◌, ◌<◌, ◌≡◌, refl, ◌≢◌, List, [], ◌∷◌, ◌==◌, ltb, arith, ◌∙◌,
  sym, some, if◌then◌else◌, Bool-cases, inl, inr, ◌⊎◌, length, get_or, ap,
}
use native.Mathlib.Numerals.{unary_clauses}
use flyos.Ramfs.Data.{Bytes, copy_bytes, store_bytes, load_bytes, grow}

-- The index `j` of the buffer at `p` is outside of `n` bytes from the index `i` of the buffer at `d`.
abbrev pub Outside : (p j d i n : ℕ) → Type 0
Outside p j d i n = (p ≢ d) ⊎ (j < i) ⊎ (i + n ≤ j)

pub store_bytes-Outside :
    (xs : List ℕ) (off d p j : ℕ) (b : Bytes)
    → Outside p j d off (length xs)
    → store_bytes xs off d b p j ≡ b p j
unfolding store_bytes
store_bytes-Outside [] off d p j b out = refl
store_bytes-Outside (x ∷ xs) off d p j b out = ground (
  arith,
  out,
  store_bytes-Outside xs (off + 1) d p j
      (λ q k. if q == d then if k == off then x else b q k else b q k),
)

pub store_bytes-at :
    (xs : List ℕ) (off d i : ℕ) (b : Bytes)
    → i < length xs
    → store_bytes xs off d b d (off + i) ≡ get_or xs i 0
unfolding store_bytes
store_bytes-at [] off d i b lt = absurd (omega arith)
store_bytes-at (x ∷ xs) off d zero b lt =
    store_bytes-Outside xs (off + 1) d d (off + 0)
      (λ q k. if q == d then if k == off then x else b q k else b q k) (inr (inl (omega arith)))
    ∙ ground arith
store_bytes-at (x ∷ xs) off d (suc i) b lt =
    let e : off + suc i ≡ off + 1 + i = omega arith in
    rw e (
      store_bytes-at xs (off + 1) d i
        (λ q k. if q == d then if k == off then x else b q k else b q k) (omega arith))

pub copy_bytes-Outside :
    (n i nd d p j : ℕ) (b : Bytes) → Outside p j nd i n → copy_bytes n i nd d b p j ≡ b p j
unfolding copy_bytes
copy_bytes-Outside zero i nd d p j b out = refl
copy_bytes-Outside (suc n) i nd d p j b out = ground (
  arith,
  out,
  copy_bytes-Outside n (i + 1) nd d p j
      (λ q k. if q == nd then if k == i then b d i else b q k else b q k),
)

pub copy_bytes-at :
    (n i nd d j : ℕ) (b : Bytes) → nd ≢ d → i ≤ j → j < i + n → copy_bytes n i nd d b nd j ≡ b d j
unfolding copy_bytes
copy_bytes-at zero i nd d j b ne lo hi = absurd (omega arith)
copy_bytes-at (suc n) i nd d j b ne lo hi =
    let b' : Bytes = λ q k. if q == nd then if k == i then b d i else b q k else b q k in
    elim (Bool-cases (i == j)) [
      | inl t ↦ copy_bytes-Outside n (i + 1) nd d nd j b' (inr (inl (ground arith))) ∙ ground arith
      | inr t ↦ copy_bytes-at n (i + 1) nd d j b' ne (ground arith) (omega arith) ∙ ground arith
    ]

pub load_bytes-eq :
    (xs : List ℕ) (off d : ℕ) (b : Bytes)
    → ((i : ℕ) → i < length xs → b d (off + i) ≡ get_or xs i 0)
    → load_bytes (length xs) off d b ≡ xs
unfolding load_bytes
load_bytes-eq [] off d b at = refl
load_bytes-eq (x ∷ xs) off d b at =
    let here : off + 0 ≡ off = omega arith in
    let first : b d off ≡ x = ap (b d) (sym here) ∙ at 0 (omega arith) in
    let others : load_bytes (length xs) (off + 1) d b ≡ xs = load_bytes-eq xs (off + 1) d b (λ i lt.
      let e : off + 1 + i ≡ off + suc i = omega arith in rw e (at (suc i) (omega arith))) in
    rw (first, others)

mul_pow-suc : (size fuel : ℕ) → size * 2 ^ suc fuel ≡ size * 2 * 2 ^ fuel
mul_pow-suc size fuel = simp unary_clauses (omega arith)

-- Doubling reaches every size up to 2^62, and stops below 2^63.
pub grow-enough :
    (fuel size need : ℕ)
    → size < 2 ^ 63
    → need ≤ 2 ^ 62
    → need ≤ size * 2 ^ fuel
    → (c : ℕ) × (grow (suc fuel) size need ≡ some c) × (need ≤ c) × (size ≤ c) × (c < 2 ^ 63)
unfolding grow
grow-enough zero size need hc hn enough = (size, ground arith, omega arith, omega arith, hc)
grow-enough (suc fuel) size need hc hn enough = elim (Bool-cases (ltb size need)) [
  | inr t ↦ (size, rw t, ground arith, omega arith, hc)
  | inl t ↦
      let twice : size * 2 % 2 ^ 64 ≡ size * 2 = ground arith in
      let (c, e, n, le, lt) =
        grow-enough fuel (size * 2) need (ground arith) hn (rw (mul_pow-suc size fuel) at enough) in
      (c, rw t (rw twice e), n, omega arith, lt)
]
