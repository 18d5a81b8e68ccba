-- ===== src/Fat/Parsing.antt =====
-- `parse_83` of kernel/fs/fat16.c gives eleven bytes that a directory entry can hold.
use flyos.Base.{
  ℕ, zero, suc, ◌+◌, ◌-◌, ◌≤◌, ◌≡◌, ◌≢◌, ◌⊎◌, inl, inr, List, [], ◌∷◌, ◌++◌, length, length-append,
  length-replicate, replicate, get_or, refl, ◌==◌, Bool-cases, arith,
}
use flyos.Fat.Names.{blank, dot, upper, take_base, take_upper, pad, extension, parse_83}
use flyos.Fat.Dirents.{AreBytes}
use flyos.Fat.Scanning.{IsName}

AreBytes-append : (xs ys : List ℕ) → AreBytes xs → AreBytes ys → AreBytes (xs ++ ys)
AreBytes-append [] ys hx hy = hy
AreBytes-append (x ∷ xs) ys (lt, hx) hy = (lt, AreBytes-append xs ys hx hy)

AreBytes-replicate : (n : ℕ) → AreBytes (replicate n blank)
AreBytes-replicate zero = tt
AreBytes-replicate (suc n) = (omega arith, AreBytes-replicate n)

AreBytes-pad : (n : ℕ) (xs : List ℕ) → AreBytes xs → AreBytes (pad n xs)
AreBytes-pad n xs h =
    AreBytes-append xs (replicate (n - length xs) blank) h (AreBytes-replicate (n - length xs))

length-pad : (n : ℕ) (xs : List ℕ) → length xs ≤ n → length (pad n xs) ≡ n
length-pad n xs le =
    let both : length (pad n xs) ≡ length xs + length (replicate (n - length xs) blank) =
      length-append xs (replicate (n - length xs) blank) in
    let rest : length (replicate (n - length xs) blank) ≡ n - length xs =
      length-replicate (n - length xs) blank in
    omega (arith, both, rest)

-- What the parts of a name are.
take_base_lem :
    (n : ℕ) (name : List ℕ)
    → AreBytes name
    → (length (take_base n name).0 ≤ n)
      × AreBytes (take_base n name).0
      × AreBytes (take_base n name).1
unfolding take_base
take_base_lem zero name h = (omega arith, tt, h)
take_base_lem (suc n) [] h = (omega arith, tt, tt)
take_base_lem (suc n) (c ∷ name) (lt, h) =
    let (le, base, rest) = take_base_lem n name h in
    elim (Bool-cases (c == dot)) [
      | inl e ↦ rw e (omega arith, tt, (lt, h))
      | inr e ↦ rw e (omega arith, (ground arith, base), rest)
    ]

take_upper_lem :
    (n : ℕ) (name : List ℕ)
    → AreBytes name
    → (length (take_upper n name) ≤ n) × AreBytes (take_upper n name)
unfolding take_upper
take_upper_lem zero name h = (omega arith, tt)
take_upper_lem (suc n) [] h = (omega arith, tt)
take_upper_lem (suc n) (c ∷ name) (lt, h) =
    let (le, bytes) = take_upper_lem n name h in (omega arith, (ground arith, bytes))

extension_lem :
    (rest : List ℕ) → AreBytes rest → (length (extension rest) ≤ 3) × AreBytes (extension rest)
unfolding extension
extension_lem [] h = (omega arith, tt)
extension_lem (c ∷ rest) (lt, h) = elim (Bool-cases (c == dot)) [
  | inl e ↦ rw e (take_upper_lem 3 rest h)
  | inr e ↦ rw e (omega arith, tt)
]

parse_83_lem :
    (name : List ℕ) → AreBytes name → (length (parse_83 name) ≡ 11) × AreBytes (parse_83 name)
unfolding parse_83
parse_83_lem name h =
    let (le, base, rest) = take_base_lem 8 name h in
    let (le', ext) = extension_lem (take_base 8 name).1 rest in
    let b : List ℕ = (take_base 8 name).0 in
    let x : List ℕ = extension (take_base 8 name).1 in
    let eight : length (pad 8 b) ≡ 8 = length-pad 8 b le in
    let three : length (pad 3 x) ≡ 3 = length-pad 3 x le' in
    let sum : length (pad 8 b ++ pad 3 x) ≡ length (pad 8 b) + length (pad 3 x) =
      length-append (pad 8 b) (pad 3 x) in
    (
      omega (arith, eight, three, sum),
      AreBytes-append (pad 8 b) (pad 3 x) (AreBytes-pad 8 b base) (AreBytes-pad 3 x ext),
    )

-- The first byte is a blank, or the first character.
parse_83-head :
    (name : List ℕ)
    → (get_or (parse_83 name) 0 0 ≡ blank)
      ⊎ (get_or (parse_83 name) 0 0 ≡ upper (get_or name 0 blank))
unfolding parse_83 take_base
parse_83-head [] = inl refl
parse_83-head (c ∷ name) = elim (Bool-cases (c == dot)) [
  | inl e ↦ inl (rw e refl)
  | inr e ↦ inr (rw e refl)
]

-- The eleven bytes of a name whose first character is neither 0 nor 0xE5.
pub parse_83-IsName :
    (name : List ℕ)
    → AreBytes name
    → get_or name 0 blank ≢ 0
    → get_or name 0 blank ≢ 0xE5
    → IsName (parse_83 name)
parse_83-IsName name h ne ne' = record {
  eleven = (parse_83_lem name h).0;
  small = (parse_83_lem name h).1;
  not_end = elim (parse_83-head name) [ inl e ↦ rw e (omega arith) | inr e ↦ rw e (ground arith) ];
  not_deleted = elim (parse_83-head name) [
    | inl e ↦ rw e (omega arith)
    | inr e ↦ rw e (ground arith)
  ];
}
