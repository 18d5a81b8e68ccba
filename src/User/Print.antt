-- ===== src/User/Print.antt =====
-- `print_uint` of user/lib/stdio.c. A character is its ASCII number; the characters that are written
-- are the result. `none` stands for a write behind the end of the buffer of 32 characters.
use flyos.Base.{
  ℕ, zero, suc, ◌+◌, ◌-◌, ◌*◌, ◌/◌, ◌%◌, ◌^◌, ◌<◌, ◌≤◌, ◌≡◌, refl, true, false, List, [], ◌∷◌,
  Option, some, none, ltb, ◌==◌, if◌then◌else◌, arith, ◌∙◌, ap, length,
}

-- `digits[d]`
abbrev pub digit : ℕ → ℕ
digit d = if ltb d 10 then 48 + d else 87 + d

-- The loop that fills the buffer with the digits, the lowest first, on fuel.
unfoldable pub digits_loop : (fuel v base : ℕ) → List ℕ
digits_loop zero v base = []
digits_loop (suc fuel) v base =
    let rest = digits_loop fuel (v / base) base in if v == 0 then [] else digit (v % base) ∷ rest

-- `while (i < width) buf[i++] = pad;`, from a buffer of the characters `buf` on.
unfoldable pub pad_loop : (width pad : ℕ) → List ℕ → List ℕ
pad_loop zero pad buf = buf
pad_loop (suc width) pad [] = pad ∷ pad_loop width pad []
pad_loop (suc width) pad (c ∷ buf) = c ∷ pad_loop width pad buf

abbrev pub backwards : List ℕ → List ℕ → List ℕ
backwards [] out = out
backwards (c ∷ cs) out = backwards cs (c ∷ out)

unfoldable pub print_uint : (v base width pad : ℕ) → Option (List ℕ)
unfolding digits_loop pad_loop
print_uint v base width pad =
    let buf = pad_loop width pad (if v == 0 then 48 ∷ [] else digits_loop 64 v base) in
    if ltb 32 (length buf) then none else some (backwards buf [])

-- What a reader makes of decimal digits, in the order in which they are written.
abbrev pub read_decimal : List ℕ → ℕ → ℕ
read_decimal [] acc = acc
read_decimal (c ∷ cs) acc = read_decimal cs (acc * 10 + (c - 48))

-- The value of the buffer, the lowest digit first.
abbrev low_first : List ℕ → ℕ
low_first [] = 0
low_first (c ∷ cs) = (c - 48) + 10 * low_first cs

digits_loop-low_first : (fuel v : ℕ) → v < 10 ^ fuel → low_first (digits_loop fuel v 10) ≡ v
unfolding digits_loop
digits_loop-low_first zero v h = omega arith
digits_loop-low_first (suc fuel) v h = ground (arith, digits_loop-low_first fuel (v / 10))

pad_loop-low_first : (width : ℕ) (buf : List ℕ) → low_first (pad_loop width 48 buf) ≡ low_first buf
unfolding pad_loop
pad_loop-low_first zero buf = refl
pad_loop-low_first (suc width) [] = ground (arith, pad_loop-low_first width [])
pad_loop-low_first (suc width) (c ∷ buf) = ground (arith, pad_loop-low_first width buf)

read_decimal-backwards :
    (buf out : List ℕ) → read_decimal (backwards buf out) 0 ≡ read_decimal out (low_first buf)
read_decimal-backwards [] out = refl
read_decimal-backwards (c ∷ cs) out =
    let e : low_first cs * 10 + (c - 48) ≡ low_first (c ∷ cs) = omega arith in
    read_decimal-backwards cs (c ∷ out) ∙ ap (read_decimal out) e

digits_loop-length : (fuel k v : ℕ) → v < 10 ^ k → length (digits_loop fuel v 10) ≤ k
unfolding digits_loop
digits_loop-length zero k v h = omega arith
digits_loop-length (suc fuel) zero v h = ground arith
digits_loop-length (suc fuel) (suc k) v h = ground (arith, digits_loop-length fuel k (v / 10))

pad_loop-length :
    (width pad : ℕ) (buf : List ℕ) (n : ℕ)
    → width ≤ n
    → length buf ≤ n
    → length (pad_loop width pad buf) ≤ n
unfolding pad_loop
pad_loop-length zero pad buf n h l = l
pad_loop-length (suc width) pad [] n h l =
    let rest = pad_loop-length width pad [] (n - 1) (omega arith) (omega arith) in omega arith
pad_loop-length (suc width) pad (c ∷ buf) n h l =
    let rest = pad_loop-length width pad buf (n - 1) (omega arith) (omega arith) in omega arith

pad_loop-width : (width pad : ℕ) (buf : List ℕ) → width ≤ length (pad_loop width pad buf)
unfolding pad_loop
pad_loop-width zero pad buf = omega arith
pad_loop-width (suc width) pad [] = omega (arith, pad_loop-width width pad [])
pad_loop-width (suc width) pad (c ∷ buf) = omega (arith, pad_loop-width width pad buf)

-- The digits of a 64-bit number, before the padding.
abbrev buffer : ℕ → List ℕ
buffer v = if v == 0 then 48 ∷ [] else digits_loop 64 v 10

buffer-length : (v : ℕ) → v < 2 ^ 64 → length (buffer v) ≤ 20
buffer-length v h = ground (arith, digits_loop-length 64 20 v)

buffer-low_first : (v : ℕ) → v < 2 ^ 64 → low_first (buffer v) ≡ v
buffer-low_first v h = ground (arith, digits_loop-low_first 64 v)

ltb-within : (n : ℕ) → n ≤ 32 → ltb 32 n ≡ false
ltb-within n h = ground arith

-- A 64-bit number printed in decimal, padded with zeros to a width of at most 32, reads as the number.
pub print_uint-read_decimal :
    (v width : ℕ)
    → v < 2 ^ 64
    → width ≤ 32
    → (out : List ℕ) × (print_uint v 10 width 48 ≡ some out) × (read_decimal out 0 ≡ v)
unfolding print_uint
print_uint-read_decimal v width h w =
    let buf = pad_loop width 48 (buffer v) in
    let small = buffer-length v h in
    let size = pad_loop-length width 48 (buffer v) 32 w (omega arith) in
    let fits : ltb 32 (length buf) ≡ false = ltb-within (length buf) size in
    (
      backwards buf [],
      rw fits,
      read_decimal-backwards buf [] ∙ pad_loop-low_first width (buffer v) ∙ buffer-low_first v h,
    )

-- A width of more than 32 makes the padding write behind the end of the buffer, whatever is printed.
pub print_uint-overflows : (v base width pad : ℕ) → 32 < width → print_uint v base width pad ≡ none
unfolding print_uint
print_uint-overflows v base width pad h =
    let digits = if v == 0 then 48 ∷ [] else digits_loop 64 v base in
    let long = pad_loop-width width pad digits in
    let over : ltb 32 (length (pad_loop width pad digits)) ≡ true = ground (arith, h, long) in
    rw over
