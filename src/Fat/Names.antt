-- ===== src/Fat/Names.antt =====
-- File names of kernel/fs/fat16.c: the 11 bytes of a directory entry.
use flyos.Base.{
  ℕ, zero, suc, ◌+◌, ◌-◌, Bool, true, false, ◌&&◌, List, [], ◌∷◌, ◌++◌, leb, ◌==◌, if◌then◌else◌,
  length, replicate,
}
use flyos.Fat.Disk.{Sector}

abbrev pub blank : ℕ
blank = 32

abbrev pub dot : ℕ
dot = 46

-- `if (c >= 'a' && c <= 'z') c -= 32;`
abbrev pub upper : ℕ → ℕ
upper c = if leb 97 c && leb c 122 then c - 32 else c

-- The characters before a dot, at most `n`, and the rest of the name.
unfoldable pub take_base : (n : ℕ) → List ℕ → List ℕ × List ℕ
take_base zero name = ([], name)
take_base (suc n) [] = ([], [])
take_base (suc n) (c ∷ name) =
    let (b, rest) = take_base n name in if c == dot then ([], c ∷ name) else (upper c ∷ b, rest)

unfoldable pub take_upper : (n : ℕ) → List ℕ → List ℕ
take_upper zero name = []
take_upper (suc n) [] = []
take_upper (suc n) (c ∷ name) = upper c ∷ take_upper n name

abbrev pub pad : (n : ℕ) → List ℕ → List ℕ
pad n s = s ++ replicate (n - length s) blank

unfoldable pub extension : List ℕ → List ℕ
unfolding take_upper
extension [] = []
extension (c ∷ rest) = if c == dot then take_upper 3 rest else []

unfoldable pub parse_83 : List ℕ → List ℕ
unfolding take_base extension
parse_83 name = let (b, rest) = take_base 8 name in pad 8 b ++ pad 3 (extension rest)

-- The bytes of a field before the first blank.
unfoldable pub field : (n off : ℕ) → Sector → List ℕ
field zero off b = []
field (suc n) off b = let rest = field n (off + 1) b in if b off == blank then [] else b off ∷ rest

-- The readable name of the entry at `off`.
unfoldable pub dirent_name : (off : ℕ) → Sector → List ℕ
unfolding field
dirent_name off b =
    field 8 off b ++ (if b (off + 8) == blank then [] else dot ∷ field 3 (off + 8) b)

-- `n` bytes from `off` on.
abbrev pub bytes_at : (n off : ℕ) → Sector → List ℕ
bytes_at zero off b = []
bytes_at (suc n) off b = b off ∷ bytes_at n (off + 1) b

unfoldable pub equal : List ℕ → List ℕ → Bool
equal [] [] = true
equal [] (y ∷ ys) = false
equal (x ∷ xs) [] = false
equal (x ∷ xs) (y ∷ ys) = (x == y) && equal xs ys
