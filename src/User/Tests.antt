-- ===== src/User/Tests.antt =====
-- The routines of the user library at concrete inputs: the string "hi" at 100.
use flyos.Base.{List, none, ℕ, ◌<◌, ◌≡◌, refl, [], ◌∷◌, some, ◌==◌, if◌then◌else◌, arith}
use flyos.User.Memory.{Memory, memmove}
use flyos.User.Copy.{memmove-copied}
use flyos.User.Strings.{IsString}
use flyos.User.Print.{print_uint, read_decimal, print_uint-read_decimal, print_uint-overflows}
use flyos.User.Malloc.{blocks, Apart, blocks-Apart}

abbrev hi : Memory
hi a = if a == 100 then 104 else if a == 101 then 105 else 0

hi-bytes : (p : ℕ) → hi p < 256
hi-bytes p = ground arith

hi-IsString : IsString hi 100 2
hi-IsString = ((λ e. absurd (omega arith)), ((λ e. absurd (omega arith)), refl))

-- The target overlaps the source.
memmove-copied_example : memmove 101 100 2 hi 102 ≡ 105
memmove-copied_example = memmove-copied 101 100 2 hi 102

-- The second request does not fit.
blocks-Apart_example : Apart 0 (blocks (100 ∷ 65500 ∷ 8 ∷ []) 0)
blocks-Apart_example =
    blocks-Apart (100 ∷ 65500 ∷ 8 ∷ []) 0 (omega arith, (omega arith, (omega arith, tt)))
      (omega arith) (omega arith)

print_uint-read_decimal_example :
    (out : List ℕ) × (print_uint 1234 10 6 48 ≡ some out) × (read_decimal out 0 ≡ 1234)
print_uint-read_decimal_example = print_uint-read_decimal 1234 6 (omega arith) (omega arith)

print_uint-overflows_example : print_uint 7 16 40 32 ≡ none
print_uint-overflows_example = print_uint-overflows 7 16 40 32 (omega arith)
