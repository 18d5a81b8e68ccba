-- ===== src/Pmm/Bitmap.antt =====
-- The page bitmap of kernel/mm/pmm.c: one bit for each page, eight pages to a byte.
use Prim.Native.Nat.{bit_and, bit_or}
use flyos.Base.{
  ℕ, ◌-◌, ◌/◌, ◌%◌, ◌^◌, ◌<◌, ◌≡◌, refl, Bool, true, false, not, ◌&&◌, ltb, ◌==◌, if◌then◌else◌,
  arith,
}
use flyos.Base.Bits.{full_table, full_table-at}

-- `bitmap`: the byte at each index.
abbrev pub Bitmap : Type 0
Bitmap = ℕ → ℕ

abbrev store_byte : Bitmap → ℕ → ℕ → Bitmap
store_byte bitmap i b j = if i == j then b else bitmap j

unfoldable pub bitmap_set : Bitmap → ℕ → Bitmap
bitmap_set bitmap page = store_byte bitmap (page / 8) (bit_or (bitmap (page / 8)) (2 ^ (page % 8)))

-- `(uint8_t)~(1 << k)` is 255 - 2^k.
unfoldable pub bitmap_clear : Bitmap → ℕ → Bitmap
bitmap_clear bitmap page =
    store_byte bitmap (page / 8) (bit_and (bitmap (page / 8)) (255 - 2 ^ (page % 8)))

unfoldable pub bitmap_test : Bitmap → ℕ → Bool
bitmap_test bitmap page = not (bit_and (bitmap (page / 8)) (2 ^ (page % 8)) == 0)

abbrev pub IsBytes : Bitmap → Type 0
IsBytes bitmap = (i : ℕ) → bitmap i < 256

abbrev test_bit : ℕ → ℕ → Bool
test_bit b k = not (bit_and b (2 ^ k) == 0)

abbrev same : Bool → Bool → Bool
same true b = b
same false b = not b

set_table :
    full_table
      (λ b i j. same (test_bit (bit_or b (2 ^ i)) j) (if i == j then true else test_bit b j))
      256
      8
      8
    ≡ true
unfolding full_table
set_table = refl

clear_table :
    full_table
      (λ b i j.
        same (test_bit (bit_and b (255 - 2 ^ i)) j) (if i == j then false else test_bit b j))
      256
      8
      8
    ≡ true
unfolding full_table
clear_table = refl

range_table :
    full_table (λ b i _. ltb (bit_or b (2 ^ i)) 256 && ltb (bit_and b (255 - 2 ^ i)) 256) 256 8 1
    ≡ true
unfolding full_table
range_table = refl

same→eq : (a b : Bool) → same a b ≡ true → a ≡ b
same→eq a b h = ground arith

ltb_both : (a b c d : ℕ) → (ltb a b && ltb c d) ≡ true → (a < b) × (c < d)
ltb_both a b c d h = ground arith

store_range :
    (b k : ℕ) → b < 256 → k < 8 → (bit_or b (2 ^ k) < 256) × (bit_and b (255 - 2 ^ k) < 256)
store_range b k hb hk =
    ltb_both _ 256 _ 256 (full_table-at _ 256 8 1 b k 0 range_table hb hk (omega arith))

test_bit-set :
    (b i j : ℕ)
    → b < 256
    → i < 8
    → j < 8
    → test_bit (bit_or b (2 ^ i)) j ≡ (if i == j then true else test_bit b j)
test_bit-set b i j hb hi hj = same→eq _ _ (full_table-at _ 256 8 8 b i j set_table hb hi hj)

test_bit-clear :
    (b i j : ℕ)
    → b < 256
    → i < 8
    → j < 8
    → test_bit (bit_and b (255 - 2 ^ i)) j ≡ (if i == j then false else test_bit b j)
test_bit-clear b i j hb hi hj = same→eq _ _ (full_table-at _ 256 8 8 b i j clear_table hb hi hj)

-- Setting a bit keeps the bytes in range, sets that page's bit and leaves every other page alone.
pub bitmap_set-IsBytes :
    (bitmap : Bitmap) (page : ℕ) → IsBytes bitmap → IsBytes (bitmap_set bitmap page)
unfolding bitmap_set
bitmap_set-IsBytes bitmap page h i =
    ground (arith, h i, store_range (bitmap (page / 8)) (page % 8) (h (page / 8)))

pub bitmap_clear-IsBytes :
    (bitmap : Bitmap) (page : ℕ) → IsBytes bitmap → IsBytes (bitmap_clear bitmap page)
unfolding bitmap_clear
bitmap_clear-IsBytes bitmap page h i =
    ground (arith, h i, store_range (bitmap (page / 8)) (page % 8) (h (page / 8)))

pub bitmap_test-set :
    (bitmap : Bitmap) (page q : ℕ)
    → IsBytes bitmap
    → bitmap_test (bitmap_set bitmap page) q ≡ (if page == q then true else bitmap_test bitmap q)
unfolding bitmap_test bitmap_set
bitmap_test-set bitmap page q h =
    ground (arith, test_bit-set (bitmap (page / 8)) (page % 8) (q % 8) (h (page / 8)))

pub bitmap_test-clear :
    (bitmap : Bitmap) (page q : ℕ)
    → IsBytes bitmap
    → bitmap_test (bitmap_clear bitmap page) q ≡ (if page == q then false else bitmap_test bitmap q)
unfolding bitmap_test bitmap_clear
bitmap_test-clear bitmap page q h =
    ground (arith, test_bit-clear (bitmap (page / 8)) (page % 8) (q % 8) (h (page / 8)))
