-- ===== src/Base/Bits.antt =====
-- Bits of one byte, as tables that are checked by evaluation.
use Prim.Native.Nat.{ℕ, zero, suc, ◌<◌}
use mathlib.Core.Path.{◌≡◌}
use mathlib.Core.Bool.{Bool, true, false}
use flyos.Base.Tests.{if◌then◌else◌}
use native.Mathlib.Omega.{arith}

-- The entries 0 to `n` - 1 of the table `row` are true.
unfoldable pub full_row : (row : ℕ → Bool) (n : ℕ) → Bool
full_row row zero = true
full_row row (suc n) = if full_row row n then row n else false

pub full_row-at : (row : ℕ → Bool) (n k : ℕ) → full_row row n ≡ true → k < n → row k ≡ true
unfolding full_row
full_row-at row (suc n) k full lt = ground (arith, full_row-at row n k)
full_row-at row zero k full lt = absurd (omega arith)

-- A table over three ranges.
unfoldable pub full_table : (table : ℕ → ℕ → ℕ → Bool) (n m k : ℕ) → Bool
unfolding full_row
full_table table n m k = full_row (λ x. full_row (λ y. full_row (table x y) k) m) n

pub full_table-at :
    (table : ℕ → ℕ → ℕ → Bool) (n m k x y z : ℕ)
    → full_table table n m k ≡ true
    → x < n
    → y < m
    → z < k
    → table x y z ≡ true
unfolding full_table
full_table-at table n m k x y z full hx hy hz =
    let at_x = full_row-at (λ x. full_row (λ y. full_row (table x y) k) m) n x full hx in
    let at_y = full_row-at (λ y. full_row (table x y) k) m y at_x hy in
    full_row-at (table x y) k z at_y hz
