-- ===== src/User/Bounded.antt =====
-- The routines on strings with a bound: `strncpy` and `strncmp`.
use flyos.Base.{
  ℕ, zero, suc, ◌+◌, ◌-◌, ◌<◌, ◌≤◌, ◌≡◌, refl, ◌≢◌, ◌&&◌, ltb, leb, ◌==◌, if◌then◌else◌, arith, inl,
  inr, ◌⊎◌, ◌∙◌, Bool-cases, sym, ap, ◌↔◌,
}
use flyos.User.Memory.{Memory, store, copy_padded, strncpy, compare_chars, strncmp}
use flyos.User.Copy.{fill-at}
use flyos.User.Strings.{IsString, IsString-same}

-- The memory in which the `n` bytes at `d` are the `k` characters at `s`, cut or padded with zeros.
abbrev pub padded : (d s k n : ℕ) → Memory → Memory
padded d s k n m a =
    if leb d a && ltb a (d + n) then if ltb (a - d) k then m (s + (a - d)) else 0 else m a

padded-next :
    (d s i p q k n : ℕ) (m : Memory) (a : ℕ)
    → p ≡ d + i
    → q ≡ s + i
    → (p + suc n ≤ q) ⊎ (q + suc k < p)
    → padded (p + 1) (q + 1) k n (store m (d + i) (m (s + i))) a ≡ padded p q (suc k) (suc n) m a
padded-next d s i p q k n m a ep eq apart =
    let char : m q ≡ m (s + i) = ap m eq in ground (arith, apart, char, ep, eq)

copy_padded-padded :
    (n i d s k p q : ℕ) (m : Memory) (a : ℕ)
    → p ≡ d + i
    → q ≡ s + i
    → IsString m q k
    → (p + n ≤ q) ⊎ (q + k < p)
    → copy_padded n i d s m a ≡ padded p q k n m a
unfolding copy_padded
copy_padded-padded zero i d s k p q m a ep eq h apart = ground arith
copy_padded-padded (suc n) i d s zero p q m a ep eq h apart =
    let at_end : m (s + i) ≡ 0 = sym (ap m eq) ∙ h in
    ground (arith, at_end, fill-at (suc n) i d 0 m a, ep)
copy_padded-padded (suc n) i d s (suc k) p q m a ep eq (h, hs) apart =
    let m1 : Memory = store m (d + i) (m (s + i)) in
    let more : m (s + i) ≢ 0 = λ z. h (ap m eq ∙ z) in
    let char : m q ≡ m (s + i) = ap m eq in
    let kept = IsString-same k (q + 1) m m1 (λ b lo hi. ground (arith, ep, apart, lo, hi)) hs in
    let rest =
      copy_padded-padded n (i + 1) d s k (p + 1) (q + 1) m1 a (omega arith) (omega arith) kept
        (ground (arith, apart)) in
    let run : copy_padded (suc n) i d s m a ≡ copy_padded n (i + 1) d s m1 a =
      ground (arith, more) in
    run ∙ rest ∙ padded-next d s i p q k n m a ep eq apart

-- `strncpy` of a string of `k` characters to a place that does not overlap it writes its first
-- characters, padded with zeros to `n` bytes, and changes no other byte.
pub strncpy-padded :
    (dst src k n : ℕ) (m : Memory) (a : ℕ)
    → IsString m src k
    → (dst + n ≤ src) ⊎ (src + k < dst)
    → strncpy dst src n m a ≡ padded dst src k n m a
unfolding strncpy
strncpy-padded dst src k n m a h apart =
    copy_padded-padded n 0 dst src k dst src m a (omega arith) (omega arith) h apart

-- The two strings have the same characters up to a terminator or the bound.
abbrev pub AgreeFor : Memory → (p q n : ℕ) → Type 0
AgreeFor m p q zero = Unit
AgreeFor m p q (suc n) = (m p ≡ m q) × (m p ≢ 0 → AgreeFor m (p + 1) (q + 1) n)

compare_chars-AgreeFor :
    (n i a b p q : ℕ) (m : Memory)
    → ((x : ℕ) → m x < 256)
    → p ≡ a + i
    → q ≡ b + i
    → (compare_chars n i a b m ≡ 0) ↔ AgreeFor m p q n
unfolding compare_chars
compare_chars-AgreeFor zero i a b p q m bytes ep eq = ((λ z. tt), λ z. refl)
compare_chars-AgreeFor (suc n) i a b p q m bytes ep eq =
    let (to, back) =
      compare_chars-AgreeFor n (i + 1) a b (p + 1) (q + 1) m bytes (omega arith) (omega arith) in
    let left : m p ≡ m (a + i) = ap m ep in
    let right : m q ≡ m (b + i) = ap m eq in
    (
      (λ z.
          let same : m (a + i) ≡ m (b + i) = ground (arith, z, bytes (a + i), bytes (b + i)) in
          (left ∙ same ∙ sym right, λ ne. to (ground (arith, z, same, left, ne)))),
      λ w.
          let same : m (a + i) ≡ m (b + i) = sym left ∙ w.0 ∙ right in
          elim (Bool-cases (m (a + i) == 0)) [
            | inl y ↦ ground (arith, same, y)
            | inr n ↦
                let rest = back (w.1 (λ z. absurd (ground (arith, n, left, z)))) in
                ground (arith, same, n, rest)
          ],
    )

-- `strncmp` answers 0 exactly when the strings agree up to a terminator or the bound.
pub strncmp-AgreeFor :
    (a b n : ℕ) (m : Memory) → ((x : ℕ) → m x < 256) → (strncmp a b n m ≡ 0) ↔ AgreeFor m a b n
unfolding strncmp
strncmp-AgreeFor a b n m bytes =
    compare_chars-AgreeFor n 0 a b a b m bytes (omega arith) (omega arith)
