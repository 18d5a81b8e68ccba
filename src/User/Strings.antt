-- ===== src/User/Strings.antt =====
-- The routines on strings, on memory in which the strings end.
use flyos.Base.{
  ℕ, zero, suc, ◌+◌, ◌<◌, ◌≤◌, ◌≡◌, ◌≢◌, false, ◌==◌, arith, inl, inr, ◌⊎◌, ◌∙◌, Bool-cases, sym,
  ap, some, ◌↔◌,
}
use flyos.User.Memory.{Memory, store, diff, strlen_loop, strlen, strcmp, strcpy}
use flyos.User.Copy.{copied}

-- A string of `n` characters stands at `s`.
abbrev pub IsString : Memory → (s n : ℕ) → Type 0
IsString m s zero = m s ≡ 0
IsString m s (suc n) = (m s ≢ 0) × IsString m (s + 1) n

strlen_loop-IsString :
    (n i s p fuel : ℕ) (m : Memory)
    → p ≡ s + i
    → IsString m p n
    → n < fuel
    → strlen_loop fuel i s m ≡ some (i + n)
unfolding strlen_loop
strlen_loop-IsString n i s p zero m e h lt = absurd (omega arith)
strlen_loop-IsString zero i s p (suc fuel) m e h lt =
    let at_end : m (s + i) ≡ 0 = sym (ap m e) ∙ h in ground (arith, at_end)
strlen_loop-IsString (suc n) i s p (suc fuel) m e (h, hs) lt =
    let more : m (s + i) ≢ 0 = λ z. h (ap m e ∙ z) in
    let rest = strlen_loop-IsString n (i + 1) s (p + 1) fuel m (omega arith) hs (omega arith) in
    ground (arith, more, rest)

-- `strlen` answers the number of characters before the terminator.
pub strlen-IsString :
    (n s fuel : ℕ) (m : Memory) → IsString m s n → n < fuel → strlen fuel s m ≡ some n
unfolding strlen
strlen-IsString n s fuel m h lt =
    let same : 0 + n ≡ n = omega arith in
    strlen_loop-IsString n 0 s s fuel m (omega arith) h lt ∙ ap some same

pub IsString-same :
    (n s : ℕ) (m m' : Memory)
    → ((a : ℕ) → s ≤ a → a ≤ s + n → m' a ≡ m a)
    → IsString m s n
    → IsString m' s n
IsString-same zero s m m' e h = e s (omega arith) (omega arith) ∙ h
IsString-same (suc n) s m m' e (h, hs) = (
  (λ z. h (sym (e s (omega arith) (omega arith)) ∙ z)),
  IsString-same n (s + 1) m m' (λ a lo hi. e a (omega arith) (omega arith)) hs,
)

-- `strcpy` to a place that does not overlap the string returns; it copies the characters and the
-- terminator, and changes no other byte.
pub strcpy-copied :
    (n d s fuel : ℕ) (m : Memory)
    → IsString m s n
    → (d + n < s) ⊎ (s + n < d)
    → n < fuel
    → (m' : Memory) × (strcpy fuel d s m ≡ some m') × ((a : ℕ) → m' a ≡ copied d s (n + 1) m a)
unfolding strcpy
strcpy-copied n d s zero m h apart lt = absurd (omega arith)
strcpy-copied zero d s (suc fuel) m h apart lt =
    (store m d (m s), ground (arith, h), λ a. ground arith)
strcpy-copied (suc n) d s (suc fuel) m (h, hs) apart lt =
    let m1 : Memory = store m d (m s) in
    let kept = IsString-same n (s + 1) m m1 (λ a lo hi. ground (arith, apart, lo, hi)) hs in
    let (m', e, w) =
      strcpy-copied n (d + 1) (s + 1) fuel m1 kept (ground (arith, apart)) (omega arith) in
    let more : (m s == 0) ≡ false = ground (arith, h) in
    (m', rw (more, e), λ a. w a ∙ ground (arith, apart))

-- The characters of the string of length `n` at `a`, and its terminator, stand at `b` too.
abbrev pub Agree : Memory → (a b n : ℕ) → Type 0
Agree m a b zero = m a ≡ m b
Agree m a b (suc n) = (m a ≡ m b) × Agree m (a + 1) (b + 1) n

diff-zero : (x y : ℕ) → x < 256 → y < 256 → diff x y ≡ 0 → x ≡ y
diff-zero x y hx hy e = omega arith

-- `strcmp` returns, and answers 0 exactly for equal strings.
pub strcmp-Agree :
    (n a b fuel : ℕ) (m : Memory)
    → ((p : ℕ) → m p < 256)
    → IsString m a n
    → n < fuel
    → (r : ℕ) × (strcmp fuel a b m ≡ some r) × ((r ≡ 0) ↔ Agree m a b n)
unfolding strcmp
strcmp-Agree n a b zero m bytes h lt = absurd (omega arith)
strcmp-Agree zero a b (suc fuel) m bytes h lt = (
  diff (m a) (m b),
  ground (arith, h),
  (diff-zero (m a) (m b) (bytes a) (bytes b), λ e. ground (arith, e, bytes a, bytes b)),
)
strcmp-Agree (suc n) a b (suc fuel) m bytes (h, hs) lt =
    let (r, e, (to, back)) = strcmp-Agree n (a + 1) (b + 1) fuel m bytes hs (omega arith) in
    elim (Bool-cases (m a == m b)) [
      | inl y ↦
          let same : m a ≡ m b = ground (arith, y) in
          (r, ground (arith, e, y, h), ((λ z. (same, to z)), λ w. back w.1))
      | inr no_match ↦ (
        diff (m a) (m b),
        ground (arith, no_match),
        (
          (λ z. absurd (ground (arith, no_match, diff-zero (m a) (m b) (bytes a) (bytes b) z))),
          λ w. absurd (ground (arith, no_match, w.0)),
        ),
      )
    ]
