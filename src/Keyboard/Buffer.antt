-- ===== src/Keyboard/Buffer.antt =====
-- The ring buffer of the keyboard is a queue of at most 255 characters.
use flyos.Base.{
  ℕ, zero, suc, ◌+◌, ◌-◌, ◌%◌, ◌<◌, ◌≡◌, refl, true, false, List, [], ◌∷◌, ◌++◌, Option, none, some,
  leb, ◌==◌, if◌then◌else◌, arith, length, Bool-cases, inl, inr, ◌⊎◌, ◌∙◌, ap, sym, subst,
}
use flyos.Keyboard.Defs.{Kbd, push, getchar_nonblock}

-- The `n` characters from the index `i` on.
abbrev pub from : (ℕ → ℕ) → ℕ → ℕ → List ℕ
from buf i zero = []
from buf i (suc n) = buf i ∷ from buf ((i + 1) % 256) n

abbrev pub count : Kbd → ℕ
count k = (k.head + 256 - k.tail) % 256

abbrev pub contents : Kbd → List ℕ
contents k = from k.buf k.tail (count k)

pub record IsKbd (k : Kbd) : Type 0 where
  pub head_small : k.head < 256
  pub tail_small : k.tail < 256

pub length-from : (buf : ℕ → ℕ) (i n : ℕ) → length (from buf i n) ≡ n
length-from buf i zero = refl
length-from buf i (suc n) = ap suc (length-from buf ((i + 1) % 256) n)

from-last :
    (buf : ℕ → ℕ) (i n : ℕ)
    → i < 256
    → from buf i (suc n) ≡ from buf i n ++ buf ((i + n) % 256) ∷ []
from-last buf i zero h = let same : i ≡ (i + 0) % 256 = omega arith in ap (λ j. buf j ∷ []) same
from-last buf i (suc n) h =
    let rest = from-last buf ((i + 1) % 256) n (omega arith) in
    let same : ((i + 1) % 256 + n) % 256 ≡ (i + suc n) % 256 = omega arith in
    ap (λ x. buf i ∷ x) (rest ∙ ap (λ j. from buf ((i + 1) % 256) n ++ buf j ∷ []) same)

-- A write behind the characters does not change them.
from-write :
    (buf : ℕ → ℕ) (c i n h : ℕ)
    → i < 256
    → n < 256
    → (i + n) % 256 ≡ h
    → from (λ j. if h == j then c else buf j) i n ≡ from buf i n
from-write buf c i zero h hi hn e = refl
from-write buf c i (suc n) h hi hn e =
    let rest = from-write buf c ((i + 1) % 256) n h (omega arith) (omega arith) (omega arith) in
    let ne : (h == i) ≡ false = ground (arith, hi, hn, e) in rw (ne, rest)

-- The characters after `c` was typed: 255 is the most that fit.
abbrev pub after : ℕ → Kbd → List ℕ
after c k = if leb 255 (length (contents k)) then contents k else contents k ++ c ∷ []

-- `kbd_push` appends the character, unless 255 are there already: then it is dropped.
pub push-contents :
    (c : ℕ) (k : Kbd) → IsKbd k → IsKbd (push c k) × (contents (push c k) ≡ after c k)
unfolding push
push-contents c k v =
    let n = length-from k.buf k.tail (count k) in
    let hs = v.head_small in
    let ts = v.tail_small in
    elim (Bool-cases ((k.head + 1) % 256 == k.tail)) [
      | inl y ↦
          let full : leb 255 (length (contents k)) ≡ true = ground (arith, y, n, hs, ts) in
          let run : push c k ≡ k = rw y in
          let same : contents k ≡ after c k = rw full in
          subst (λ x. IsKbd x × (contents x ≡ after c k)) (sym run) (v, same)
      | inr room ↦
          let full : leb 255 (length (contents k)) ≡ false = ground (arith, room, n, hs, ts) in
          let buf : ℕ → ℕ = λ i. if k.head == i then c else k.buf i in
          let k' : Kbd = record k { buf = buf; head = (k.head + 1) % 256 } in
          let run : push c k ≡ k' = rw room in
          let size : count k' ≡ suc (count k) = ground (arith, room, hs, ts) in
          let h : (k.tail + count k) % 256 ≡ k.head = omega arith in
          let at_head : buf ((k.tail + count k) % 256) ≡ c = ground (arith, h) in
          let written : contents k' ≡ contents k ++ c ∷ [] =
            ap (from buf k.tail) size
            ∙ from-last buf k.tail (count k) ts
            ∙ ap (λ x. from buf k.tail (count k) ++ x ∷ []) at_head
            ∙ ap (λ x. x ++ c ∷ [])
                (from-write k.buf c k.tail (count k) k.head ts (omega arith) h) in
          let same : contents k ++ c ∷ [] ≡ after c k = rw full in
          subst (λ x. IsKbd x × (contents x ≡ after c k)) (sym run)
            (record { head_small = omega arith; tail_small = ts }, written ∙ same)
    ]

abbrev pub Taken : Kbd → Option ℕ → Kbd → Type 0
Taken k c k' =
    ((contents k ≡ []) × (c ≡ none) × (k' ≡ k))
    ⊎ ((x : ℕ) × (c ≡ some x) × (contents k ≡ x ∷ contents k'))

-- `keyboard_getchar_nonblock` takes the oldest character, and answers -1 only to an empty buffer.
pub getchar_nonblock-contents :
    (k : Kbd) → IsKbd k → let (c, k') = getchar_nonblock k in IsKbd k' × Taken k c k'
unfolding getchar_nonblock
getchar_nonblock-contents k v =
    let hs = v.head_small in
    let ts = v.tail_small in
    elim (Bool-cases (k.head == k.tail)) [
      | inl y ↦
          let size : count k ≡ 0 = ground (arith, y, hs, ts) in
          let run : getchar_nonblock k ≡ (none, k) = rw y in
          subst (λ r. IsKbd r.1 × Taken k r.0 r.1) (sym run)
            (v, inl (ap (from k.buf k.tail) size, refl, refl))
      | inr room ↦
          let k' : Kbd = record k { tail = (k.tail + 1) % 256 } in
          let size : count k ≡ suc (count k') = ground (arith, room, hs, ts) in
          let run : getchar_nonblock k ≡ (some (k.buf k.tail), k') = rw room in
          subst (λ r. IsKbd r.1 × Taken k r.0 r.1) (sym run)
            (
              record { head_small = hs; tail_small = omega arith },
              inr (k.buf k.tail, refl, ap (from k.buf k.tail) size),
            )
    ]
