-- ===== src/Fat/Entries.antt =====
-- The words that the loop of `fat_set` in kernel/fs/fat16.c writes, and what `fat_get` reads after them.
use flyos.Base.{
  ℕ, zero, suc, ◌+◌, ◌*◌, ◌%◌, ◌^◌, ◌<◌, ◌≤◌, ◌≡◌, ◌≢◌, ◌⊎◌, inl, inr, Bool, true, false, refl, sym,
  subst, ◌∙◌, ap, ◌==◌, ==-refl, Bool-cases, arith, if◌then◌else◌,
}
use flyos.Fat.Disk.{Sector, Volume, read_sector, put_sector, read16, put16, sector_at, address}
use flyos.Fat.Table.{fat_get, set_copies, fat_lba}
use flyos.Fat.Words.{
  read_sector_good, read_sector_bad, write_sector_good, write_sector_bad, read16-put16,
  read16-put16_other,
}

-- The word of the cluster `c` in the sector at the address `a`.
abbrev pub set_word : (a c x : ℕ) → Volume → Volume
set_word a c x v = record v {
  sectors = put_sector a (put16 (c * 2 % 512) x (v.sectors a)) v.sectors;
}

-- Writes of the word of `c` at addresses in `P`.
pub data Words (P : ℕ → Type 0) (c x : ℕ) : Volume → Volume → Type 0 where
  stay : {v : Volume} → Words P c x v v
  write : {v v' : Volume} (a : ℕ) → P a → Words P c x (set_word a c x v) v' → Words P c x v v'

abbrev pub fat_address : ℕ → Volume → ℕ
fat_address c v = address (fat_lba c v) v

pub fat_get_bad :
    (d : ℕ) (v : Volume) → v.read_fails (fat_address d v) ≡ true → fat_get d v ≡ 0xFFFF
unfolding fat_get read_sector
fat_get_bad d v e = rw (e, fat_get, read_sector) refl

pub fat_get_good :
    (d : ℕ) (v : Volume)
    → v.read_fails (fat_address d v) ≡ false
    → fat_get d v ≡ read16 (d * 2 % 512) (v.sectors (fat_address d v))
unfolding fat_get read_sector
fat_get_good d v e = rw (e, fat_get, read_sector) refl

pub ==_cases : (a b : ℕ) → (a ≡ b) ⊎ (a ≢ b)
==_cases a b = elim (Bool-cases (a == b)) [
  | inl e ↦ inl (ground arith)
  | inr e ↦ inr (ground arith)
]

pub put_sector-at : (a : ℕ) (b : Sector) (s : ℕ → Sector) → put_sector a b s a ≡ b
put_sector-at a b s = rw (==-refl a) refl

pub put_sector_other : (a y : ℕ) (b : Sector) (s : ℕ → Sector) → a ≢ y → put_sector a b s y ≡ s y
put_sector_other a y b s ne = let e : (a == y) ≡ false = ground arith in rw e refl

word_kept_far :
    (a x o p y : ℕ) (s : ℕ → Sector)
    → a ≢ y
    → read16 p (put_sector a (put16 o x (s a)) s y) ≡ read16 p (s y)
word_kept_far a x o p y s ne = ap (read16 p) (put_sector_other a y (put16 o x (s a)) s ne)

word_kept :
    (a c x d y : ℕ) (s : ℕ → Sector)
    → (a ≢ y) ⊎ (c * 2 % 512 ≢ d * 2 % 512)
    → read16 (d * 2 % 512) (put_sector a (put16 (c * 2 % 512) x (s a)) s y)
      ≡ read16 (d * 2 % 512) (s y)
word_kept a c x d y s (inl ne) = word_kept_far a x (c * 2 % 512) (d * 2 % 512) y s ne
word_kept a c x d y s (inr ne) = elim (==_cases a y) [
  | inl e ↦
      subst
        (λ z.
          read16 (d * 2 % 512) (put_sector a (put16 (c * 2 % 512) x (s a)) s z)
          ≡ read16 (d * 2 % 512) (s z))
        e
        (ap (read16 (d * 2 % 512)) (put_sector-at a (put16 (c * 2 % 512) x (s a)) s)
          ∙ read16-put16_other c d x (s a) ne)
  | inr apart ↦ word_kept_far a x (c * 2 % 512) (d * 2 % 512) y s apart
]

-- A word at another address or offset is kept.
pub fat_get-set_word_other :
    (a c x d : ℕ) (v : Volume)
    → (a ≢ fat_address d v) ⊎ (c * 2 % 512 ≢ d * 2 % 512)
    → fat_get d (set_word a c x v) ≡ fat_get d v
fat_get-set_word_other a c x d v apart = elim (Bool-cases (v.read_fails (fat_address d v))) [
  | inl bad ↦ fat_get_bad d (set_word a c x v) bad ∙ sym (fat_get_bad d v bad)
  | inr good ↦
      fat_get_good d (set_word a c x v) good
      ∙ word_kept a c x d (fat_address d v) v.sectors apart
      ∙ sym (fat_get_good d v good)
]

-- The word at the address and offset is the one written.
pub fat_get-set_word :
    (c x d : ℕ) (v : Volume)
    → x < 2 ^ 16
    → c * 2 % 512 ≡ d * 2 % 512
    → v.read_fails (fat_address d v) ≡ false
    → fat_get d (set_word (fat_address d v) c x v) ≡ x
fat_get-set_word c x d v lt same good =
    fat_get_good d (set_word (fat_address d v) c x v) good
    ∙ ap (read16 (d * 2 % 512)) (
        put_sector-at (fat_address d v) (put16 (c * 2 % 512) x (sector_at (fat_lba d v) v))
          v.sectors)
    ∙ ap (λ o. read16 (d * 2 % 512) (put16 o x (sector_at (fat_lba d v) v))) same
    ∙ read16-put16 (d * 2 % 512) x (sector_at (fat_lba d v) v) lt

fat_get-set_zero :
    (a c d : ℕ) (v : Volume)
    → (fat_get d (set_word a c 0 v) ≡ fat_get d v) ⊎ (fat_get d (set_word a c 0 v) ≡ 0)
fat_get-set_zero a c d v = elim (==_cases a (fat_address d v)) [
  | inr ne ↦ inl (fat_get-set_word_other a c 0 d v (inl ne))
  | inl at ↦ elim (==_cases (c * 2 % 512) (d * 2 % 512)) [
    | inr ne ↦ inl (fat_get-set_word_other a c 0 d v (inr ne))
    | inl same ↦ elim (Bool-cases (v.read_fails (fat_address d v))) [
      | inl bad ↦ inl (fat_get_bad d (set_word a c 0 v) bad ∙ sym (fat_get_bad d v bad))
      | inr good ↦ inr (
          subst (λ y. fat_get d (set_word y c 0 v) ≡ 0) (sym at)
            (fat_get-set_word c 0 d v (omega arith) same good))
    ]
  ]
]

-- The address of the copy `f` of the entry of `c`.
abbrev pub copy_address : (c f : ℕ) → Volume → ℕ
copy_address c f v = address (fat_lba c v + f * v.fat_size) v

pub copy_address_first : (c : ℕ) (v : Volume) → copy_address c 0 v ≡ fat_address c v
copy_address_first c v =
    let e : fat_lba c v + 0 * v.fat_size ≡ fat_lba c v = omega arith in ap (λ l. address l v) e

-- The addresses of the copies `f` to `f` + `n` - 1.
abbrev pub Copies : (c f n : ℕ) → Volume → ℕ → Type 0
Copies c f n v a = (g : ℕ) × (f ≤ g) × (g < f + n) × (a ≡ copy_address c g v)

Words-weaken :
    (P Q : ℕ → Type 0) (c x : ℕ) {v v' : Volume}
    → ((a : ℕ) → P a → Q a)
    → Words P c x v v'
    → Words Q c x v v'
Words-weaken P Q c x f stay = stay
Words-weaken P Q c x f (write a p w) = write a (f a p) (Words-weaken P Q c x f w)

pub set_copies_bad :
    (n f c x : ℕ) (v : Volume)
    → v.read_fails (copy_address c f v) ≡ true
    → set_copies (suc n) f c x v ≡ (false, v)
unfolding set_copies
set_copies_bad n f c x v e =
    rw (read_sector_bad (fat_lba c v + f * v.fat_size) v e, set_copies) refl

pub set_copies_unwritten :
    (n f c x : ℕ) (v : Volume)
    → v.read_fails (copy_address c f v) ≡ false
    → v.write_fails (copy_address c f v) ≡ true
    → set_copies (suc n) f c x v
      ≡ (false, if v.arrives (copy_address c f v) then set_word (copy_address c f v) c x v else v)
unfolding set_copies
set_copies_unwritten n f c x v e fails =
    let l : ℕ = fat_lba c v + f * v.fat_size in
    let b : Sector = put16 (c * 2 % 512) x (sector_at l v) in
    rw (read_sector_good l v e, write_sector_bad l b v fails, set_copies)
      (ap (λ (r : Bool × Volume). (false, r.1)) (write_sector_bad l b v fails))

pub set_copies_good :
    (n f c x : ℕ) (v : Volume)
    → v.read_fails (copy_address c f v) ≡ false
    → v.write_fails (copy_address c f v) ≡ false
    → set_copies (suc n) f c x v ≡ set_copies n (f + 1) c x (set_word (copy_address c f v) c x v)
unfolding set_copies
set_copies_good n f c x v e works =
    let l : ℕ = fat_lba c v + f * v.fat_size in
    let b : Sector = put16 (c * 2 % 512) x (sector_at l v) in
    rw (read_sector_good l v e, write_sector_good l b v works, set_copies)
      (ap (λ (r : Bool × Volume). set_copies n (f + 1) c x r.1) (write_sector_good l b v works))

-- The loop writes words of the cluster in the copies it has to go over.
pub set_copies-Words :
    (n f c x : ℕ) (v : Volume) → Words (Copies c f n v) c x v (set_copies n f c x v).1
unfolding set_copies
set_copies-Words zero f c x v = stay
set_copies-Words (suc n) f c x v = elim (Bool-cases (v.read_fails (copy_address c f v))) [
  | inl bad ↦ rw (set_copies_bad n f c x v bad) stay
  | inr good ↦ elim (Bool-cases (v.write_fails (copy_address c f v))) [
    | inl fails ↦
        rw (set_copies_unwritten n f c x v good fails)
          (elim (Bool-cases (v.arrives (copy_address c f v))) [
            | inl e ↦ rw e (write (copy_address c f v) (f, omega arith, omega arith, refl) stay)
            | inr e ↦ rw e stay
          ])
    | inr works ↦ rw (set_copies_good n f c x v good works) (
        write (copy_address c f v) (f, omega arith, omega arith, refl)
          (Words-weaken (Copies c (f + 1) n v) (Copies c f (suc n) v) c x
            (λ a (g, lo, hi, e). (g, omega arith, omega arith, e))
            (set_copies-Words n (f + 1) c x (set_word (copy_address c f v) c x v))))
  ]
]

-- Writes keep the volume's fields.
pub Words-fields :
    (P : ℕ → Type 0) (c x : ℕ) {v v' : Volume}
    → Words P c x v v'
    → v' ≡ record v { sectors = v'.sectors }
Words-fields P c x stay = refl
Words-fields P c x (write a p w) = Words-fields P c x w

-- Writes of a zero word leave an entry as it was or make it zero.
pub Words-zero :
    (P : ℕ → Type 0) (c d : ℕ) {v v' : Volume}
    → Words P c 0 v v'
    → (fat_get d v' ≡ fat_get d v) ⊎ (fat_get d v' ≡ 0)
Words-zero P c d stay = inl refl
Words-zero P c d (write {v} {v'} a p w) = elim (fat_get-set_zero a c d v) [
  | inl same ↦ elim (Words-zero P c d w) [ inl e ↦ inl (e ∙ same) | inr z ↦ inr z ]
  | inr zeroed ↦ elim (Words-zero P c d w) [ inl e ↦ inr (e ∙ zeroed) | inr z ↦ inr z ]
]

-- An entry whose word none of the writes hits is kept.
pub Words_other :
    (P : ℕ → Type 0) (c x d : ℕ) {v v' : Volume}
    → ((a : ℕ) → P a → (a ≢ fat_address d v) ⊎ (c * 2 % 512 ≢ d * 2 % 512))
    → Words P c x v v'
    → fat_get d v' ≡ fat_get d v
Words_other P c x d apart stay = refl
Words_other P c x d apart (write {v} {v'} a p w) =
    Words_other P c x d apart w ∙ fat_get-set_word_other a c x d v (apart a p)
