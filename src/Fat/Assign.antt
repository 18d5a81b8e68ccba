-- ===== src/Fat/Assign.antt =====
-- `fat_set` of kernel/fs/fat16.c as a write of one entry of the table, on a sound volume.
use flyos.Base.{
  ℕ, zero, suc, ◌+◌, ◌-◌, ◌*◌, ◌≤◌, ◌<◌, ◌%◌, ◌^◌, ◌≡◌, ◌≢◌, ◌⊎◌, inl, inr, true, false, refl, sym,
  subst, ◌∙◌, ◌==◌, if◌then◌else◌, arith,
}
use flyos.Fat.Disk.{Volume}
use flyos.Fat.Table.{fat_get, fat_set, set_copies}
use flyos.Fat.Entries.{
  Words_other, set_word, fat_address, copy_address, copy_address_first, ==_cases, fat_get-set_word,
  fat_get-set_word_other, set_copies_good, set_copies-Words, Copies, Words-fields,
}

-- No sector fails, there is a copy of the table, and the copies do not run past the last sector number.
pub record IsSound (v : Volume) : Type 0 where
  pub healthy : (a : ℕ) → v.read_fails a ≡ false
  pub writable : (a : ℕ) → v.write_fails a ≡ false
  pub copies : 1 ≤ v.num_fats
  pub fits : v.part_lba + v.fat_start_lba + v.num_fats * v.fat_size ≤ 2 ^ 32

-- The clusters that have an entry.
abbrev pub InTable : ℕ → Volume → Type 0
InTable c v = c < v.fat_size * 256

once : (n z : ℕ) → 1 ≤ n → z ≤ n * z
once n z one = grind arith

later : (g n z : ℕ) → 1 ≤ g → g < n → (z ≤ g * z) × (g * z + z ≤ n * z)
later g n z one lt = grind arith

-- The later copies of an entry are elsewhere than the first copy of any entry.
copy-apart :
    (c d g : ℕ) (v : Volume)
    → IsSound v
    → InTable c v
    → InTable d v
    → 1 ≤ g
    → g < v.num_fats
    → copy_address c g v ≢ fat_address d v
copy-apart c d g v s hc hd one lt =
    let bounds : (v.fat_size ≤ g * v.fat_size)
        × (g * v.fat_size + v.fat_size ≤ v.num_fats * v.fat_size) =
      later g v.num_fats v.fat_size one lt in
    let fits : v.part_lba + v.fat_start_lba + v.num_fats * v.fat_size ≤ 2 ^ 32 = s.fits in
    omega (arith, bounds.0, bounds.1)

word_apart :
    (c d : ℕ) (v : Volume)
    → IsSound v
    → InTable c v
    → InTable d v
    → c ≢ d
    → (fat_address c v ≢ fat_address d v) ⊎ (c * 2 % 512 ≢ d * 2 % 512)
word_apart c d v s hc hd ne = elim (==_cases (c * 2 % 512) (d * 2 % 512)) [
  | inr apart ↦ inr apart
  | inl same ↦
      let room : v.fat_size ≤ v.num_fats * v.fat_size = once v.num_fats v.fat_size s.copies in
      let fits : v.part_lba + v.fat_start_lba + v.num_fats * v.fat_size ≤ 2 ^ 32 = s.fits in
      inl (omega (arith, room))
]

first_copy :
    (c x d : ℕ) (v : Volume)
    → IsSound v
    → x < 2 ^ 16
    → InTable c v
    → InTable d v
    → fat_get d (set_word (fat_address c v) c x v) ≡ (if c == d then x else fat_get d v)
first_copy c x d v s lt hc hd = elim (==_cases c d) [
  | inl e ↦
      let eq : (c == d) ≡ true = ground arith in
      rw eq (
        subst (λ k. fat_get k (set_word (fat_address c v) c x v) ≡ x) e
          (fat_get-set_word c x c v lt refl (s.healthy (fat_address c v))))
  | inr ne ↦
      let eq : (c == d) ≡ false = ground arith in
      rw eq (fat_get-set_word_other (fat_address c v) c x d v (word_apart c d v s hc hd ne))
]

set_copies-ok :
    (n f c x : ℕ) (v : Volume)
    → ((a : ℕ) → v.read_fails a ≡ false)
    → ((a : ℕ) → v.write_fails a ≡ false)
    → (set_copies n f c x v).0 ≡ true
unfolding set_copies
set_copies-ok zero f c x v h w = refl
set_copies-ok (suc n) f c x v h w =
    rw (set_copies_good n f c x v (h (copy_address c f v)) (w (copy_address c f v)))
      (set_copies-ok n (f + 1) c x (set_word (copy_address c f v) c x v) h w)

-- Past the first copy no entry changes.
set_copies-later :
    (n c x d : ℕ) (v : Volume)
    → IsSound v
    → InTable c v
    → InTable d v
    → n + 1 ≤ v.num_fats
    → fat_get d (set_copies n 1 c x v).1 ≡ fat_get d v
set_copies-later n c x d v s hc hd le =
    Words_other (Copies c 1 n v) c x d
      (λ a (g, lo, hi, e). inl (rw e (copy-apart c d g v s hc hd lo (omega arith))))
      (set_copies-Words n 1 c x v)

set_copies-entry :
    (n c x d : ℕ) (v : Volume)
    → IsSound v
    → x < 2 ^ 16
    → InTable c v
    → InTable d v
    → suc n ≤ v.num_fats
    → fat_get d (set_copies (suc n) 0 c x v).1 ≡ (if c == d then x else fat_get d v)
set_copies-entry n c x d v s lt hc hd le =
    let first : copy_address c 0 v ≡ fat_address c v = copy_address_first c v in
    let v' : Volume = set_word (copy_address c 0 v) c x v in
    let sound : IsSound v' = record {
      healthy = s.healthy;
      writable = s.writable;
      copies = s.copies;
      fits = s.fits;
    } in
    rw
      (set_copies_good n 0 c x v (s.healthy (copy_address c 0 v)) (s.writable (copy_address c 0 v)))
      (set_copies-later n c x d v' sound hc hd (omega arith)
        ∙ subst (λ a. fat_get d (set_word a c x v) ≡ (if c == d then x else fat_get d v))
            (sym first) (first_copy c x d v s lt hc hd))

-- On a sound volume fat_set succeeds, the entry of the cluster has the value and every other entry is as before.
pub fat_set_lem :
    (c x d : ℕ) (v : Volume)
    → IsSound v
    → x < 2 ^ 16
    → InTable c v
    → InTable d v
    → ((fat_set c x v).0 ≡ true)
      × (fat_get d (fat_set c x v).1 ≡ (if c == d then x else fat_get d v))
unfolding fat_set
fat_set_lem c x d v s lt hc hd =
    let back : suc (v.num_fats - 1) ≡ v.num_fats =
      (let h : 1 ≤ v.num_fats = s.copies in omega arith) in
    (
      set_copies-ok v.num_fats 0 c x v s.healthy s.writable,
      subst (λ n. fat_get d (set_copies n 0 c x v).1 ≡ (if c == d then x else fat_get d v)) back
          (set_copies-entry (v.num_fats - 1) c x d v s lt hc hd (omega arith)),
    )

pub fat_set-fields :
    (c x : ℕ) (v : Volume) → (fat_set c x v).1 ≡ record v { sectors = (fat_set c x v).1.sectors }
unfolding fat_set
fat_set-fields c x v =
    Words-fields (Copies c 0 v.num_fats v) c x (set_copies-Words v.num_fats 0 c x v)

-- Writing an entry keeps the volume sound, and the same clusters have entries.
pub fat_set-IsSound : (c x : ℕ) (v : Volume) → IsSound v → IsSound (fat_set c x v).1
fat_set-IsSound c x v s =
    subst IsSound (sym (fat_set-fields c x v))
      (record { healthy = s.healthy; writable = s.writable; copies = s.copies; fits = s.fits })

pub fat_set-InTable : (c x d : ℕ) (v : Volume) → InTable d v → InTable d (fat_set c x v).1
fat_set-InTable c x d v h = subst (InTable d) (sym (fat_set-fields c x v)) h
