-- ===== src/File/Slots.antt =====
-- The descriptors that `file_open` and `dir_open` hand out and `file_close` takes back.
use flyos.Base.{
  ℕ, subst, zero, suc, ◌+◌, ◌≤◌, ◌<◌, ◌≡◌, refl, ◌≢◌, Bool, true, false, List, ◌==◌, ltb, leb,
  arith, ◌∙◌, sym, ap, some, Bool-cases, inl, inr, ◌⊎◌,
}
use flyos.Ramfs.Defs.{is_dir}
use flyos.Ramfs.Path.{lookup}
use flyos.Ramfs.Data.{minus_one}
use flyos.File.Defs.{
  Slot, Files, max_fd, empty_slot, put_slot, first_free, take_slot, file_open, dir_open, file_close,
}

first_free_lem :
    (n i : ℕ) (table : ℕ → Slot)
    → (i ≤ first_free n i table)
      × (first_free n i table ≤ i + n)
      × ((k : ℕ) → i ≤ k → k < first_free n i table → (table k).used ≡ true)
      × (first_free n i table < i + n → (table (first_free n i table)).used ≡ false)
unfolding first_free
first_free_lem zero i table =
    (omega arith, omega arith, λ k lo hi. absurd (omega arith), λ lt. absurd (omega arith))
first_free_lem (suc n) i table = elim (Bool-cases (table i).used) [
  | inl t ↦
      let (lo, hi, below, free) = first_free_lem n (i + 1) table in
      rw t (
        omega arith,
        omega arith,
        λ k a b. elim (Bool-cases (i == k)) [
          | inl e ↦ let same : i ≡ k = ground arith in subst (λ x. (table x).used ≡ true) same t
          | inr e ↦ below k (ground arith) b
        ],
        λ lt. free (omega arith),
      )
  | inr t ↦ rw t (omega arith, omega arith, λ k a b. absurd (omega arith), λ lt. t)
]

-- `fd` is the lowest descriptor from 3 on that was closed, and is now open at the start of the node `n`.
-- Nothing else has changed, and closing `fd` gives back the descriptors as they were.
pub record Opened (n : ℕ) (is_dir : Bool) (s : Files) (fd : ℕ) (s' : Files) : Type 0 where
  pub low : 3 ≤ fd
  pub high : fd < max_fd
  pub closed : (s.table fd).used ≡ false
  pub lowest : (k : ℕ) → 3 ≤ k → k < fd → (s.table k).used ≡ true
  pub opened : s'.table fd ≡ record { used = true; node = n; pos = 0; is_dir = is_dir }
  pub others : (g : ℕ) → g ≢ fd → s'.table g ≡ s.table g
  pub fs : s'.fs ≡ s.fs
  pub closes : (file_close fd s').0 ≡ 0
  pub restored : (s.table fd ≡ empty_slot) → (g : ℕ) → (file_close fd s').1.table g ≡ s.table g

-- All descriptors are in use.
abbrev pub IsFull : Files → Type 0
IsFull s = (k : ℕ) → 3 ≤ k → k < max_fd → (s.table k).used ≡ true

abbrev pub Taken : (n : ℕ) → Bool → Files → (fd : ℕ) → Files → Type 0
Taken n d s fd s' = (IsFull s × (fd ≡ minus_one) × (s' ≡ s)) ⊎ Opened n d s fd s'

module _ (n fd : ℕ) (d : Bool) (s : Files) (lo : 3 ≤ fd) (hi : fd < max_fd) where
  abbrev opened_at : Files
  opened_at = record s {
    table = put_slot s.table fd (record { used = true; node = n; pos = 0; is_dir = d });
  }

  close-opened :
      file_close fd opened_at
      ≡ (0, record opened_at { table = put_slot opened_at.table fd empty_slot })
  unfolding file_close
  close-opened =
      let a : ltb fd 3 ≡ false = ground arith in
      let b : leb max_fd fd ≡ false = ground arith in
      let same : (fd == fd) ≡ true = ground arith in rw (a, b) (rw same refl)

  opened_at-Opened :
      (s.table fd).used ≡ false
      → ((k : ℕ) → 3 ≤ k → k < fd → (s.table k).used ≡ true)
      → Opened n d s fd opened_at
  opened_at-Opened free below =
      let same : (fd == fd) ≡ true = ground arith in
      record {
        low = lo;
        high = hi;
        closed = free;
        lowest = below;
        opened = rw same refl;
        others = λ g ne. let e : (fd == g) ≡ false = ground arith in rw e refl;
        fs = refl;
        closes = ap (λ r. r.0) close-opened;
        restored = λ empty g. rw close-opened (elim (Bool-cases (fd == g)) [
          | inl t ↦ let e : fd ≡ g = ground arith in rw t (sym empty ∙ ap s.table e)
          | inr t ↦ rw t refl
        ]);
      }

take_slot-Taken :
    (n : ℕ) (d : Bool) (s : Files) → Taken n d s (take_slot n d s).0 (take_slot n d s).1
unfolding take_slot
take_slot-Taken n d s =
    let (lo, hi, below, free) = first_free_lem 61 3 s.table in
    elim (Bool-cases (first_free 61 3 s.table == max_fd)) [
      | inl t ↦ rw t (inl (λ k a b. below k a (ground arith), refl, refl))
      | inr t ↦ rw t (
          inr (
            opened_at-Opened n (first_free 61 3 s.table) d s lo (ground arith) (free (ground arith))
              below))
    ]

-- `file_open` of a path that names a file always returns: -1 with no change where all descriptors are in use,
-- and else the lowest closed one, now open at the start of the file, which `file_close` closes again.
pub file_open-Taken :
    (name : List ℕ) (n : ℕ) (s : Files)
    → lookup name s.fs ≡ some n
    → n ≢ 0
    → is_dir (s.fs.nodes n).type ≡ false
    → (fd : ℕ) × (s' : Files) × (file_open name s ≡ some (fd, s')) × Taken n false s fd s'
unfolding file_open
file_open-Taken name n s found ne file =
    let nonzero : (n == 0) ≡ false = ground arith in
    (
      (take_slot n false s).0,
      (take_slot n false s).1,
      rw found (rw nonzero (rw (nonzero, file) refl)),
      take_slot-Taken n false s,
    )

-- The same for `dir_open` of a path that names a directory; another path gives -1 with no change.
pub dir_open-Taken :
    (name : List ℕ) (n : ℕ) (s : Files)
    → lookup name s.fs ≡ some n
    → (fd : ℕ) × (s' : Files) × (dir_open name s ≡ some (fd, s'))
      × (((n ≡ 0) ⊎ (is_dir (s.fs.nodes n).type ≡ false)) × (fd ≡ minus_one) × (s' ≡ s)
          ⊎ Taken n true s fd s')
unfolding dir_open
dir_open-Taken name n s found = elim (Bool-cases (n == 0)) [
  | inl t ↦ (minus_one, s, rw found (rw t refl), inl (inl (ground arith), refl, refl))
  | inr t ↦ elim (Bool-cases (is_dir (s.fs.nodes n).type)) [
    | inl u ↦ (
      (take_slot n true s).0,
      (take_slot n true s).1,
      rw found (rw (t, u) (rw t refl)),
      inr (take_slot-Taken n true s),
    )
    | inr u ↦ (minus_one, s, rw found (rw (t, u) refl), inl (inr u, refl, refl))
  ]
]
