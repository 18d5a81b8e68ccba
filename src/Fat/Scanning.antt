-- ===== src/Fat/Scanning.antt =====
-- The loops of kernel/fs/fat16.c over the root directory: an entry written to the first free place is the one
-- that a later search finds.
use flyos.Base.{
  ℕ, zero, suc, ◌+◌, ◌*◌, ◌≤◌, ◌<◌, ◌≡◌, ◌≢◌, ◌⊎◌, inl, inr, List, [], ◌∷◌, length, get_or, true,
  false, refl, sym, subst, ◌∙◌, ap, ◌==◌, ◌||◌, if◌then◌else◌, arith,
}
use flyos.Fat.Disk.{Sector}
use flyos.Fat.Names.{bytes_at, equal}
use flyos.Fat.Root.{
  Verdict, skip, stop, accept, Look, passed, ended, found_at, look, find_test, free_test,
  put_dirent,
}
use flyos.Fat.Dirents.{AreBytes, put_dirent_other, put_dirent-name, put_dirent-attr, bytes_at_same}

-- Eleven bytes that mark neither the end nor a deleted entry.
pub record IsName (want : List ℕ) : Type 0 where
  pub eleven : length want ≡ 11
  pub small : AreBytes want
  pub not_end : get_or want 0 0 ≢ 0
  pub not_deleted : get_or want 0 0 ≢ 0xE5

pub Verdict-cases : (t : Verdict) → (t ≡ skip) ⊎ ((t ≡ stop) ⊎ (t ≡ accept))
Verdict-cases skip = inl refl
Verdict-cases stop = inr (inl refl)
Verdict-cases accept = inr (inr refl)

module _ (test : ℕ → Sector → Verdict) (n k : ℕ) (b : Sector) where
  pub look-skip : test (k * 32) b ≡ skip → look test (suc n) k b ≡ look test n (k + 1) b
  unfolding look
  look-skip e = rw (e, look) refl

  look_stop : test (k * 32) b ≡ stop → look test (suc n) k b ≡ ended
  unfolding look
  look_stop e = rw (e, look) refl

  pub look_accept : test (k * 32) b ≡ accept → look test (suc n) k b ≡ found_at k
  unfolding look
  look_accept e = rw (e, look) refl

equal_refl : (xs : List ℕ) → equal xs xs ≡ true
unfolding equal
equal_refl [] = refl
equal_refl (x ∷ xs) = let e : (x == x) ≡ true = ground arith in rw (e, equal_refl xs) refl

find_test_same :
    (want : List ℕ) (off : ℕ) (b c : Sector)
    → ((j : ℕ) → off ≤ j → j < off + 32 → b j ≡ c j)
    → find_test want off b ≡ find_test want off c
unfolding find_test
find_test_same want off b c same =
    rw (same off (omega arith) (omega arith), same (off + 11) (omega arith) (omega arith))
      (ap
        (λ name.
          if c off == 0
          then stop
          else if (c off == 0xE5) || (c (off + 11) == 0x0F)
          then skip
          else if equal name want
          then accept
          else skip)
        (bytes_at_same 11 off b c (λ j ge lt. same j ge (omega arith))))

-- An entry that is not free is no end mark.
find_test_used :
    (want : List ℕ) (off : ℕ) (b : Sector) → free_test off b ≡ skip → find_test want off b ≢ stop
unfolding free_test find_test
find_test_used want off b used = ground arith

pub free_test-cases : (off : ℕ) (b : Sector) → (free_test off b ≡ skip) ⊎ (free_test off b ≡ accept)
unfolding free_test
free_test-cases off b = ground arith

find_test_match :
    (want : List ℕ) (off : ℕ) (c : Sector)
    → (c off == 0) ≡ false
    → (c off == 0xE5) ≡ false
    → c (off + 11) ≡ 0x20
    → bytes_at 11 off c ≡ want
    → find_test want off c ≡ accept
unfolding find_test
find_test_match want off c not_end not_deleted attr written =
    let matches : equal (bytes_at 11 off c) want ≡ true =
      subst (λ l. equal (bytes_at 11 off c) l ≡ true) written (equal_refl (bytes_at 11 off c)) in
    rw (not_end, not_deleted, attr, matches) refl

find_test-new :
    (want : List ℕ) (cluster size off : ℕ) (b : Sector)
    → IsName want
    → find_test want off (put_dirent want cluster size off b) ≡ accept
find_test-new want cluster size off b name =
    let c : Sector = put_dirent want cluster size off b in
    let written : bytes_at 11 off c ≡ want =
      put_dirent-name want cluster size off b name.eleven name.small in
    let attr : c (off + 11) ≡ 0x20 = put_dirent-attr want cluster size off b name.eleven in
    let head : c off ≡ get_or want 0 0 = ap (λ l. get_or l 0 0) written in
    let not_end : (c off == 0) ≡ false =
      (let h : get_or want 0 0 ≢ 0 = name.not_end in ground arith) in
    let not_deleted : (c off == 0xE5) ≡ false =
      (let h : get_or want 0 0 ≢ 0xE5 = name.not_deleted in ground arith) in
    find_test_match want off c not_end not_deleted attr written

found_index : Look → ℕ
found_index passed = 0
found_index ended = 0
found_index (found_at k) = k + 1

pub found≢passed : (k : ℕ) → found_at k ≢ passed
unfolding found_index
found≢passed k e = let n : k + 1 ≡ 0 = ap found_index e in omega arith

found_at_inj : (i k : ℕ) → found_at i ≡ found_at k → i ≡ k
unfolding found_index
found_at_inj i k e = let n : i + 1 ≡ k + 1 = ap found_index e in omega arith

abbrev pub Misses : (want : List ℕ) (n i : ℕ) → Sector → Type 0
Misses want n i b = (j : ℕ) → look (find_test want) n i b ≢ found_at j

-- Where the entry in front is in use and nothing matches, the search goes past it.
find_test_past :
    (want : List ℕ) (n i : ℕ) (b : Sector)
    → free_test (i * 32) b ≡ skip
    → Misses want (suc n) i b
    → find_test want (i * 32) b ≡ skip
find_test_past want n i b used miss = elim (Verdict-cases (find_test want (i * 32) b)) [
  | inl e ↦ e
  | inr (inl e) ↦ absurd (find_test_used want (i * 32) b used e)
  | inr (inr e) ↦ absurd (miss i (look_accept (find_test want) n i b e))
]

Misses-tail :
    (want : List ℕ) (n i : ℕ) (b : Sector)
    → find_test want (i * 32) b ≡ skip
    → Misses want (suc n) i b
    → Misses want n (i + 1) b
Misses-tail want n i b e miss j found = miss j (look-skip (find_test want) n i b e ∙ found)

-- No free entry, and no match: the search passes the sector.
pub look_passed :
    (want : List ℕ) (n i : ℕ) (b : Sector)
    → look free_test n i b ≡ passed
    → Misses want n i b
    → look (find_test want) n i b ≡ passed
unfolding look
look_passed want zero i b e miss = refl
look_passed want (suc n) i b e miss = elim (free_test-cases (i * 32) b) [
  | inr free ↦ absurd (found≢passed i (sym (look_accept free_test n i b free) ∙ e))
  | inl used ↦
      let past : find_test want (i * 32) b ≡ skip = find_test_past want n i b used miss in
      look-skip (find_test want) n i b past
      ∙ look_passed want n (i + 1) b (sym (look-skip free_test n i b used) ∙ e)
          (Misses-tail want n i b past miss)
]

pub look_le : (n i k : ℕ) (b : Sector) → look free_test n i b ≡ found_at k → i ≤ k
unfolding look
look_le zero i k b e = absurd (found≢passed k (sym e))
look_le (suc n) i k b e = elim (free_test-cases (i * 32) b) [
  | inr free ↦
      (let at : i ≡ k = found_at_inj i k (sym (look_accept free_test n i b free) ∙ e) in
        omega arith)
  | inl used ↦
      let le : i + 1 ≤ k = look_le n (i + 1) k b (sym (look-skip free_test n i b used) ∙ e) in
      omega arith
]

-- The first free entry `k` is written: the search finds it.
pub look-new :
    (want : List ℕ) (cluster size n i k : ℕ) (b : Sector)
    → IsName want
    → look free_test n i b ≡ found_at k
    → Misses want n i b
    → look (find_test want) n i (put_dirent want cluster size (k * 32) b) ≡ found_at k
unfolding look
look-new want cluster size zero i k b name e miss = absurd (found≢passed k (sym e))
look-new want cluster size (suc n) i k b name e miss = elim (free_test-cases (i * 32) b) [
  | inr free ↦
      let at : i ≡ k = found_at_inj i k (sym (look_accept free_test n i b free) ∙ e) in
      subst
        (λ m.
          look (find_test want) (suc n) i (put_dirent want cluster size (m * 32) b) ≡ found_at m)
        at
        (look_accept (find_test want) n i (put_dirent want cluster size (i * 32) b)
          (find_test-new want cluster size (i * 32) b name))
  | inl used ↦
      let tail : look free_test n (i + 1) b ≡ found_at k =
        sym (look-skip free_test n i b used) ∙ e in
      let past : find_test want (i * 32) b ≡ skip = find_test_past want n i b used miss in
      let le : i + 1 ≤ k = look_le n (i + 1) k b tail in
      let c : Sector = put_dirent want cluster size (k * 32) b in
      let kept : find_test want (i * 32) c ≡ skip =
        find_test_same want (i * 32) c b (λ j ge lt.
          put_dirent_other want cluster size (k * 32) j b name.eleven (inl (omega arith)))
        ∙ past in
      look-skip (find_test want) n i c kept
      ∙ look-new want cluster size n (i + 1) k b name tail (Misses-tail want n i b past miss)
]
