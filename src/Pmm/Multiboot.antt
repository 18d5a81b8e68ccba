-- ===== src/Pmm/Multiboot.antt =====
-- The multiboot2 information block, as kernel/mm/pmm.c reads it: both loops of `pmm_init` walk the
-- tags, and the entries of the memory map tags, in the same way. Memory is its byte at each address.
use flyos.Base.{
  ℕ, zero, suc, ◌+◌, ◌-◌, ◌*◌, ◌/◌, ◌%◌, ◌^◌, ◌≤◌, ◌<◌, ◌≡◌, refl, ◌≢◌, Option, none, some, ltb,
  ◌==◌, if◌then◌else◌, arith, inl, inr, ◌⊎◌, sym, subst, ◌∙◌,
}
use native.Mathlib.Decide.{ℕ_discrete}
use mathlib.Core.Option.{some-injective}

abbrev pub Memory : Type 0
Memory = ℕ → ℕ

abbrev pub read32 : Memory → ℕ → ℕ
read32 m a = m a + 2 ^ 8 * m (a + 1) + 2 ^ 16 * m (a + 2) + 2 ^ 24 * m (a + 3)

abbrev pub read64 : Memory → ℕ → ℕ
read64 m a = read32 m a + 2 ^ 32 * read32 m (a + 4)

-- `struct mb_mmap_entry`, less its padding
pub record Entry : Type 0 where
  pub addr : ℕ
  pub len : ℕ
  pub type : ℕ

abbrev pub read_entry : Memory → ℕ → Entry
read_entry m e = record { addr = read64 m e; len = read64 m (e + 8); type = read32 m (e + 16) }

-- `(tag->size + 7) & ~7U`, in 32 bits
abbrev pub tag_stride : ℕ → ℕ
tag_stride size = (size + 7) % 2 ^ 32 / 8 * 8

-- `(mm->size - 16) / mm->entry_size`, in 32 bits
abbrev pub entry_count : Memory → ℕ → ℕ
entry_count m p = (read32 m (p + 4) + 2 ^ 32 - 16) % 2 ^ 32 / read32 m (p + 8)

module _ {S : Type 0} (m : Memory) (step : Entry → S → S) where
  -- `n` entries from `e` on
  unfoldable pub walk_entries : ℕ → ℕ → ℕ → S → S
  walk_entries zero e entry_size s = s
  walk_entries (suc n) e entry_size s =
      walk_entries n (e + entry_size) entry_size (step (read_entry m e) s)

  -- The tags from `p` to `end`. `none`: the fuel ran out, or the division by `entry_size` faults.
  unfoldable pub walk_tags : ℕ → ℕ → ℕ → S → Option S
  unfolding walk_entries
  walk_tags zero p end s = none
  walk_tags (suc fuel) p end s =
      let next = p + tag_stride (read32 m (p + 4)) in
      let skip = walk_tags fuel next end s in
      let visit =
        walk_tags fuel next end (walk_entries (entry_count m p) (p + 16) (read32 m (p + 8)) s) in
      if ltb p end
      then if read32 m p == 0
        then some s
        else if read32 m p == 6
        then if read32 m (p + 8) == 0 then none else visit
        else skip
      else some s

-- The block is well formed from `p` on: each tag before the last has a size that moves the walk on,
-- and memory maps have entries of a non-zero size.
pub data IsTags (m : Memory) (end : ℕ) : ℕ → Type 0 where
  past : {p : ℕ} → end ≤ p → IsTags m end p
  last : {p : ℕ} → read32 m p ≡ 0 → IsTags m end p
  tag :
      {p : ℕ}
      → 0 < tag_stride (read32 m (p + 4))
      → (read32 m p ≡ 6 → read32 m (p + 8) ≢ 0)
      → IsTags m end (p + tag_stride (read32 m (p + 4)))
      → IsTags m end p

-- An entry that the walk from `p` reads.
pub data Listed (m : Memory) (end : ℕ) (ent : Entry) : ℕ → Type 0 where
  here :
      {p : ℕ} (i : ℕ)
      → p < end
      → read32 m p ≡ 6
      → i < entry_count m p
      → ent ≡ read_entry m (p + 16 + i * read32 m (p + 8))
      → Listed m end ent p
  later :
      {p : ℕ}
      → p < end
      → read32 m p ≢ 0
      → Listed m end ent (p + tag_stride (read32 m (p + 4)))
      → Listed m end ent p

-- What a round of the walk meets: the end, a tag to skip, or a memory map.
tag_cases :
    (m : Memory) (p end : ℕ)
    → ((end ≤ p) ⊎ (read32 m p ≡ 0))
      ⊎ ((p < end) × ((read32 m p ≡ 6) ⊎ ((read32 m p ≢ 0) × (read32 m p ≢ 6))))
tag_cases m p end = omega arith

module _ {S : Type 0} (m : Memory) (step : Entry → S → S) where
  -- One round of the walk, at a tag that is not the last.
  walk_tags-skip :
      (fuel p end : ℕ) (s : S)
      → p < end
      → read32 m p ≢ 0
      → read32 m p ≢ 6
      → walk_tags m step (suc fuel) p end s
        ≡ walk_tags m step fuel (p + tag_stride (read32 m (p + 4))) end s
  unfolding walk_tags
  walk_tags-skip fuel p end s lt ne0 ne6 = ground arith

  walk_tags-visit :
      (fuel p end : ℕ) (s : S)
      → p < end
      → read32 m p ≡ 6
      → read32 m (p + 8) ≢ 0
      → walk_tags m step (suc fuel) p end s
        ≡ walk_tags m step fuel
            (p + tag_stride (read32 m (p + 4)))
            end
            (walk_entries m step (entry_count m p) (p + 16) (read32 m (p + 8)) s)
  unfolding walk_tags
  walk_tags-visit fuel p end s lt is6 ne = ground arith

  walk_tags-stop :
      (fuel p end : ℕ) (s : S)
      → (end ≤ p) ⊎ (read32 m p ≡ 0)
      → walk_tags m step (suc fuel) p end s ≡ some s
  unfolding walk_tags
  walk_tags-stop fuel p end s h = ground arith

  walk_tags-dry : (p end : ℕ) (s r : S) → walk_tags m step zero p end s ≢ some r
  unfolding walk_tags
  walk_tags-dry p end s r e = cc

  walk_tags-fault :
      (fuel p end : ℕ) (s : S)
      → p < end
      → read32 m p ≡ 6
      → read32 m (p + 8) ≡ 0
      → walk_tags m step (suc fuel) p end s ≡ none
  unfolding walk_tags
  walk_tags-fault fuel p end s lt is6 z = ground arith

  -- The walk of a well-formed block comes to an end within as many rounds as the block has bytes.
  pub walk_tags-some :
      {end : ℕ} (fuel : ℕ) {p : ℕ} (s : S)
      → IsTags m end p
      → 0 < fuel
      → end < p + fuel
      → (r : S) × (walk_tags m step fuel p end s ≡ some r)
  walk_tags-some zero s w pos lt = absurd (omega arith)
  walk_tags-some {end} (suc fuel) {p} s (past h) pos lt = (s, walk_tags-stop fuel p end s (inl h))
  walk_tags-some {end} (suc fuel) {p} s (last z) pos lt = (s, walk_tags-stop fuel p end s (inr z))
  walk_tags-some {end} (suc fuel) {p} s (tag moves div t) pos lt = elim (tag_cases m p end) [
    | inl h ↦ (s, walk_tags-stop fuel p end s h)
    | inr (h, inl e6) ↦ rw (walk_tags-visit fuel p end s h e6 (div e6)) (
        walk_tags-some fuel {p = p + tag_stride (read32 m (p + 4))}
          (walk_entries m step (entry_count m p) (p + 16) (read32 m (p + 8)) s) t (omega arith)
          (omega arith))
    | inr (h, inr (n0, n6)) ↦ rw (walk_tags-skip fuel p end s h n0 n6) (
        walk_tags-some fuel {p = p + tag_stride (read32 m (p + 4))} s t (omega arith) (omega arith))
  ]

none≢some : {S : Type 0} {r : S} → none ≢ some r
none≢some e = cc

-- A property that every listed entry keeps holds at the end of the walk.
module _ {S : Type 0} (m : Memory) (step : Entry → S → S) (P : S → Type 0) where
  walk_entries_inv :
      (n k base size : ℕ) (e : ℕ) (s : S)
      → e ≡ base + k * size
      → ((i : ℕ) (t : S) → i < k + n → P t → P (step (read_entry m (base + i * size)) t))
      → P s
      → P (walk_entries m step n e size s)
  unfolding walk_entries
  walk_entries_inv zero k base size e s eq keep h = h
  walk_entries_inv (suc n) k base size e s eq keep h =
      walk_entries_inv n (k + 1) base size (e + size) (step (read_entry m e) s) (grind arith)
        (λ i t lt. keep i t (omega arith))
        (subst (λ a. P (step (read_entry m a) s)) (sym eq) (keep k s (omega arith) h))

  pub walk_tags_inv :
      (end : ℕ) (fuel : ℕ) {p : ℕ} (s : S) {r : S}
      → ((ent : Entry) (t : S) → Listed m end ent p → P t → P (step ent t))
      → walk_tags m step fuel p end s ≡ some r
      → P s
      → P r
  walk_tags_inv end zero {p} s {r} keep e h = absurd (never e)
    where
      never : walk_tags m step zero p end s ≡ some r → ⊥
      never = walk_tags-dry m step p end s r
  walk_tags_inv end (suc fuel) {p} s {r} keep e h = elim (tag_cases m p end) [
    | inl stop ↦ subst P (some-injective s r (sym (walk_tags-stop m step fuel p end s stop) ∙ e)) h
    | inr (lt, inr (n0, n6)) ↦
        walk_tags_inv end fuel {p = p + tag_stride (read32 m (p + 4))} s
          (λ ent t l. keep ent t (later lt n0 l))
          (sym (walk_tags-skip m step fuel p end s lt n0 n6) ∙ e) h
    | inr (lt, inl e6) ↦ elim (ℕ_discrete (read32 m (p + 8)) 0) [
      | yes z ↦ absurd (none≢some (sym (walk_tags-fault m step fuel p end s lt e6 z) ∙ e))
      | no ne ↦
          walk_tags_inv end fuel {p = p + tag_stride (read32 m (p + 4))}
            (walk_entries m step (entry_count m p) (p + 16) (read32 m (p + 8)) s)
            (λ ent t l. keep ent t (later lt (λ z. absurd (omega arith)) l))
            (sym (walk_tags-visit m step fuel p end s lt e6 ne) ∙ e)
            (walk_entries_inv (entry_count m p) 0 (p + 16) (read32 m (p + 8)) (p + 16) s
              (omega arith) (λ i t b. keep _ t (here i lt e6 (omega arith) refl)) h)
    ]
  ]
