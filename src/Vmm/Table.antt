-- ===== src/Vmm/Table.antt =====
-- The tables that a walk goes through, and what `next_table` does to them.
use flyos.Base.{
  ℕ, ◌%◌, ◌^◌, ◌<◌, ◌≡◌, ◌≢◌, refl, Bool, true, false, ◌&&◌, List, [], ◌∷◌, arith, ◌∙◌, subst, sym,
  ap, true≢false,
}
use flyos.Pmm.Defs.{Pmm}
use flyos.Pmm.Valid.{IsValid}
use flyos.Vmm.Defs.{
  Frames, Vmm, write_entry, is_present, is_huge, or_user, addr_of, table_entry, zero_page,
}
use flyos.Vmm.Keeps.{in_use, Granted}

abbrev pub NotIn : ℕ → List ℕ → Type 0
NotIn t [] = Unit
NotIn t (u ∷ us) = (t ≢ u) × NotIn t us

-- The walk by the indices `is` from the table `t` on meets tables that are in use, each only once.
-- At a level marked `true` an entry for a huge page ends the walk.
abbrev pub Clean : Frames → Pmm → List ℕ → List (ℕ × Bool) → ℕ → Type 0
Clean f p seen [] t = (in_use p t ≡ true) × NotIn t seen
Clean f p seen ((i, stops) ∷ is) t =
    (in_use p t ≡ true)
    × NotIn t seen
    × (is_present (f t i) ≡ true
        → (stops && is_huge (f t i)) ≡ false
        → Clean f p (t ∷ seen) is (addr_of (f t i)))

pub Clean-in_use :
    (f : Frames) (p : Pmm) (seen : List ℕ) (is : List (ℕ × Bool)) (t : ℕ)
    → Clean f p seen is t
    → (in_use p t ≡ true) × NotIn t seen
Clean-in_use f p seen [] t (u, n) = (u, n)
Clean-in_use f p seen ((i, stops) ∷ is) t (u, n, c) = (u, n)

pub Clean-same :
    (f f' : Frames) (p p' : Pmm) (t : ℕ) (seen : List ℕ) (is : List (ℕ × Bool)) (u : ℕ)
    → ((v : ℕ) → in_use p v ≡ true → in_use p' v ≡ true)
    → ((v j : ℕ) → in_use p v ≡ true → NotIn v (t ∷ []) → f' v j ≡ f v j)
    → ((v : ℕ) → NotIn v seen → v ≢ t)
    → Clean f p seen is u
    → Clean f' p' seen is u
Clean-same f f' p p' t seen [] u used same apart (c0, c1) = (used u c0, c1)
Clean-same f f' p p' t seen ((i, stops) ∷ is) u used same apart (c0, c1, c2) =
    let e : f' u i ≡ f u i = same u i c0 (apart u c1, tt) in
    (
      used u c0,
      c1,
      λ pr st.
          subst (λ x. Clean f' p' (u ∷ seen) is (addr_of x)) (sym e)
            (Clean-same f f' p p' t (u ∷ seen) is (addr_of (f u i)) used same (λ v n. apart v (n.1))
              (c2 (ap is_present (sym e) ∙ pr) (ap (λ x. stops && is_huge x) (sym e) ∙ st))),
    )

pub addr_of-or_user : (e : ℕ) → addr_of (or_user e) ≡ addr_of e
addr_of-or_user e = ground arith

pub is_present-or_user : (e : ℕ) → is_present (or_user e) ≡ is_present e
is_present-or_user e = ground arith

pub is_huge-or_user : (e : ℕ) → is_huge (or_user e) ≡ is_huge e
is_huge-or_user e = ground arith

-- The step from the table `t` by the index `i` to the table `r`.
pub record Stepped (t i : ℕ) (seen : List ℕ) (is : List (ℕ × Bool)) (s : Vmm) (r : ℕ) (s' : Vmm)
    : Type 0 where
  pub valid : IsValid s'.pmm
  pub present : is_present (s'.frames t i) ≡ true
  pub plain : is_huge (s.frames t i) ≡ false → is_huge (s'.frames t i) ≡ false
  pub address : addr_of (s'.frames t i) ≡ r
  pub used : (v : ℕ) → in_use s.pmm v ≡ true → in_use s'.pmm v ≡ true
  pub same : (v j : ℕ) → in_use s.pmm v ≡ true → NotIn v (t ∷ []) → s'.frames v j ≡ s.frames v j
  pub cr3 : s'.cr3 ≡ s.cr3
  pub clean : Clean s'.frames s'.pmm (t ∷ seen) is r

abbrev pub AllUsed : Pmm → List ℕ → Type 0
AllUsed p [] = Unit
AllUsed p (u ∷ us) = (in_use p u ≡ true) × AllUsed p us

pub AllUsed-mono :
    (p p' : Pmm) (us : List ℕ)
    → ((v : ℕ) → in_use p v ≡ true → in_use p' v ≡ true)
    → AllUsed p us
    → AllUsed p' us
AllUsed-mono p p' [] m a = tt
AllUsed-mono p p' (u ∷ us) m (a, as_) = (m u a, AllUsed-mono p p' us m as_)

pub NotIn-fresh : (p : Pmm) (t : ℕ) (us : List ℕ) → in_use p t ≡ false → AllUsed p us → NotIn t us
NotIn-fresh p t [] f a = tt
NotIn-fresh p t (u ∷ us) f (a, as_) =
    ((λ e. true≢false (sym a ∙ ap (in_use p) (sym e) ∙ f)), NotIn-fresh p t us f as_)

-- A table of zeros has nothing below it.
pub Clean-zero :
    (f : Frames) (p : Pmm) (seen : List ℕ) (is : List (ℕ × Bool)) (t : ℕ)
    → in_use p t ≡ true
    → NotIn t seen
    → ((j : ℕ) → f t j ≡ 0)
    → Clean f p seen is t
Clean-zero f p seen [] t u n z = (u, n)
Clean-zero f p seen ((i, stops) ∷ is) t u n z =
    (u, n, λ pr st. absurd (true≢false (sym pr ∙ ap is_present (z i))))

pub addr_of-table_entry : (np : ℕ) → np % 4096 ≡ 0 → np < 2 ^ 52 → addr_of (table_entry np) ≡ np
addr_of-table_entry np a b = omega arith

pub is_present-table_entry : (np : ℕ) → np % 4096 ≡ 0 → is_present (table_entry np) ≡ true
is_present-table_entry np a = ground (arith, a)

pub is_huge-table_entry : (np : ℕ) → np % 4096 ≡ 0 → is_huge (table_entry np) ≡ false
is_huge-table_entry np a = ground (arith, a)

pub write_entry-at : (f : Frames) (t i e : ℕ) → write_entry f t i e t i ≡ e
write_entry-at f t i e = ground arith

pub write_entry-other : (f : Frames) (t i e v j : ℕ) → v ≢ t → write_entry f t i e v j ≡ f v j
write_entry-other f t i e v j ne = ground (arith, ne)

module _ (t i : ℕ) (stops : Bool) (seen : List ℕ) (is : List (ℕ × Bool)) (s : Vmm) where
  abbrev pub kept : Vmm
  kept = record s { frames = write_entry s.frames t i (or_user (s.frames t i)) }

  pub kept-Stepped :
      IsValid s.pmm
      → Clean s.frames s.pmm seen ((i, stops) ∷ is) t
      → is_present (s.frames t i) ≡ true
      → (stops && is_huge (s.frames t i)) ≡ false
      → Stepped t i seen is s (addr_of (s.frames t i)) kept
  kept-Stepped v (c0, c1, c2) pr st =
      let e = s.frames t i in
      let at_i : kept.frames t i ≡ or_user e = write_entry-at s.frames t i (or_user e) in
      record {
        valid = v;
        present = ap is_present at_i ∙ is_present-or_user e ∙ pr;
        plain = λ h. ap is_huge at_i ∙ is_huge-or_user e ∙ h;
        address = ap addr_of at_i ∙ addr_of-or_user e;
        used = λ v u. u;
        same = λ v j u n. write_entry-other s.frames t i (or_user e) v j n.0;
        cr3 = refl;
        clean =
            Clean-same s.frames kept.frames s.pmm s.pmm t (t ∷ seen) is (addr_of e) (λ v u. u)
              (λ v j u n. write_entry-other s.frames t i (or_user e) v j n.0) (λ v n. n.0)
              (c2 pr st);
      }

  abbrev pub grown : ℕ → Pmm → Vmm
  grown np p' = record s {
    frames = write_entry (zero_page s.frames np) t i (table_entry np);
    pmm = p';
  }

  -- The new frames need only hold zeros in the new page, and the rest as it was.
  pub grown-Stepped :
      {np : ℕ} {p' : Pmm} (s' : Vmm)
      → Clean s.frames s.pmm seen ((i, stops) ∷ is) t
      → AllUsed s.pmm seen
      → Granted s.pmm np p'
      → np ≢ 0
      → np < 2 ^ 52
      → s'.pmm ≡ p'
      → s'.cr3 ≡ s.cr3
      → s'.frames t i ≡ table_entry np
      → ((v j : ℕ) → v ≢ np → v ≢ t → s'.frames v j ≡ s.frames v j)
      → Clean s'.frames p' (t ∷ seen) is np
      → Stepped t i seen is s np s'
  grown-Stepped {np} {p'} s' (c0, c1, c2) au g nz small ep ec at_i others clean = record {
    valid = subst IsValid (sym ep) g.valid;
    present = ap is_present at_i ∙ is_present-table_entry np g.aligned;
    plain = λ h. ap is_huge at_i ∙ is_huge-table_entry np g.aligned;
    address = ap addr_of at_i ∙ addr_of-table_entry np g.aligned small;
    used = λ v u. subst (λ q. in_use q v ≡ true) (sym ep) (g.used v u);
    same = λ v j u n. others v j (λ e. true≢false (sym u ∙ ap (in_use s.pmm) e ∙ g.fresh nz)) n.0;
    cr3 = ec;
    clean = subst (λ q. Clean s'.frames q (t ∷ seen) is np) (sym ep) clean;
  }
