-- ===== src/Ramfs/Cut.antt =====
-- The removal of a node from the chain of children in `ramfs_unlink_node`.
use flyos.Base.{
  ℕ, subst, zero, suc, ◌<◌, ◌≡◌, refl, ◌≢◌, true, false, List, [], ◌∷◌, ◌==◌, arith, ◌∙◌, sym, some,
  Bool-cases, inl, inr, ◌⊎◌, length, remove,
}
use flyos.Heap.Spec.{Segs}
use flyos.Ramfs.Defs.{Node, put_node, find_link, cut}
use flyos.Ramfs.Chain.{first_named, Entry, Entries, NotIn, Entries-nodes, Entries-apart}

pub NotIn-remove : (x q : ℕ) (ps : List ℕ) → NotIn x ps → NotIn x (remove q ps)
NotIn-remove x q [] out = tt
NotIn-remove x q (p ∷ ps) (ne, out) = elim (Bool-cases (p == q)) [
  | inl t ↦ rw t out
  | inr t ↦ rw t (ne, NotIn-remove x q ps out)
]

pub NotIn-removed :
    (nodes : ℕ → Node) (bs : Segs) (d c q : ℕ) (ps : List ℕ)
    → Entries nodes bs d c ps
    → NotIn q (remove q ps)
NotIn-removed nodes bs d c q [] e = tt
NotIn-removed nodes bs d c q (p ∷ ps) (at, entry, new, e) = elim (Bool-cases (p == q)) [
  | inl t ↦ let same : p ≡ q = ground arith in rw t (subst (λ x. NotIn x ps) same new)
  | inr t ↦ rw t ((λ e. absurd (ground arith)), NotIn-removed nodes bs d (nodes p).next q ps e)
]

pub length-remove : (q : ℕ) (ps : List ℕ) → length (remove q ps) < suc (length ps)
length-remove q [] = omega arith
length-remove q (p ∷ ps) = elim (Bool-cases (p == q)) [
  | inl t ↦ rw t (omega arith)
  | inr t ↦ rw t (omega (arith, length-remove q ps))
]

-- The node `b` gets the successor of `q`.
abbrev skip : (nodes : ℕ → Node) (b q : ℕ) → ℕ → Node
skip nodes b q = put_node nodes b (record (nodes b) { next = (nodes q).next })

-- `q` is the first of the chain, or the chain without it is what `skip` of its predecessor `b` leaves.
pub record Link (nodes : ℕ → Node) (bs : Segs) (d c before q b : ℕ) (ps : List ℕ) : Type 0 where
  pub link :
      ((b ≡ before) × (c ≡ q) × Entries nodes bs d (nodes q).next (remove q ps))
      ⊎ (((x : ℕ) → NotIn x ps → x ≢ b) × (b ≢ 0) × Entries (skip nodes b q) bs d c (remove q ps))

skip-same : (nodes : ℕ → Node) (b q p : ℕ) → b ≢ p → skip nodes b q p ≡ nodes p
skip-same nodes b q p ne = let e : (b == p) ≡ false = ground arith in rw e refl

skip-entry :
    (nodes : ℕ → Node) (bs : Segs) (d b q p : ℕ)
    → Entry nodes bs d p
    → Entry (skip nodes b q) bs d p
skip-entry nodes bs d b q p entry = record {
  live = entry.live;
  parent = elim (Bool-cases (b == p)) [
    | inl t ↦ let e : b ≡ p = ground arith in rw t (rw e entry.parent)
    | inr t ↦ rw t entry.parent
  ];
  apart = entry.apart;
}

skip-next : (nodes : ℕ → Node) (b q : ℕ) → (skip nodes b q b).next ≡ (nodes q).next
skip-next nodes b q = let e : (b == b) ≡ true = ground arith in rw e refl

module _ (nodes : ℕ → Node) (bs : Segs) (d c before q b p : ℕ) (ps : List ℕ) (at : c ≡ p)
    (entry : Entry nodes bs d p) (new : NotIn p ps) (t : (p == q) ≡ false) where
  after_first :
      Entries nodes bs d (nodes q).next (remove q ps)
      → Entries (skip nodes p q) bs d c (remove q (p ∷ ps))
  after_first tail =
      let kept =
        Entries-nodes nodes (skip nodes p q) bs d (nodes q).next p (remove q ps)
          (λ x ne. skip-same nodes p q x ne) (NotIn-remove p q ps new) tail in
      rw t (
        at,
        skip-entry nodes bs d p q p entry,
        NotIn-remove p q ps new,
        rw (skip-next nodes p q) kept,
      )

  after_other :
      b ≢ p
      → Entries (skip nodes b q) bs d (nodes p).next (remove q ps)
      → Entries (skip nodes b q) bs d c (remove q (p ∷ ps))
  after_other ne tail = rw t (
    at,
    skip-entry nodes bs d b q p entry,
    NotIn-remove p q ps new,
    rw (skip-same nodes b q p ne) tail,
  )

  after_head : Link nodes bs d (nodes p).next p q b ps → Link nodes bs d c before q b (p ∷ ps)
  after_head l = elim l.link [
    | inl (eb, en, tail) ↦ record {
      link =
          inr
            (λ x out. rw eb out.0, omega (arith, eb, entry.live.address), rw eb (after_first tail));
    }
    | inr (inside, nb, tail) ↦ record {
      link = inr (λ x out. inside x out.1, nb, after_other (λ same. inside p new (sym same)) tail);
    }
  ]

pub find_link_lem :
    (nodes : ℕ → Node) (bs : Segs) (d c before q : ℕ) (ps : List ℕ) (fuel : ℕ)
    → length ps < fuel
    → Entries nodes bs d c ps
    → ¬ NotIn q ps
    → (b : ℕ) × (find_link fuel before c q nodes ≡ some (some b)) × Link nodes bs d c before q b ps
unfolding find_link
find_link_lem nodes bs d c before q ps zero lt e has = absurd (omega arith)
find_link_lem nodes bs d c before q [] (suc fuel) lt e has = absurd (has tt)
find_link_lem nodes bs d c before q (p ∷ ps) (suc fuel) lt (at, entry, new, e) has =
    let nonzero : (p == 0) ≡ false = ground (arith, entry.live.address) in
    elim (Bool-cases (p == q)) [
      | inl t ↦
          let same : p ≡ q = ground arith in
          (
            before,
            rw at (rw (nonzero, t) refl),
            record { link = inl (refl, at ∙ same, rw t (rw (sym same) e)) },
          )
      | inr t ↦
          let (b, found, l) =
            find_link_lem nodes bs d (nodes p).next p q ps fuel (omega arith) e
              (λ out. has ((λ e. absurd (ground arith)), out)) in
          (
            b,
            rw at (rw (nonzero, t) found),
            after_head nodes bs d c before q b p ps at entry new t l,
          )
    ]

pub entry_of :
    (nodes : ℕ → Node) (bs : Segs) (d c q : ℕ) (ps : List ℕ)
    → Entries nodes bs d c ps
    → ¬ NotIn q ps
    → Entry nodes bs d q
entry_of nodes bs d c q [] e has = absurd (has tt)
entry_of nodes bs d c q (p ∷ ps) (at, entry, new, e) has = elim (Bool-cases (p == q)) [
  | inl t ↦ let same : p ≡ q = ground arith in subst (Entry nodes bs d) same entry
  | inr t ↦ entry_of nodes bs d (nodes p).next q ps e (λ out. has (λ s. absurd (ground arith), out))
]

pub first_named-names :
    (nodes nodes' : ℕ → Node) (s ps : List ℕ)
    → ((p : ℕ) → (nodes' p).name ≡ (nodes p).name)
    → first_named nodes' s ps ≡ first_named nodes s ps
first_named-names nodes nodes' s [] same = refl
first_named-names nodes nodes' s (p ∷ ps) same =
    rw (same p, first_named-names nodes nodes' s ps same) refl

-- What `cut` leaves: the directory's chain without `q`, under the names as they were.
pub record Cut (nodes nodes' : ℕ → Node) (bs : Segs) (d q : ℕ) (ps : List ℕ) : Type 0 where
  pub dir : (nodes' d).type ≡ (nodes d).type
  pub entries : Entries nodes' bs d (nodes' d).children (remove q ps)
  pub names : (p : ℕ) → (nodes' p).name ≡ (nodes p).name
  pub others : (p : ℕ) → NotIn p ps → d ≢ p → nodes' p ≡ nodes p

module _ (nodes : ℕ → Node) (bs : Segs) (d q : ℕ) (ps : List ℕ)
    (e : Entries nodes bs d (nodes d).children ps) where
  cut-first :
      Entries nodes bs d (nodes q).next (remove q ps) → Cut nodes (cut d 0 q nodes) bs d q ps
  cut-first tail =
      let nodes' = put_node nodes d (record (nodes d) { children = (nodes q).next }) in
      let dd : (d == d) ≡ true = ground arith in
      let same : (p : ℕ) → d ≢ p → nodes' p ≡ nodes p =
        λ p ne. let f : (d == p) ≡ false = ground arith in rw f refl in
      let kept =
        Entries-nodes nodes nodes' bs d (nodes q).next d (remove q ps) same
          (NotIn-remove d q ps (Entries-apart nodes bs d (nodes d).children ps e)) tail in
      record {
        dir = rw dd refl;
        entries = rw dd kept;
        names = λ p. elim (Bool-cases (d == p)) [
          | inl t ↦ let same : d ≡ p = ground arith in rw t (rw same refl)
          | inr t ↦ rw t refl
        ];
        others = λ p out ne. same p ne;
      }

  cut-other :
      (b : ℕ)
      → ((x : ℕ) → NotIn x ps → x ≢ b)
      → b ≢ 0
      → Entries (skip nodes b q) bs d (nodes d).children (remove q ps)
      → Cut nodes (cut d b q nodes) bs d q ps
  cut-other b inside nb tail =
      let ne : b ≢ d = λ s. inside d (Entries-apart nodes bs d (nodes d).children ps e) (sym s) in
      let nonzero : (b == 0) ≡ false = ground arith in
      let there : cut d b q nodes ≡ skip nodes b q = rw nonzero refl in
      rw there (record {
        dir = rw (skip-same nodes b q d ne) refl;
        entries = rw (skip-same nodes b q d ne) tail;
        names = λ p. elim (Bool-cases (b == p)) [
          | inl t ↦ let same : b ≡ p = ground arith in rw t (rw same refl)
          | inr t ↦ rw t refl
        ];
        others = λ p out ne. skip-same nodes b q p (λ s. inside p out (sym s));
      })

  pub cut_lem :
      (b : ℕ) → Link nodes bs d (nodes d).children 0 q b ps → Cut nodes (cut d b q nodes) bs d q ps
  cut_lem b l = elim l.link [
    | inl (eb, en, tail) ↦ rw eb (cut-first tail)
    | inr (inside, nb, tail) ↦ cut-other b inside nb tail
  ]
