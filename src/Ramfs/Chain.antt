-- ===== src/Ramfs/Chain.antt =====
-- The list of a directory's children, as the `next` pointers chain it.
use flyos.Base.{
  ℕ, zero, suc, ◌<◌, ◌≡◌, refl, ◌≢◌, false, List, [], ◌∷◌, ◌==◌, arith, sym, some, if◌then◌else◌,
  Bool-cases, inl, inr, length,
}
use flyos.Heap.Spec.{Segs}
use flyos.Ramfs.Defs.{Node, node_size, str_eq, find_from}
use flyos.Ramfs.Memory.{IsLive}

abbrev pub NotIn : ℕ → List ℕ → Type 0
NotIn x [] = Unit
NotIn x (p ∷ ps) = (x ≢ p) × NotIn x ps

-- The node of a child of `d`.
pub record Entry (nodes : ℕ → Node) (bs : Segs) (d p : ℕ) : Type 0 where
  pub live : IsLive bs p node_size
  pub parent : (nodes p).parent ≡ d
  pub apart : d ≢ p

-- From `c` on, the chain has the nodes `ps`.
abbrev pub Entries : (ℕ → Node) → Segs → (d c : ℕ) → List ℕ → Type 0
Entries nodes bs d c [] = c ≡ 0
Entries nodes bs d c (p ∷ ps) =
    (c ≡ p) × Entry nodes bs d p × NotIn p ps × Entries nodes bs d (nodes p).next ps

-- The first node with the name, 0 if there is none.
abbrev pub first_named : (ℕ → Node) → List ℕ → List ℕ → ℕ
first_named nodes name [] = 0
first_named nodes name (p ∷ ps) =
    if str_eq (nodes p).name name then p else first_named nodes name ps

pub find_from-first_named :
    (nodes : ℕ → Node) (bs : Segs) (d c : ℕ) (name ps : List ℕ) (fuel : ℕ)
    → length ps < fuel
    → Entries nodes bs d c ps
    → find_from fuel c name nodes ≡ some (first_named nodes name ps)
unfolding find_from
find_from-first_named nodes bs d c name ps zero lt e = absurd (omega arith)
find_from-first_named nodes bs d c name [] (suc fuel) lt e = rw e refl
find_from-first_named nodes bs d c name (p ∷ ps) (suc fuel) lt (at, entry, new, e) =
    let nonzero : (p == 0) ≡ false = ground (arith, entry.live.address) in
    let rest = find_from-first_named nodes bs d (nodes p).next name ps fuel (omega arith) e in
    elim (Bool-cases (str_eq (nodes p).name name)) [
      | inl t ↦ rw at (rw (nonzero, t) refl)
      | inr t ↦ rw at (rw (nonzero, t) rest)
    ]

-- A change of the node `x` leaves a chain without `x` as it is.
pub Entries-nodes :
    (nodes nodes' : ℕ → Node) (bs : Segs) (d c x : ℕ) (ps : List ℕ)
    → ((p : ℕ) → x ≢ p → nodes' p ≡ nodes p)
    → NotIn x ps
    → Entries nodes bs d c ps
    → Entries nodes' bs d c ps
Entries-nodes nodes nodes' bs d c x [] same out e = e
Entries-nodes nodes nodes' bs d c x (p ∷ ps) same (ne, out) (at, entry, new, e) = (
  at,
  record { live = entry.live; parent = rw (same p ne) entry.parent; apart = entry.apart },
  new,
  rw (same p ne) (Entries-nodes nodes nodes' bs d (nodes p).next x ps same out e),
)

-- A call of the heap that keeps all blocks but the one at `y` keeps a chain without `y`.
pub Entries-live :
    (nodes : ℕ → Node) (bs bs' : Segs) (d c y : ℕ) (ps : List ℕ)
    → ((q k : ℕ) → IsLive bs q k → q ≢ y → IsLive bs' q k)
    → NotIn y ps
    → Entries nodes bs d c ps
    → Entries nodes bs' d c ps
Entries-live nodes bs bs' d c y [] keep out e = e
Entries-live nodes bs bs' d c y (p ∷ ps) keep (ne, out) (at, entry, new, e) = (
  at,
  record {
    live = keep p node_size entry.live (λ q. ne (sym q));
    parent = entry.parent;
    apart = entry.apart;
  },
  new,
  Entries-live nodes bs bs' d (nodes p).next y ps keep out e,
)

pub Entries-fresh :
    (nodes : ℕ → Node) (bs : Segs) (d c y : ℕ) (ps : List ℕ)
    → ((q k : ℕ) → IsLive bs q k → q ≢ y)
    → Entries nodes bs d c ps
    → NotIn y ps
Entries-fresh nodes bs d c y [] fresh e = tt
Entries-fresh nodes bs d c y (p ∷ ps) fresh (at, entry, new, e) = (
  λ q. fresh p node_size entry.live (sym q),
  Entries-fresh nodes bs d (nodes p).next y ps fresh e,
)

pub Entries-apart :
    (nodes : ℕ → Node) (bs : Segs) (d c : ℕ) (ps : List ℕ) → Entries nodes bs d c ps → NotIn d ps
Entries-apart nodes bs d c [] e = tt
Entries-apart nodes bs d c (p ∷ ps) (at, entry, new, e) =
    (entry.apart, Entries-apart nodes bs d (nodes p).next ps e)

pub first_named-nodes :
    (nodes nodes' : ℕ → Node) (x : ℕ) (name ps : List ℕ)
    → ((p : ℕ) → x ≢ p → nodes' p ≡ nodes p)
    → NotIn x ps
    → first_named nodes' name ps ≡ first_named nodes name ps
first_named-nodes nodes nodes' x name [] same out = refl
first_named-nodes nodes nodes' x name (p ∷ ps) same (ne, out) =
    rw (same p ne, first_named-nodes nodes nodes' x name ps same out) refl
