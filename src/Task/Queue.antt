-- ===== src/Task/Queue.antt =====
-- The wait queues of kernel/task/task.c: a queue is the list of the tasks that its `wq_next` chain
-- goes through.
use flyos.Base.{ℕ, ◌≡◌, refl, ◌≢◌, List, [], ◌∷◌, ◌++◌, ◌∙◌, sym, subst}
use flyos.Task.Defs.{Tasks, WaitQueue}

abbrev pub Fresh : ℕ → List ℕ → Type 0
Fresh c [] = Unit
Fresh c (t ∷ ts) = (c ≢ t) × Fresh c ts

-- The chain from `h` goes through the tasks `ts`, all different and none NULL.
abbrev pub Waits : Tasks → ℕ → List ℕ → Type 0
Waits m h [] = h ≡ 0
Waits m h (t ∷ ts) = (h ≡ t) × (t ≢ 0) × Fresh t ts × Waits m (m t).wq_next ts

abbrev pub last_or : ℕ → List ℕ → ℕ
last_or d [] = d
last_or d (t ∷ ts) = last_or t ts

pub record IsQueue (wq : WaitQueue) (m : Tasks) (ts : List ℕ) : Type 0 where
  pub waits : Waits m wq.head ts
  pub last : wq.tail ≡ last_or 0 ts

-- A chain that holds the same tasks, with the same links between them.
pub Waits-same :
    (m m' : Tasks) (ts : List ℕ) (h : ℕ)
    → ((t : ℕ) → (m' t).wq_next ≡ (m t).wq_next)
    → Waits m h ts
    → Waits m' h ts
Waits-same m m' [] h e w = w
Waits-same m m' (t ∷ ts) h e (w0, w1, w2, w3) =
    (w0, w1, w2, Waits-same m m' ts (m' t).wq_next e (subst (λ x. Waits m x ts) (sym (e t)) w3))

pub Waits-Fresh :
    (m m' : Tasks) (ts : List ℕ) (h c : ℕ)
    → ((t : ℕ) → t ≢ c → (m' t).wq_next ≡ (m t).wq_next)
    → Fresh c ts
    → Waits m h ts
    → Waits m' h ts
Waits-Fresh m m' [] h c e f w = w
Waits-Fresh m m' (t ∷ ts) h c e (f0, f) (w0, w1, w2, w3) = (
  w0,
  w1,
  w2,
  Waits-Fresh m m' ts (m' t).wq_next c e f
      (subst (λ x. Waits m x ts) (sym (e t (λ z. f0 (sym z)))) w3),
)

pub Fresh-last : (c d : ℕ) (ts : List ℕ) → c ≢ d → Fresh c ts → c ≢ last_or d ts
Fresh-last c d [] ne f = ne
Fresh-last c d (t ∷ ts) ne (f0, f) = Fresh-last c t ts f0 f

pub Fresh-append : (t c : ℕ) (ts : List ℕ) → t ≢ c → Fresh t ts → Fresh t (ts ++ c ∷ [])
Fresh-append t c [] ne f = (ne, tt)
Fresh-append t c (u ∷ ts) ne (f0, f) = (f0, Fresh-append t c ts ne f)

pub last_or-append : (d c : ℕ) (ts : List ℕ) → last_or d (ts ++ c ∷ []) ≡ c
last_or-append d c [] = refl
last_or-append d c (t ∷ ts) = last_or-append t c ts

pub last_or-nonzero :
    (t : ℕ) (ts : List ℕ) (m : Tasks) (h : ℕ) → t ≢ 0 → Waits m h ts → last_or t ts ≢ 0
last_or-nonzero t [] m h ne w = ne
last_or-nonzero t (u ∷ ts) m h ne (w0, w1, w2, w3) = last_or-nonzero u ts m (m u).wq_next w1 w3

-- A task is added behind the last of a chain, when the last links to it.
pub Waits-append :
    (m m' : Tasks) (ts : List ℕ) (t h c : ℕ)
    → c ≢ 0
    → c ≢ t
    → Fresh c ts
    → (m' c).wq_next ≡ 0
    → (m' (last_or t ts)).wq_next ≡ c
    → ((u : ℕ) → u ≢ last_or t ts → u ≢ c → (m' u).wq_next ≡ (m u).wq_next)
    → Waits m h (t ∷ ts)
    → Waits m' h (t ∷ ts ++ c ∷ [])
Waits-append m m' [] t h c nz ne f end link e (w0, w1, w2, w3) =
    (w0, w1, ((λ z. ne (sym z)), tt), (link, nz, tt, end))
Waits-append m m' (u ∷ ts) t h c nz ne (f0, f) end link e (w0, w1, (w2, w3), (w4, w5, w6, w7)) =
    let tl : t ≢ last_or u ts = Fresh-last t u ts w2 w3 in
    (
      w0,
      w1,
      (w2, Fresh-append t c ts (λ z. ne (sym z)) w3),
      Waits-append m m' ts u (m' t).wq_next c nz f0 f end link e
          (e t tl (λ z. ne (sym z)) ∙ w4, w5, w6, w7),
    )
