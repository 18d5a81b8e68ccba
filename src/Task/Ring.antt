-- ===== src/Task/Ring.antt =====
-- The tasks stand on a ring; `schedule` hands the processor to the next ready one.
use flyos.Base.{
  ℕ, zero, suc, ◌<◌, ◌≡◌, refl, ◌≢◌, true, false, List, [], ◌∷◌, some, ◌==◌, if◌then◌else◌, arith,
  length, Bool-cases, inl, inr, ◌⊎◌, ◌∙◌, ap,
}
use flyos.Task.Defs.{
  ready, running, is_ready, is_running, Tasks, Sched, find_ready, switch_to, schedule,
}

-- From `p` the `next` pointers lead through `ts` to `q`.
abbrev pub Links : Tasks → ℕ → List ℕ → ℕ → Type 0
Links m p [] q = (m p).next ≡ q
Links m p (t ∷ ts) q = ((m p).next ≡ t) × (t ≢ q) × Links m t ts q

-- The first ready task of the list, or else `q`.
unfoldable pub first_ready : Tasks → List ℕ → ℕ → ℕ
first_ready m [] q = q
first_ready m (t ∷ ts) q = if is_ready (m t).state then t else first_ready m ts q

find_ready-first_ready :
    (m : Tasks) (ts : List ℕ) (fuel p q : ℕ)
    → length ts < fuel
    → Links m p ts q
    → find_ready fuel m p q ≡ some (first_ready m ts q)
unfolding find_ready first_ready
find_ready-first_ready m ts zero p q f l = absurd (omega arith)
find_ready-first_ready m [] (suc fuel) p q f l = ground arith
find_ready-first_ready m (t ∷ ts) (suc fuel) p q f l =
    ground (arith, find_ready-first_ready m ts fuel t q)

-- The tasks `ts` follow the current one on the ring, and no other task runs.
pub record IsRing (s : Sched) (ts : List ℕ) : Type 0 where
  pub there : s.current ≢ 0
  pub links : Links s.tasks s.current ts s.current
  pub few : length ts < s.next_id
  pub alone : (t : ℕ) → t ≢ s.current → is_running (s.tasks t).state ≡ false

schedule-switch :
    (s : Sched) (ts : List ℕ)
    → IsRing s ts
    → let n = first_ready s.tasks ts s.current in
      schedule s ≡ some (if n == s.current then s else switch_to s n)
unfolding schedule
schedule-switch s ts r =
    let e : (s.current == 0) ≡ false = ground (arith, r.there) in
    rw (e, find_ready-first_ready s.tasks ts s.next_id s.current s.current r.few r.links)

-- What holds after `schedule`: `n` has the processor, alone, and its registers are loaded.
pub record Scheduled (s : Sched) (n : ℕ) (t : Sched) : Type 0 where
  pub current : t.current ≡ n
  pub runs : (t.tasks n).state ≡ running
  pub alone : (p : ℕ) → p ≢ n → is_running (t.tasks p).state ≡ false
  pub requeued : (s.tasks s.current).state ≡ running → (t.tasks s.current).state ≡ ready
  pub waiting :
      (s.tasks s.current).state ≢ running → (t.tasks s.current).state ≡ (s.tasks s.current).state
  pub others : (p : ℕ) → p ≢ n → p ≢ s.current → t.tasks p ≡ s.tasks p
  pub next_same : (p : ℕ) → (t.tasks p).next ≡ (s.tasks p).next
  pub wq_same : (p : ℕ) → (t.tasks p).wq_next ≡ (s.tasks p).wq_next
  pub saved : (t.tasks s.current).saved_user_rsp ≡ s.saved_user_rsp
  pub loaded : t.saved_user_rsp ≡ (s.tasks n).saved_user_rsp

switch_to-Scheduled :
    (s : Sched) (n : ℕ)
    → ((t : ℕ) → t ≢ s.current → is_running (s.tasks t).state ≡ false)
    → n ≢ s.current
    → Scheduled s n (switch_to s n)
unfolding switch_to
switch_to-Scheduled s n alone ne = record {
  current = refl;
  runs = ground arith;
  alone = λ p np. ground (arith, alone p);
  requeued = λ r. ground arith;
  waiting = λ r. ground arith;
  others = λ p np nc. ground arith;
  next_same = λ p. ground arith;
  wq_same = λ p. ground arith;
  saved = ground arith;
  loaded = ground arith;
}

pub Links-same :
    (m m' : Tasks) (ts : List ℕ) (p q : ℕ)
    → ((t : ℕ) → (m' t).next ≡ (m t).next)
    → Links m p ts q
    → Links m' p ts q
Links-same m m' [] p q e l = e p ∙ l
Links-same m m' (t ∷ ts) p q e (l0, l1, l2) = (e p ∙ l0, l1, Links-same m m' ts t q e l2)

-- The invariant of the ring does not read the fields that a wait queue writes.
pub IsRing-same :
    {s : Sched} {ts : List ℕ} (m' : Tasks)
    → ((t : ℕ) → (m' t).next ≡ (s.tasks t).next)
    → ((t : ℕ) → t ≢ s.current → (m' t).state ≡ (s.tasks t).state)
    → IsRing s ts
    → IsRing (record s { tasks = m' }) ts
IsRing-same {s} {ts} m' e f r = record {
  there = r.there;
  links = Links-same s.tasks m' ts s.current s.current e r.links;
  few = r.few;
  alone = λ t ne. ap is_running (f t ne) ∙ r.alone t ne;
}

pub first_ready-ready :
    (m : Tasks) (ts : List ℕ) (q : ℕ)
    → (first_ready m ts q ≡ q) ⊎ (is_ready (m (first_ready m ts q)).state ≡ true)
unfolding first_ready
first_ready-ready m [] q = inl refl
first_ready-ready m (t ∷ ts) q = ground (arith, first_ready-ready m ts q)

-- With the tasks on a ring `schedule` returns: with nothing done when the first ready task after the
-- current one is the current one again, and else with that task running.
pub schedule_lem :
    (s : Sched) (ts : List ℕ)
    → IsRing s ts
    → let n = first_ready s.tasks ts s.current in
      (s' : Sched) × (schedule s ≡ some s')
      × (((n ≡ s.current) × (s' ≡ s)) ⊎ ((n ≢ s.current) × Scheduled s n s'))
schedule_lem s ts r =
    let n = first_ready s.tasks ts s.current in
    elim (Bool-cases (n == s.current)) [
      | inl e ↦ (s, schedule-switch s ts r ∙ ground (arith, e), inl (ground (arith, e), refl))
      | inr e ↦ (
        switch_to s n,
        schedule-switch s ts r ∙ ground (arith, e),
        inr (ground (arith, e), switch_to-Scheduled s n r.alone (ground (arith, e))),
      )
    ]
