-- ===== src/Task/Kill.antt =====
-- `task_kill_all_children` of kernel/task/task.c, which marks every other task on the ring as dead.
use flyos.Base.{
  ℕ, subst, ap, zero, suc, ◌<◌, ◌≡◌, refl, ◌≢◌, Bool, true, false, ◌&&◌, ◌||◌, not, List, [], ◌∷◌,
  Option, none, some, ◌==◌, if◌then◌else◌, arith, length, Bool-cases, inl, inr, ◌∙◌, ◌>>=◌,
}
use flyos.Task.Defs.{dead, Task, Tasks, Sched, set_state}
use flyos.Task.Ring.{Links, Links-same, IsRing}

abbrev pub mark_dead : ℕ → Tasks → Tasks
mark_dead t m = if (m t).id == 0 then m else set_state m t dead

-- The loop from the task `t` on.
unfoldable pub kill_rest : (fuel current t : ℕ) → Tasks → Option Tasks
kill_rest zero current t m = none
kill_rest (suc fuel) current t m =
    let m' = mark_dead t m in
    let rest = kill_rest fuel current (m' t).next m' in
    if (t == 0) || (t == current) then some m else rest

-- One round for each task of the ring.
unfoldable pub kill_all_children : Sched → Option Sched
kill_all_children s =
    if s.current == 0
    then some s
    else kill_rest s.next_id s.current (s.tasks s.current).next s.tasks >>= λ m.
        some (record s { tasks = m })

abbrev marked : List ℕ → Tasks → Tasks
marked [] m = m
marked (t ∷ ts) m = marked ts (mark_dead t m)

abbrev pub AreTasks : List ℕ → Type 0
AreTasks [] = Unit
AreTasks (t ∷ ts) = (t ≢ 0) × AreTasks ts

abbrev pub has : ℕ → List ℕ → Bool
has p [] = false
has p (t ∷ ts) = (t == p) || has p ts

mark_dead-next : (t : ℕ) (m : Tasks) (p : ℕ) → (mark_dead t m p).next ≡ (m p).next
mark_dead-next t m p = ground arith

abbrev pub dead_if : Bool → Task → Task
dead_if b x = if b && not (x.id == 0) then record x { state = dead } else x

dead_if-twice : (a b : Bool) (x : Task) → dead_if b (dead_if a x) ≡ dead_if (a || b) x
dead_if-twice false b x = refl
dead_if-twice true false x = refl
dead_if-twice true true x = elim (Bool-cases (x.id == 0)) [
  | inl u ↦ rw u (rw u refl)
  | inr u ↦ rw u (rw u refl)
]

mark_dead_self : (t : ℕ) (m : Tasks) → mark_dead t m t ≡ dead_if true (m t)
mark_dead_self t m = elim (Bool-cases ((m t).id == 0)) [
  | inl u ↦ rw u refl
  | inr u ↦ let here : (t == t) ≡ true = ground arith in rw u (rw here refl)
]

mark_dead-other : (t : ℕ) (m : Tasks) (p : ℕ) → (t == p) ≡ false → mark_dead t m p ≡ m p
mark_dead-other t m p e = elim (Bool-cases ((m t).id == 0)) [
  | inl u ↦ rw u refl
  | inr u ↦ rw u (rw e refl)
]

mark_dead-at : (t : ℕ) (m : Tasks) (p : ℕ) → mark_dead t m p ≡ dead_if (t == p) (m p)
mark_dead-at t m p = elim (Bool-cases (t == p)) [
  | inl e ↦
      let same : t ≡ p = ground arith in
      rw e (subst (λ x. mark_dead t m x ≡ dead_if true (m x)) same (mark_dead_self t m))
  | inr e ↦ rw e (mark_dead-other t m p e)
]

marked-at : (ts : List ℕ) (m : Tasks) (p : ℕ) → marked ts m p ≡ dead_if (has p ts) (m p)
marked-at [] m p = refl
marked-at (t ∷ ts) m p =
    marked-at ts (mark_dead t m) p
    ∙ ap (dead_if (has p ts)) (mark_dead-at t m p)
    ∙ dead_if-twice (t == p) (has p ts) (m p)

kill_rest-marked :
    (ts : List ℕ) (fuel p q : ℕ) (m : Tasks)
    → length ts < fuel
    → AreTasks ts
    → Links m p ts q
    → kill_rest fuel q (m p).next m ≡ some (marked ts m)
unfolding kill_rest
kill_rest-marked ts zero p q m lt some_tasks l = absurd (omega arith)
kill_rest-marked [] (suc fuel) p q m lt some_tasks l =
    let e : (q == q) ≡ true = ground arith in
    elim (Bool-cases (q == 0)) [ inl u ↦ rw l (rw u refl) | inr u ↦ rw l (rw (u, e) refl) ]
kill_rest-marked (t ∷ ts) (suc fuel) p q m lt (ne, others) (at, nq, l) =
    let a : (t == 0) ≡ false = ground arith in
    let b : (t == q) ≡ false = ground arith in
    let m' = mark_dead t m in
    let l' = Links-same m m' ts t q (mark_dead-next t m) l in
    rw (at, a) (rw b (kill_rest-marked ts fuel t q m' (omega arith) others l'))

-- With the tasks on a ring `task_kill_all_children` returns. Exactly the tasks on the ring behind the current one
-- are dead, but for one with the id 0, nothing else about the tasks has changed, and the scheduler is as before.
pub kill_all_children_lem :
    (s : Sched) (ts : List ℕ)
    → IsRing s ts
    → AreTasks ts
    → (m : Tasks) × (kill_all_children s ≡ some (record s { tasks = m }))
      × ((p : ℕ) → m p ≡ dead_if (has p ts) (s.tasks p))
unfolding kill_all_children
kill_all_children_lem s ts r some_tasks =
    let e : (s.current == 0) ≡ false = ground (arith, r.there) in
    let killed =
      kill_rest-marked ts s.next_id s.current s.current s.tasks r.few some_tasks r.links in
    (marked ts s.tasks, rw e (rw killed refl), marked-at ts s.tasks)
