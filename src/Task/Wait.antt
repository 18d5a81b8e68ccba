-- ===== src/Task/Wait.antt =====
-- Blocking on a wait queue and waking from it: `task_block` and `wait_queue_wake_one`.
use flyos.Base.{
  ℕ, zero, suc, ◌<◌, ◌≡◌, refl, ◌≢◌, Bool, true, false, true≢false, List, [], ◌∷◌, ◌++◌, some, ◌==◌,
  if◌then◌else◌, arith, length, Bool-cases, inl, inr, ◌⊎◌, ◌∙◌, ap, sym, subst,
}
use flyos.Task.Defs.{
  Task, State, ready, running, blocked, dead, is_blocked, Tasks, Sched, WaitQueue, empty_queue,
  enqueue, block, wake_one, wake_all,
}
use flyos.Task.Ring.{Links, first_ready, IsRing, IsRing-same, Scheduled, schedule_lem}
use flyos.Task.Queue.{
  Fresh, Waits, last_or, IsQueue, Waits-same, Waits-Fresh, Waits-append, last_or-append,
  last_or-nonzero, Fresh-last,
}

-- The tasks after a task was put on a queue: it is blocked, and of the others only links changed.
pub record Enqueued (wq : WaitQueue) (s : Sched) (ts : List ℕ) (wq' : WaitQueue) (s' : Sched)
    : Type 0 where
  pub queue : IsQueue wq' s'.tasks (ts ++ s.current ∷ [])
  pub blocks : (s'.tasks s.current).state ≡ blocked
  pub others : (t : ℕ) → t ≢ s.current → (s'.tasks t).state ≡ (s.tasks t).state
  pub next_same : (t : ℕ) → (s'.tasks t).next ≡ (s.tasks t).next

pub enqueue-Enqueued :
    (wq : WaitQueue) (s : Sched) (ts : List ℕ)
    → s.current ≢ 0
    → Fresh s.current ts
    → IsQueue wq s.tasks ts
    → Enqueued wq s ts (enqueue wq s).0 (enqueue wq s).1
unfolding enqueue
enqueue-Enqueued wq s [] nz f q =
    let e : (wq.tail == 0) ≡ true = ground (arith, q.last) in
    record {
      queue = record {
        waits = (ground (arith, e), nz, tt, ground (arith, e));
        last = ground (arith, e);
      };
      blocks = ground (arith, e);
      others = λ t ne. ground (arith, e);
      next_same = λ t. ground (arith, e);
    }
enqueue-Enqueued wq s (t ∷ ts) nz (f0, f) q =
    let (w0, w1, w2, w3) = q.waits in
    let l : wq.tail ≡ last_or t ts = q.last in
    let nl : wq.tail ≢ 0 =
      λ z. last_or-nonzero t ts s.tasks (s.tasks t).wq_next w1 w3 (sym l ∙ z) in
    let e : (wq.tail == 0) ≡ false = ground (arith, nl) in
    let ne : s.current ≢ wq.tail = λ z. Fresh-last s.current t ts f0 f (z ∙ l) in
    let m' : Tasks = (enqueue wq s).1.tasks in
    let head : (enqueue wq s).0.head ≡ wq.head = ground (arith, e) in
    let at_last : (m' wq.tail).wq_next ≡ s.current = ground (arith, e) in
    record {
      queue = record {
        waits =
            Waits-append s.tasks m' ts t (enqueue wq s).0.head s.current nz f0 f
              (ground (arith, e, ne)) (subst (λ x. (m' x).wq_next ≡ s.current) l at_last)
              (λ u ul uc. ground (arith, e, l)) (head ∙ w0, w1, w2, w3);
        last = ground (arith, e) ∙ sym (last_or-append t s.current ts);
      };
      blocks = ground (arith, e, ne);
      others = λ t ne. ground (arith, e);
      next_same = λ t. ground (arith, e);
    }

-- The state that waking leaves a task in.
abbrev pub roused : State → State
roused blocked = ready
roused st = st

State-cases : (st : State) → (st ≡ State.blocked) ⊎ ((is_blocked st ≡ false) × (roused st ≡ st))
State-cases ready = inr (refl, refl)
State-cases running = inr (refl, refl)
State-cases blocked = inl refl
State-cases dead = inr (refl, refl)

-- What waking one task does to the tasks: `t` leaves the queue, ready when it was blocked.
pub record Woken (m : Tasks) (t : ℕ) (ts : List ℕ) (wq' : WaitQueue) (m' : Tasks) : Type 0 where
  pub queue : IsQueue wq' m' ts
  pub state : (m' t).state ≡ roused (m t).state
  pub whole : m' t ≡ record (m t) { state = roused (m t).state; wq_next = 0 }
  pub others : (u : ℕ) → u ≢ t → m' u ≡ m u
  pub next_same : (u : ℕ) → (m' u).next ≡ (m u).next

wake_one-last :
    (wq : WaitQueue) (m : Tasks) (t : ℕ) (ts : List ℕ)
    → IsQueue wq m (t ∷ ts)
    → (wake_one wq m).0.tail ≡ last_or 0 ts
unfolding wake_one
wake_one-last wq m t [] q = let (w0, w1, w2, w3) = q.waits in ground (arith, w0, w1, w3)
wake_one-last wq m t (u ∷ ts) q =
    let (w0, w1, w2, (w3, w4, w5, w6)) = q.waits in ground (arith, w0, w1, w3, w4, q.last)

wake_one-state :
    {ts : List ℕ} (wq : WaitQueue) (m : Tasks) (t : ℕ)
    → IsQueue wq m (t ∷ ts)
    → ((wake_one wq m).1 t).state ≡ roused (m t).state
unfolding wake_one
wake_one-state {ts} wq m t q =
    let (w0, w1, w2, w3) = q.waits in
    elim (State-cases (m t).state) [
      | inl e ↦ ground (arith, w0, w1, e)
      | inr e ↦ ground (arith, w0, w1, e.0, e.1)
    ]

wake_one-whole :
    {ts : List ℕ} (wq : WaitQueue) (m : Tasks) (t : ℕ)
    → IsQueue wq m (t ∷ ts)
    → (wake_one wq m).1 t ≡ record (m t) { state = roused (m t).state; wq_next = 0 }
unfolding wake_one
wake_one-whole {ts} wq m t q =
    let (w0, w1, w2, w3) = q.waits in
    elim (State-cases (m t).state) [
      | inl e ↦ ground (arith, w0, w1, e)
      | inr e ↦ ground (arith, w0, w1, e.0, e.1)
    ]

-- On a queue with a first task `wait_queue_wake_one` takes that one off.
pub wake_one-Woken :
    (wq : WaitQueue) (m : Tasks) (t : ℕ) (ts : List ℕ)
    → IsQueue wq m (t ∷ ts)
    → Woken m t ts (wake_one wq m).0 (wake_one wq m).1
unfolding wake_one
wake_one-Woken wq m t ts q =
    let (w0, w1, w2, w3) = q.waits in
    let e : (wq.head == 0) ≡ false = ground (arith, w0, w1) in
    let m' : Tasks = (wake_one wq m).1 in
    let head : (wake_one wq m).0.head ≡ (m t).wq_next = ground (arith, e, w0) in
    record {
      queue = record {
        waits =
            Waits-Fresh m m' ts (wake_one wq m).0.head t (λ u ne. ground (arith, e, w0)) w2
              (subst (λ x. Waits m x ts) (sym head) w3);
        last = wake_one-last wq m t ts q;
      };
      state = wake_one-state wq m t q;
      whole = wake_one-whole wq m t q;
      others = λ u ne. ground (arith, e, w0);
      next_same = λ u. ground (arith, e, w0);
    }

blocked≢running : State.blocked ≢ running
blocked≢running e = absurd (true≢false (ap is_blocked e))

first_ready_same :
    (m m' : Tasks) (p q : ℕ) (ts : List ℕ)
    → ((t : ℕ) → t ≢ q → (m' t).state ≡ (m t).state)
    → Links m p ts q
    → first_ready m' ts q ≡ first_ready m ts q
unfolding first_ready
first_ready_same m m' p q [] same l = refl
first_ready_same m m' p q (t ∷ ts) same (l0, ne, l) =
    rw (same t ne, first_ready_same m m' t q ts same l) refl

-- With the tasks on a ring and the current task on no queue, `task_block` returns. The task is then
-- last on the queue, and blocked. When no other task on the ring is ready it goes on, and nothing more has changed;
-- else the first one that is ready behind it runs, and `schedule` has switched to it.
pub block_lem :
    (wq : WaitQueue) (s : Sched) (ring ts : List ℕ)
    → IsRing s ring
    → Fresh s.current ts
    → IsQueue wq s.tasks ts
    → (wq' : WaitQueue) × (s' : Sched) × (block wq s ≡ some (wq', s'))
      × IsQueue wq' s'.tasks (ts ++ s.current ∷ [])
      × ((s'.tasks s.current).state ≡ blocked)
      × (let n = first_ready s.tasks ring s.current in
          ((n ≡ s.current) × (s' ≡ (enqueue wq s).1))
          ⊎ ((n ≢ s.current) × Scheduled (enqueue wq s).1 n s'))
unfolding block enqueue
block_lem wq s ring ts r f q =
    let there : (s.current == 0) ≡ false = ground (arith, r.there) in
    let en = enqueue-Enqueued wq s ts r.there f q in
    let (wq', s1) = enqueue wq s in
    let r1 : IsRing s1 ring = IsRing-same s1.tasks en.next_same en.others r in
    let (s', e, how) = schedule_lem s1 ring r1 in
    let first : first_ready s1.tasks ring s.current ≡ first_ready s.tasks ring s.current =
      first_ready_same s.tasks s1.tasks s.current s.current ring en.others r.links in
    let run : block wq s ≡ some (wq', s') = rw (there, e) in
    elim how [
      | inl (n, same) ↦ (
        wq',
        s',
        run,
        subst (λ x. IsQueue wq' x.tasks (ts ++ s.current ∷ [])) (sym same) en.queue,
        ap (λ x. (x.tasks s.current).state) same ∙ en.blocks,
        inl (sym first ∙ n, same),
      )
      | inr (n, sch) ↦ (
        wq',
        s',
        run,
        record {
          waits =
              Waits-same s1.tasks s'.tasks (ts ++ s.current ∷ []) wq'.head sch.wq_same
                en.queue.waits;
          last = en.queue.last;
        },
        sch.waiting (λ z. blocked≢running (sym en.blocks ∙ z)) ∙ en.blocks,
        inr ((λ z. n (first ∙ z)), subst (λ x. Scheduled s1 x s') first sch),
      )
    ]

abbrev pub not_in : ℕ → List ℕ → Bool
not_in t [] = true
not_in t (u ∷ us) = if t == u then false else not_in t us

Fresh-not_in : (t : ℕ) (ts : List ℕ) → Fresh t ts → not_in t ts ≡ true
Fresh-not_in t [] f = refl
Fresh-not_in t (u ∷ us) (f0, f) = ground (arith, f0, Fresh-not_in t us f)

IsQueue-empty : (wq : WaitQueue) (m : Tasks) → IsQueue wq m [] → wq ≡ empty_queue
IsQueue-empty wq m q = ground (arith, q.waits, q.last)

wake_all-step :
    (fuel : ℕ) (wq : WaitQueue) (m : Tasks)
    → wq.head ≢ 0
    → wake_all (suc fuel) wq m ≡ wake_all fuel (wake_one wq m).0 (wake_one wq m).1
unfolding wake_all
wake_all-step fuel wq m nz = let e : (wq.head == 0) ≡ false = ground (arith, nz) in rw e

-- A task that was on the queue, after it is taken off.
abbrev pub released : Task → Task
released x = record x { state = roused x.state; wq_next = 0 }

-- With more fuel than tasks on the queue `wait_queue_wake_all` empties it. Of each task that was on it only the link of
-- the queue is cleared, and its state is ready if it was blocked; the tasks that were not on it are as before in every
-- field.
pub wake_all_lem :
    (fuel : ℕ) (wq : WaitQueue) (m : Tasks) (ts : List ℕ)
    → length ts < fuel
    → IsQueue wq m ts
    → (m' : Tasks) × (wake_all fuel wq m ≡ some (empty_queue, m'))
      × ((t : ℕ) → m' t ≡ (if not_in t ts then m t else released (m t)))
unfolding wake_all
wake_all_lem zero wq m ts lt q = absurd (omega arith)
wake_all_lem (suc fuel) wq m [] lt q = (
  m,
  (let e : (wq.head == 0) ≡ true = ground (arith, q.waits) in rw (e, IsQueue-empty wq m q)),
  λ t. refl,
)
wake_all_lem (suc fuel) wq m (t ∷ ts) lt q =
    let w = wake_one-Woken wq m t ts q in
    let (m', e, st) =
      wake_all_lem fuel (wake_one wq m).0 (wake_one wq m).1 ts (omega arith) w.queue in
    let (w0, w1, w2, w3) = q.waits in
    let run = wake_all-step fuel wq m (λ z. w1 (sym w0 ∙ z)) in
    let fresh = Fresh-not_in t ts w2 in
    (
      m',
      run ∙ e,
      λ u. elim (Bool-cases (u == t)) [
        | inl y ↦
            let at : t ≡ u = ground arith in
            let here : m' t ≡ released (m t) = st t ∙ rw fresh w.whole in
            let same : (t == t) ≡ true = ground arith in
            subst (λ k. m' k ≡ (if not_in k (t ∷ ts) then m k else released (m k))) at
              (rw same here)
        | inr n ↦
            let other : (wake_one wq m).1 u ≡ m u = w.others u (ground (arith, n)) in
            rw n (st u ∙ ap (λ x. if not_in u ts then x else released x) other)
      ],
    )
