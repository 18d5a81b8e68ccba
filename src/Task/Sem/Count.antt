-- ===== src/Task/Sem/Count.antt =====
-- The count of a semaphore and its queue: a negative count is the number of tasks that wait.
use flyos.Base.{
  ℕ, ◌+◌, ◌-◌, ◌<◌, ◌≤◌, ◌%◌, ◌^◌, ◌≡◌, refl, true, false, ◌||◌, List, [], ◌∷◌, ◌++◌, some, leb,
  ◌==◌, arith, length, Bool-cases, inl, inr, ◌⊎◌, ◌∙◌, ap, sym, subst,
}
use flyos.Task.Defs.{blocked, Tasks, Sched, wake_one}
use flyos.Task.Ring.{IsRing}
use flyos.Task.Queue.{Fresh, IsQueue}
use flyos.Task.Wait.{Woken, block_lem, wake_one-Woken}
use flyos.Task.Sem.{Sem, Sems, sem_max, is_negative, is_out, put_sem, sem_init, sem_wait, sem_post}

-- The tasks `ts` wait for the semaphore: none while its count is not negative, else -count of them.
pub record IsSem (sem : Sem) (m : Tasks) (ts : List ℕ) : Type 0 where
  pub queue : IsQueue sem.wq m ts
  pub in_use : sem.used ≡ true
  pub waiting : 2 ^ 31 ≤ sem.count → sem.count + length ts ≡ 2 ^ 32
  pub idle : sem.count < 2 ^ 31 → ts ≡ []

-- After `sem_init` with a count that is not negative, nobody waits.
sem_init-IsSem :
    (id count : ℕ) (sems : Sems) (m : Tasks)
    → id < sem_max
    → count < 2 ^ 31
    → IsSem (sem_init id count sems id) m []
unfolding sem_init
sem_init-IsSem id count sems m lt small =
    let e : is_out id ≡ false = ground (arith, lt) in
    record {
      queue = record { waits = ground (arith, e); last = ground (arith, e) };
      in_use = ground (arith, e);
      waiting = λ h. ground (arith, e, small);
      idle = λ h. refl;
    }

length-append : (c : ℕ) (ts : List ℕ) → length (ts ++ c ∷ []) ≡ length ts + 1
length-append c [] = refl
length-append c (t ∷ ts) = ground (arith, length-append c ts)

put_sem-at : (sems : Sems) (id : ℕ) (x : Sem) → put_sem sems id x id ≡ x
put_sem-at sems id x = ground arith

pub is_out-small : (id : ℕ) → id < sem_max → is_out id ≡ false
is_out-small id lt = ground (arith, lt)

-- `sem_wait` on a positive count lowers it, and the caller goes on.
pub sem_wait-passes :
    (id : ℕ) (sems : Sems) (s : Sched) (ts : List ℕ)
    → id < sem_max
    → IsSem (sems id) s.tasks ts
    → 0 < (sems id).count
    → (sems id).count < 2 ^ 31
    → (sems' : Sems) × (sem_wait id sems s ≡ some (sems', s))
      × ((sems' id).count + 1 ≡ (sems id).count)
      × IsSem (sems' id) s.tasks []
unfolding sem_wait
sem_wait-passes id sems s ts lt q pos small =
    let e = is_out-small id lt in
    let c = ((sems id).count + (2 ^ 32 - 1)) % 2 ^ 32 in
    let ce : c + 1 ≡ (sems id).count = omega arith in
    let sem : Sem = record (sems id) { count = c } in
    let n : is_negative c ≡ false = ground (arith, ce, small) in
    let at_id = put_sem-at sems id sem in
    (
      put_sem sems id sem,
      rw (e, q.in_use, n),
      rw (at_id, ce),
      subst (λ x. IsSem x s.tasks []) (sym at_id)
          (record {
            queue = subst (λ x. IsQueue (sems id).wq s.tasks x) (q.idle small) q.queue;
            in_use = q.in_use;
            waiting = λ h. absurd (omega arith);
            idle = λ h. refl;
          }),
    )

waiting-one :
    {m : Tasks} {ts : List ℕ} (sem : Sem) (c : ℕ)
    → IsSem sem m ts
    → (sem.count ≡ 0) ⊎ ((2 ^ 31 < sem.count) × (sem.count < 2 ^ 32))
    → (sem.count + (2 ^ 32 - 1)) % 2 ^ 32 + length (ts ++ c ∷ []) ≡ 2 ^ 32
waiting-one {m} {ts} sem c q (inl z) =
    let l = ap length (q.idle (omega arith)) in ground (arith, z, l, length-append c ts)
waiting-one {m} {ts} sem c q (inr (lo, hi)) =
    ground (arith, lo, hi, q.waiting (omega arith), length-append c ts)

-- On another count the caller is put last on the queue, blocked, and counted.
pub sem_wait-blocks :
    (id : ℕ) (sems : Sems) (s : Sched) (ring ts : List ℕ)
    → id < sem_max
    → IsRing s ring
    → Fresh s.current ts
    → IsSem (sems id) s.tasks ts
    → ((sems id).count ≡ 0) ⊎ ((2 ^ 31 < (sems id).count) × ((sems id).count < 2 ^ 32))
    → (sems' : Sems) × (s' : Sched) × (sem_wait id sems s ≡ some (sems', s'))
      × IsSem (sems' id) s'.tasks (ts ++ s.current ∷ [])
      × ((s'.tasks s.current).state ≡ blocked)
unfolding sem_wait
sem_wait-blocks id sems s ring ts lt r f q low =
    let e = is_out-small id lt in
    let c = ((sems id).count + (2 ^ 32 - 1)) % 2 ^ 32 in
    let sem : Sem = record (sems id) { count = c } in
    let n : is_negative c ≡ true = ground (arith, low) in
    let (wq', s', run, q', b, how) = block_lem (sems id).wq s ring ts r f q.queue in
    let sem' : Sem = record sem { wq = wq' } in
    (
      put_sem sems id sem',
      s',
      rw (e, q.in_use, n, run),
      subst (λ x. IsSem x s'.tasks (ts ++ s.current ∷ [])) (sym (put_sem-at sems id sem'))
          (record {
            queue = q';
            in_use = q.in_use;
            waiting = λ h. waiting-one (sems id) s.current q low;
            idle = λ h. absurd (ground (arith, n, h));
          }),
      b,
    )

length-nil : (ts : List ℕ) → length ts ≡ 0 → ts ≡ []
length-nil [] e = refl
length-nil (t ∷ ts) e = absurd (omega arith)

IsSem-negative :
    {sem : Sem} {m : Tasks} {t : ℕ} {ts : List ℕ} → IsSem sem m (t ∷ ts) → 2 ^ 31 ≤ sem.count
IsSem-negative {sem} q = elim (Bool-cases (leb (2 ^ 31) sem.count)) [
  | inl y ↦ ground (arith, y)
  | inr n ↦
      let none_waits = q.idle (ground (arith, n)) in absurd (ground (arith, ap length none_waits))
]

-- `sem_post` on a semaphore that nobody waits for raises the count.
pub sem_post-raises :
    (id : ℕ) (sems : Sems) (m : Tasks)
    → id < sem_max
    → IsSem (sems id) m []
    → (sems id).count + 1 < 2 ^ 31
    → ((sem_post id sems m).1 ≡ m)
      × (((sem_post id sems m).0 id).count ≡ (sems id).count + 1)
      × IsSem ((sem_post id sems m).0 id) m []
unfolding sem_post
sem_post-raises id sems m lt q small =
    let e = is_out-small id lt in
    let c = ((sems id).count + 1) % 2 ^ 32 in
    let sem' : Sem = record (sems id) { count = c } in
    let n : (is_negative c || (c == 0)) ≡ false = ground (arith, small) in
    let run : sem_post id sems m ≡ (put_sem sems id sem', m) = rw (e, q.in_use, n) in
    let sem'-IsSem : IsSem sem' m [] = record {
      queue = q.queue;
      in_use = q.in_use;
      waiting = λ h. absurd (omega arith);
      idle = λ h. refl;
    } in
    let at_id : (sem_post id sems m).0 id ≡ sem' = ap (λ r. r.0 id) run ∙ put_sem-at sems id sem' in
    (
      ap (λ r. r.1) run,
      ap (λ x. x.count) at_id ∙ omega arith,
      subst (λ x. IsSem x m []) (sym at_id) sem'-IsSem,
    )

-- `sem_post` on a semaphore that tasks wait for wakes the first of them, and counts it off.
pub sem_post-wakes :
    (id : ℕ) (sems : Sems) (m : Tasks) (t : ℕ) (ts : List ℕ)
    → id < sem_max
    → IsSem (sems id) m (t ∷ ts)
    → (sems id).count < 2 ^ 32
    → let (sems', m') = sem_post id sems m in Woken m t ts (sems' id).wq m' × IsSem (sems' id) m' ts
unfolding sem_post
sem_post-wakes id sems m t ts lt q small =
    let e = is_out-small id lt in
    let w = wake_one-Woken (sems id).wq m t ts q.queue in
    let (wq', m') = wake_one (sems id).wq m in
    let neg : 2 ^ 31 ≤ (sems id).count = IsSem-negative q in
    let l = q.waiting neg in
    let c = ((sems id).count + 1) % 2 ^ 32 in
    let n : (is_negative c || (c == 0)) ≡ true = ground (arith, small, neg) in
    let sem' : Sem = record (sems id) { count = c; wq = wq' } in
    let run : sem_post id sems m ≡ (put_sem sems id sem', m') = rw (e, q.in_use, n) in
    let sem'-IsSem : IsSem sem' m' ts = record {
      queue = w.queue;
      in_use = q.in_use;
      waiting = λ h. omega arith;
      idle = λ h. length-nil ts (omega arith);
    } in
    let at_id : (put_sem sems id sem') id ≡ sem' = put_sem-at sems id sem' in
    subst (λ r. Woken m t ts (r.0 id).wq r.1 × IsSem (r.0 id) r.1 ts) (sym run)
      (subst (λ x. Woken m t ts x.wq m' × IsSem x m' ts) (sym at_id) (w, sem'-IsSem))
