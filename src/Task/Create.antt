-- ===== src/Task/Create.antt =====
-- `task_init` and `task_create` of kernel/task/task.c on the kernel heap. The fields of a task that the scheduler does
-- not read (its name, the base of its stack, the saved stack pointer and the standard streams) and the words on the
-- new stack are left out.
use flyos.Base.{
  ℕ, ◌+◌, ◌*◌, ◌%◌, ◌^◌, ◌<◌, ◌≡◌, refl, ◌≢◌, ◌∙◌, sym, subst, true, false, List, [], ◌∷◌, Option,
  some, ◌==◌, ◌>>=◌, arith, length, map, Bool-cases, ap, inl, inr,
}
use flyos.Heap.Defs.{Heap, kmalloc}
use flyos.Task.Defs.{
  ready, running, is_ready, is_running, Task, Tasks, put, Sleeper, Sched, schedule,
}
use flyos.Task.Ring.{Links, IsRing, first_ready, Scheduled, schedule_lem}
use flyos.Task.Kill.{has}

-- `sizeof(task_t)`
abbrev pub task_size : ℕ
task_size = 120

-- TASK_STACK_SIZE
abbrev pub stack_size : ℕ
stack_size = 8 * 1024

abbrev pub kmain_task : (t : ℕ) → Task
kmain_task t = record {
  kernel_stack_top = 0;
  saved_user_rsp = 0;
  pml4_phys = 0;
  id = 0;
  state = running;
  next = t;
  wq_next = 0;
  parent = 0;
}

-- The queue of the waiting parents starts empty.
unfoldable pub task_init : Sched → Heap → Option (Sched × Heap)
task_init s h = kmalloc h task_size >>= λ a. some (
  record s {
    tasks = put s.tasks a.0 (kmain_task a.0);
    current = a.0;
    sleepers = map (λ (x : Sleeper). record x { used = false }) s.sleepers;
    global_tick = 0;
  },
  a.1,
)

abbrev pub new_task : (stack_base : ℕ) → Sched → Task
new_task stack_base s = record {
  kernel_stack_top = (stack_base + stack_size) % 2 ^ 64;
  saved_user_rsp = 0;
  pml4_phys = 0;
  id = s.next_id;
  state = ready;
  next = (s.tasks s.current).next;
  wq_next = 0;
  parent = 0;
}

-- The new task `t` stands behind the current one.
abbrev pub insert_task : (t : ℕ) → Task → Sched → Sched
insert_task t x s =
    let made = put s.tasks t x in
    record s {
      tasks = put made s.current (record (made s.current) { next = t });
      next_id = (s.next_id + 1) % 2 ^ 32;
    }

-- The results of `kmalloc` are not tested.
unfoldable pub task_create : Sched → Heap → Option (ℕ × Sched × Heap)
task_create s h = kmalloc h task_size >>= λ a.
    kmalloc a.1 stack_size >>= λ b. some (a.0, insert_task a.0 (new_task b.0 s) s, b.1)

has-tail : (t w : ℕ) (us : List ℕ) → has t (w ∷ us) ≡ false → (w ≢ t) × (has t us ≡ false)
has-tail t w us out = (ground arith, ground arith)

-- The links behind tasks that are not changed.
Links-kept :
    (m m' : Tasks) (t q u : ℕ) (us : List ℕ)
    → ((p : ℕ) → p ≢ t → p ≢ q → m' p ≡ m p)
    → u ≢ t
    → u ≢ q
    → has t us ≡ false
    → Links m u us q
    → Links m' u us q
Links-kept m m' t q u [] kept ne nq out l = ap (λ (x : Task). x.next) (kept u ne nq) ∙ l
Links-kept m m' t q u (w ∷ us) kept ne nq out (l0, l1, l2) =
    let (apart, tail) = has-tail t w us out in
    (
      ap (λ (x : Task). x.next) (kept u ne nq) ∙ l0,
      l1,
      Links-kept m m' t q w us kept apart l1 tail l2,
    )

insert_task-Links :
    (s : Sched) (t : ℕ) (x : Task) (ts : List ℕ)
    → t ≢ s.current
    → has t ts ≡ false
    → x.next ≡ (s.tasks s.current).next
    → Links s.tasks s.current ts s.current
    → Links (insert_task t x s).tasks s.current (t ∷ ts) s.current
insert_task-Links s t x [] ne out same l = (ground arith, ne, ground arith)
insert_task-Links s t x (u ∷ us) ne out same (l0, l1, l2) =
    let m' : Tasks = (insert_task t x s).tasks in
    let (apart, tail) = has-tail t u us out in
    let first : (m' s.current).next ≡ t = ground arith in
    let second : (m' t).next ≡ x.next = ground arith in
    let kept : (p : ℕ) → p ≢ t → p ≢ s.current → m' p ≡ s.tasks p = λ p np nc. ground arith in
    (
      first,
      ne,
      (second ∙ same ∙ l0, l1, Links-kept s.tasks m' t s.current u us kept apart l1 tail l2),
    )

-- The new task is the next one of the ring.
insert_task-IsRing :
    (s : Sched) (t base : ℕ) (ts : List ℕ)
    → IsRing s ts
    → t ≢ s.current
    → has t ts ≡ false
    → s.next_id + 1 < 2 ^ 32
    → IsRing (insert_task t (new_task base s) s) (t ∷ ts)
insert_task-IsRing s t base ts r ne out small = record {
  there = r.there;
  links = insert_task-Links s t (new_task base s) ts ne out refl r.links;
  few = (let few : length ts < s.next_id = r.few in omega arith);
  alone = λ p np.
      let off : (s.current == p) ≡ false = ground arith in
      elim (Bool-cases (t == p)) [
        | inl at ↦ rw (off, at) refl
        | inr apart ↦ rw (off, apart) (r.alone p np)
      ];
}

insert_task-at : (s : Sched) (t : ℕ) (x : Task) → t ≢ s.current → (insert_task t x s).tasks t ≡ x
insert_task-at s t x ne =
    let off : (s.current == t) ≡ false = ground arith in
    let at : (t == t) ≡ true = ground arith in rw (off, at) refl

insert_task_other :
    (s : Sched) (t p : ℕ) (x : Task)
    → p ≢ t
    → p ≢ s.current
    → (insert_task t x s).tasks p ≡ s.tasks p
insert_task_other s t p x nt nc =
    let off : (s.current == p) ≡ false = ground arith in
    let apart : (t == p) ≡ false = ground arith in rw (off, apart) refl

schedule_next :
    (s : Sched) (t : ℕ) (ts : List ℕ)
    → IsRing s (t ∷ ts)
    → is_ready (s.tasks t).state ≡ true
    → t ≢ s.current
    → (s' : Sched) × (schedule s ≡ some s') × Scheduled s t s'
unfolding first_ready
schedule_next s t ts r is_next ne =
    let hit : first_ready s.tasks (t ∷ ts) s.current ≡ t = (rw is_next refl) in
    let (s', runs, result) = schedule_lem s (t ∷ ts) r in
    (
      s',
      runs,
      elim result [
        | inl same ↦ absurd (ne (sym hit ∙ same.0))
        | inr other ↦ subst (λ n. Scheduled s n s') hit other.1
      ],
    )

-- With the tasks on a ring, where the heap gives a block that is none of a task's, task_create returns: the new task has
-- the next id and stands on the ring behind the current one, the other tasks are as before, and the next schedule hands
-- the processor to it.
pub task_create-runs :
    (s : Sched) (ts : List ℕ) (h h1 h2 : Heap) (t base : ℕ)
    → IsRing s ts
    → kmalloc h task_size ≡ some (t, h1)
    → kmalloc h1 stack_size ≡ some (base, h2)
    → t ≢ s.current
    → has t ts ≡ false
    → s.next_id + 1 < 2 ^ 32
    → (s' : Sched) × (task_create s h ≡ some (t, s', h2))
      × IsRing s' (t ∷ ts)
      × ((s'.tasks t).id ≡ s.next_id)
      × ((p : ℕ) → p ≢ t → p ≢ s.current → s'.tasks p ≡ s.tasks p)
      × ((s'' : Sched) × (schedule s' ≡ some s'') × Scheduled s' t s'')
unfolding task_create
task_create-runs s ts h h1 h2 t base r e e' ne out small =
    let s' : Sched = insert_task t (new_task base s) s in
    let ring : IsRing s' (t ∷ ts) = insert_task-IsRing s t base ts r ne out small in
    let made : s'.tasks t ≡ new_task base s = insert_task-at s t (new_task base s) ne in
    (
      s',
      rw (e, e', task_create) refl,
      ring,
      ap (λ (x : Task). x.id) made,
      (λ p np nc. insert_task_other s t p (new_task base s) np nc),
      schedule_next s' t ts ring (ap (λ (x : Task). is_ready x.state) made) ne,
    )

-- After task_init the task that runs is alone on the ring.
task_init-IsRing :
    (s : Sched) (h h' : Heap) (t : ℕ)
    → kmalloc h task_size ≡ some (t, h')
    → t ≢ 0
    → s.next_id ≡ 1
    → ((p : ℕ) → is_running (s.tasks p).state ≡ false)
    → (s' : Sched) × (task_init s h ≡ some (s', h')) × (s'.current ≡ t) × IsRing s' []
unfolding task_init
task_init-IsRing s h h' t e ne id idle =
    let s' : Sched = record s {
      tasks = put s.tasks t (kmain_task t);
      current = t;
      sleepers = map (λ (x : Sleeper). record x { used = false }) s.sleepers;
      global_tick = 0;
    } in
    let at : (t == t) ≡ true = ground arith in
    (
      s',
      rw (e, task_init) refl,
      refl,
      record {
        there = ne;
        links = (rw at refl);
        few = rw id (omega arith);
        alone = λ p np. let off : (t == p) ≡ false = ground arith in rw off (idle p);
      },
    )
