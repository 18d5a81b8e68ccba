-- ===== src/Task/Defs.antt =====
-- The state and the operations of kernel/task/task.c. `tasks` is the memory of `task_t`, by
-- address; NULL is 0. The static variables and the registers that `schedule` loads are fields of
-- `Sched`. The switch of the stacks (`task_switch`, in assembly), with the field `rsp` that it
-- saves, is left out, as are the fields for the stack, the name and the redirections, which these
-- operations do not touch.
use flyos.Base.{
  ℕ, zero, suc, ◌+◌, ◌/◌, ◌%◌, ◌^◌, Bool, true, false, ◌&&◌, ◌||◌, List, [], ◌∷◌, Option, none,
  some, leb, ◌==◌, if◌then◌else◌, ◌>>=◌,
}

pub data State : Type 0 where
  ready running blocked dead : State

abbrev pub is_ready : State → Bool
is_ready ready = true
is_ready _ = false

abbrev pub is_running : State → Bool
is_running running = true
is_running _ = false

abbrev pub is_blocked : State → Bool
is_blocked blocked = true
is_blocked _ = false

pub record Task : Type 0 where
  pub kernel_stack_top : ℕ
  pub saved_user_rsp : ℕ
  pub pml4_phys : ℕ
  pub id : ℕ
  pub state : State
  pub next : ℕ
  pub wq_next : ℕ
  pub parent : ℕ

abbrev pub Tasks : Type 0
Tasks = ℕ → Task

abbrev pub put : Tasks → ℕ → Task → Tasks
put ts p t x = if p == x then t else ts x

abbrev pub set_state : Tasks → ℕ → State → Tasks
set_state ts p st = put ts p (record (ts p) { state = st })

pub record Sleeper : Type 0 where
  pub task : ℕ
  pub wake_at : ℕ
  pub used : Bool

pub record Sched : Type 0 where
  pub tasks : Tasks
  pub current : ℕ
  pub next_id : ℕ
  pub tick_in_slice : ℕ
  pub sleepers : List Sleeper
  pub global_tick : ℕ
  pub kernel_rsp : ℕ
  pub saved_user_rsp : ℕ
  pub cr3 : ℕ

-- The search of `schedule` along the ring, on fuel: a task that is ready, or `current` again.
unfoldable pub find_ready : ℕ → Tasks → ℕ → ℕ → Option ℕ
find_ready zero ts next current = none
find_ready (suc fuel) ts next current =
    let n = (ts next).next in
    let rest = find_ready fuel ts n current in
    if is_ready (ts n).state then some n else if n == current then some n else rest

-- What `schedule` does once it has found another task.
unfoldable pub switch_to : Sched → ℕ → Sched
switch_to s next =
    let prev = s.current in
    let was : Tasks =
      if is_running (s.tasks prev).state then set_state s.tasks prev ready else s.tasks in
    let now : Tasks = set_state was next running in
    let saved : Tasks = put now prev (record (now prev) { saved_user_rsp = s.saved_user_rsp }) in
    record s {
      tasks = saved;
      current = next;
      kernel_rsp =
          if (now next).kernel_stack_top == 0 then s.kernel_rsp else (now next).kernel_stack_top;
      saved_user_rsp = (saved next).saved_user_rsp;
      cr3 = if (saved next).pml4_phys == 0 then s.cr3 else (saved next).pml4_phys;
    }

-- The ring has as many tasks as ids were handed out, so `next_id` rounds are enough. `none`: they
-- were not.
unfoldable pub schedule : Sched → Option Sched
schedule s =
    if s.current == 0
    then some s
    else find_ready s.next_id s.tasks s.current s.current >>= λ n.
        some (if n == s.current then s else switch_to s n)

abbrev pub is_due : ℕ → Sleeper → Bool
is_due now e = e.used && leb e.wake_at now

abbrev pub wake_entry : ℕ → Sleeper → Tasks → Tasks
wake_entry now e ts =
    if is_due now e && is_blocked (ts e.task).state then set_state ts e.task ready else ts

-- The loop of `scheduler_tick` over the sleepers.
unfoldable pub wake_sleepers : ℕ → List Sleeper → Tasks → List Sleeper × Tasks
wake_sleepers now [] ts = ([], ts)
wake_sleepers now (e ∷ es) ts =
    let (es', ts') = wake_sleepers now es (wake_entry now e ts) in
    ((if is_due now e then record e { used = false } else e) ∷ es', ts')

unfoldable pub scheduler_tick : Sched → Option Sched
unfolding wake_sleepers
scheduler_tick s =
    let now = (s.global_tick + 1) % 2 ^ 64 in
    let (sleepers, tasks) = wake_sleepers now s.sleepers s.tasks in
    let ticked : Sched = record s {
      tasks = tasks;
      sleepers = sleepers;
      global_tick = now;
      tick_in_slice = s.tick_in_slice + 1;
    } in
    if leb 5 ticked.tick_in_slice
    then schedule (record ticked { tick_in_slice = 0 })
    else some ticked

-- `wait_queue_t`
pub record WaitQueue : Type 0 where
  pub head : ℕ
  pub tail : ℕ

abbrev pub empty_queue : WaitQueue
empty_queue = record { head = 0; tail = 0 }

-- The part of `task_block` before it calls `schedule`.
unfoldable pub enqueue : WaitQueue → Sched → WaitQueue × Sched
enqueue wq s =
    let c = s.current in
    let ts : Tasks = put s.tasks c (record (s.tasks c) { state = blocked; wq_next = 0 }) in
    let linked : Tasks =
      if wq.tail == 0 then ts else put ts wq.tail (record (ts wq.tail) { wq_next = c }) in
    (record { head = if wq.tail == 0 then c else wq.head; tail = c }, record s { tasks = linked })

unfoldable pub block : WaitQueue → Sched → Option (WaitQueue × Sched)
unfolding enqueue
block wq s =
    let (wq', s') = enqueue wq s in
    if s.current == 0 then some (wq, s) else schedule s' >>= λ s''. some (wq', s'')

unfoldable pub wake_one : WaitQueue → Tasks → WaitQueue × Tasks
wake_one wq ts =
    let t = wq.head in
    let rest = (ts t).wq_next in
    let ts' : Tasks = put ts t (record (ts t) { wq_next = 0 }) in
    if t == 0 then (wq, ts) else (
      record { head = rest; tail = if rest == 0 then 0 else wq.tail },
      if is_blocked (ts' t).state then set_state ts' t ready else ts',
    )

-- `while (wq->head) wait_queue_wake_one(wq);`, on fuel. `none`: the fuel ran out.
unfoldable pub wake_all : ℕ → WaitQueue → Tasks → Option (WaitQueue × Tasks)
unfolding wake_one
wake_all zero wq ts = none
wake_all (suc fuel) wq ts =
    let (wq', ts') = wake_one wq ts in
    let rest = wake_all fuel wq' ts' in if wq.head == 0 then some (wq, ts) else rest

-- `task_sleep(ms)`: the first free slot of the table, if there is one.
unfoldable pub put_sleeper : Sleeper → List Sleeper → Option (List Sleeper)
put_sleeper e [] = none
put_sleeper e (x ∷ xs) =
    let rest = put_sleeper e xs in if x.used then (rest >>= λ ys. some (x ∷ ys)) else some (e ∷ xs)

abbrev pub ticks_of : ℕ → ℕ
ticks_of ms = let t = (ms + 9) % 2 ^ 64 / 10 in if t == 0 then 1 else t

unfoldable pub sleep : ℕ → Sched → Option Sched
unfolding put_sleeper
sleep ms s =
    let e : Sleeper = record {
      task = s.current;
      wake_at = (s.global_tick + ticks_of ms) % 2 ^ 64;
      used = true;
    } in
    elim (put_sleeper e s.sleepers) [
      | none ↦ some s
      | some es ↦ schedule (record s { sleepers = es; tasks = set_state s.tasks s.current blocked })
    ]

-- `task_kill_by_id` from the task `t` on, along the ring: -1 is `false`.
unfoldable pub kill_loop : ℕ → ℕ → ℕ → ℕ → Tasks → Option (Bool × Tasks)
kill_loop zero id current t ts = none
kill_loop (suc fuel) id current t ts =
    let n = (ts t).next in
    let rest = kill_loop fuel id current n ts in
    if (ts t).id == id
    then some (true, set_state ts t dead)
    else if (n == 0) || (n == current)
    then some (false, ts)
    else rest

unfoldable pub kill_by_id : ℕ → Sched → Option (Bool × Sched)
kill_by_id id s =
    if (s.current == 0) || (id == 0)
    then some (false, s)
    else kill_loop s.next_id id s.current s.current s.tasks >>= λ r.
        some (r.0, record s { tasks = r.1 })
