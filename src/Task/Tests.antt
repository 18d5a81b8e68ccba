-- ===== src/Task/Tests.antt =====
-- Three tasks on a ring, at the addresses 10, 20 and 30: 10 runs, 20 is blocked and 30 is ready.
use flyos.Base.{
  ℕ, ◌+◌, ◌-◌, ◌^◌, ◌≡◌, refl, ◌≢◌, true, [], ◌∷◌, Option, none, some, ◌==◌, if◌then◌else◌, arith,
  inr, ◌⊎◌,
}
use flyos.Task.Defs.{
  State, ready, running, blocked, dead, Task, Tasks, Sched, WaitQueue, empty_queue, find_ready,
  switch_to, schedule, scheduler_tick, enqueue, block, wake_all,
}
use flyos.Task.Ring.{IsRing, Scheduled, first_ready, schedule_lem}
use flyos.Heap.Defs.{Heap, heap_start, need_of, take, alloc_loop, kmalloc}
use flyos.Task.Create.{task_size, stack_size, task_create, task_create-runs}
use flyos.Task.Kill.{kill_all_children, dead_if, has, kill_all_children_lem}
use flyos.Task.Queue.{IsQueue}
use flyos.Task.Wait.{roused, released, not_in, block_lem, wake_all_lem}
use flyos.Task.Sleepers.{Settled, has_due, scheduler_tick-wakes}
use flyos.Task.Sem.{Sems, sem_wait}
use flyos.Task.Sem.Count.{IsSem, sem_wait-blocks}

abbrev task : ℕ → State → ℕ → ℕ → Task
task id state next wq_next = record {
  kernel_stack_top = 0;
  saved_user_rsp = id;
  pml4_phys = 0;
  id = id;
  state = state;
  next = next;
  wq_next = wq_next;
  parent = 0;
}

abbrev three : Tasks
three p =
    if p == 10
    then task 1 running 20 0
    else if p == 20
    then task 2 blocked 30 0
    else if p == 30
    then task 3 ready 10 0
    else task 0 dead 0 0

abbrev sched : Sched
sched = record {
  tasks = three;
  current = 10;
  next_id = 4;
  tick_in_slice = 0;
  sleepers = record { task = 20; wake_at = 8; used = true } ∷ [];
  global_tick = 7;
  kernel_rsp = 0;
  saved_user_rsp = 5;
  cr3 = 0;
}

sched-IsRing : IsRing sched (20 ∷ 30 ∷ [])
sched-IsRing = record {
  there = omega arith;
  links = (refl, omega arith, (refl, omega arith, refl));
  few = omega arith;
  alone = λ t ne. ground (arith, ne);
}

abbrev current_of : Option Sched → ℕ
current_of none = 0
current_of (some s) = s.current

schedule_runs : current_of (schedule sched) ≡ 30
unfolding schedule find_ready switch_to
schedule_runs = refl

schedule_lem_example :
    (s' : Sched) × (schedule sched ≡ some s')
    × (((◌≡◌ {A = ℕ} 30 10) × (s' ≡ sched)) ⊎ ((◌≢◌ {A = ℕ} 30 10) × Scheduled sched 30 s'))
unfolding first_ready
schedule_lem_example = schedule_lem sched (20 ∷ 30 ∷ []) sched-IsRing

-- Task 20 waits on a queue.
abbrev queue : WaitQueue
queue = record { head = 20; tail = 20 }

queue-IsQueue : IsQueue queue three (20 ∷ [])
queue-IsQueue = record { waits = (refl, omega arith, tt, refl); last = refl }

block_lem_example :
    (wq' : WaitQueue) × (s' : Sched) × (block queue sched ≡ some (wq', s'))
    × IsQueue wq' s'.tasks (20 ∷ 10 ∷ [])
    × ((s'.tasks 10).state ≡ blocked)
    × (((first_ready three (20 ∷ 30 ∷ []) 10 ≡ 10) × (s' ≡ (enqueue queue sched).1))
        ⊎ ((first_ready three (20 ∷ 30 ∷ []) 10 ≢ 10)
            × Scheduled (enqueue queue sched).1 (first_ready three (20 ∷ 30 ∷ []) 10) s'))
block_lem_example =
    block_lem queue sched (20 ∷ 30 ∷ []) (20 ∷ []) sched-IsRing (omega arith, tt) queue-IsQueue

wake_all_lem_example :
    (m' : Tasks) × (wake_all 2 queue three ≡ some (empty_queue, m'))
    × ((t : ℕ) → m' t ≡ (if not_in t (20 ∷ []) then three t else released (three t)))
wake_all_lem_example = wake_all_lem 2 queue three (20 ∷ []) (omega arith) queue-IsQueue

scheduler_tick-wakes_example :
    (s' : Sched) × (scheduler_tick sched ≡ some s')
    × (s'.global_tick ≡ 8)
    × (s'.current ≡ 10)
    × Settled s'.global_tick sched.sleepers s'.sleepers
    × ((t : ℕ)
        → (s'.tasks t).state ≡ (
            if has_due s'.global_tick t sched.sleepers
            then roused (three t).state
            else (three t).state))
scheduler_tick-wakes_example = scheduler_tick-wakes sched (omega arith) (omega arith)

-- Semaphore 3 is free once, semaphore 4 has the count -1 and task 20 waits for it.
abbrev sems : Sems
sems i =
    if i == 3
    then record { count = 1; used = true; wq = empty_queue }
    else record { count = 2 ^ 32 - 1; used = true; wq = queue }

free-IsSem : IsSem (sems 3) three []
free-IsSem = record {
  queue = record { waits = refl; last = refl };
  in_use = refl;
  waiting = λ h. absurd (omega arith);
  idle = λ h. refl;
}

taken-IsSem : IsSem (sems 4) three (20 ∷ [])
taken-IsSem = record {
  queue = queue-IsQueue;
  in_use = refl;
  waiting = λ h. refl;
  idle = λ h. absurd (omega arith);
}

sem_wait-blocks_example :
    (sems' : Sems) × (s' : Sched) × (sem_wait 4 sems sched ≡ some (sems', s'))
    × IsSem (sems' 4) s'.tasks (20 ∷ 10 ∷ [])
    × ((s'.tasks 10).state ≡ blocked)
sem_wait-blocks_example =
    sem_wait-blocks 4 sems sched (20 ∷ 30 ∷ []) (20 ∷ []) (omega arith) sched-IsRing
      (omega arith, tt) taken-IsSem (inr (omega arith, omega arith))

kill_all_children_lem_example :
    (m : Tasks) × (kill_all_children sched ≡ some (record sched { tasks = m }))
    × ((p : ℕ) → m p ≡ dead_if (has p (20 ∷ 30 ∷ [])) (sched.tasks p))
kill_all_children_lem_example =
    kill_all_children_lem sched (20 ∷ 30 ∷ []) sched-IsRing (omega arith, (omega arith, tt))

-- A heap with free blocks for a task and for its stack.
abbrev two_free : Heap
two_free = record {
  store = λ a.
      if a == heap_start
      then record { size = 160; is_free = true; next = heap_start + 160; prev = 0 }
      else record { size = 8224; is_free = true; next = 0; prev = heap_start };
  head = heap_start;
}

abbrev task_taken : Heap
task_taken = record two_free { store = take two_free.store heap_start 160 }

abbrev stack_taken : Heap
stack_taken = record task_taken { store = take task_taken.store (heap_start + 160) 8224 }

two_free_task : kmalloc two_free task_size ≡ some (heap_start + 32, task_taken)
unfolding kmalloc need_of alloc_loop
two_free_task = refl

two_free_stack : kmalloc task_taken stack_size ≡ some (heap_start + 192, stack_taken)
unfolding kmalloc need_of alloc_loop
two_free_stack = refl

task_create-runs_example :
    (s' : Sched) × (task_create sched two_free ≡ some (heap_start + 32, s', stack_taken))
    × IsRing s' ((heap_start + 32) ∷ 20 ∷ 30 ∷ [])
    × ((s'.tasks (heap_start + 32)).id ≡ 4)
    × ((p : ℕ) → p ≢ heap_start + 32 → p ≢ 10 → s'.tasks p ≡ three p)
    × ((s'' : Sched) × (schedule s' ≡ some s'') × Scheduled s' (heap_start + 32) s'')
task_create-runs_example =
    task_create-runs sched (20 ∷ 30 ∷ []) two_free task_taken stack_taken (heap_start + 32)
      (heap_start + 192) sched-IsRing two_free_task two_free_stack (omega arith) refl (omega arith)
