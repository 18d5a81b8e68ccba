-- ===== src/Task/Sem.antt =====
-- The state and the operations of kernel/task/sem.c. An `int` is the number of its 32 bits, so it is
-- negative from 2 ^ 31 on, and -1 is 2 ^ 32 - 1; the overflow of `count` wraps, as the compiler's code
-- does. `sems` is the table of the 16 semaphores, by index.
pub mod Count
use flyos.Base.{
  ℕ, ◌+◌, ◌-◌, ◌%◌, ◌^◌, Bool, true, false, ◌||◌, not, Option, some, ltb, leb, ◌==◌, if◌then◌else◌,
  ◌>>=◌,
}
use flyos.Task.Defs.{Tasks, Sched, WaitQueue, empty_queue, block, wake_one}

pub record Sem : Type 0 where
  pub count : ℕ
  pub used : Bool
  pub wq : WaitQueue

abbrev pub Sems : Type 0
Sems = ℕ → Sem

abbrev pub sem_max : ℕ
sem_max = 16

abbrev pub is_negative : ℕ → Bool
is_negative n = leb (2 ^ 31) n

abbrev pub put_sem : Sems → ℕ → Sem → Sems
put_sem sems id x i = if id == i then x else sems i

abbrev pub is_out : ℕ → Bool
is_out id = is_negative id || leb sem_max id

unfoldable pub sem_init_all : Sems → Sems
sem_init_all sems i =
    if ltb i sem_max then record { count = 0; used = false; wq = empty_queue } else sems i

unfoldable pub sem_init : ℕ → ℕ → Sems → Sems
sem_init id count sems =
    if is_out id
    then sems
    else put_sem sems id (record { count = count; used = true; wq = empty_queue })

-- With the state at which the processor is handed on, when the task blocks.
unfoldable pub sem_wait : ℕ → Sems → Sched → Option (Sems × Sched)
sem_wait id sems s =
    let sem : Sem = record (sems id) { count = ((sems id).count + (2 ^ 32 - 1)) % 2 ^ 32 } in
    if is_out id || not (sems id).used
    then some (sems, s)
    else if is_negative sem.count
    then (block sem.wq s >>= λ r. some (put_sem sems id (record sem { wq = r.0 }), r.1))
    else some (put_sem sems id sem, s)

unfoldable pub sem_post : ℕ → Sems → Tasks → Sems × Tasks
sem_post id sems ts =
    let sem : Sem = record (sems id) { count = ((sems id).count + 1) % 2 ^ 32 } in
    let (wq, ts') = wake_one sem.wq ts in
    if is_out id || not (sems id).used
    then (sems, ts)
    else if is_negative sem.count || (sem.count == 0)
    then (put_sem sems id (record sem { wq = wq }), ts')
    else (put_sem sems id sem, ts)

unfoldable pub sem_value : ℕ → Sems → ℕ
sem_value id sems = if is_out id || not (sems id).used then 2 ^ 32 - 1 else (sems id).count
