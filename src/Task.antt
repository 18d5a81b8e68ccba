-- ===== src/Task.antt =====
-- kernel/task/task.c and kernel/task/sem.c: the ring of tasks, wait queues, sleepers, semaphores.
pub mod Defs
pub mod Ring
pub mod Create
pub mod Kill
pub mod Queue
pub mod Wait
pub mod Sleepers
pub mod Sem
pub mod Tests
