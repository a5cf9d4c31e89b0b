-- ===== src/Task.antt =====
-- src/kernel/task.hpp and task.cpp: tasks, their run queues and the scheduler.
pub mod Context
pub mod State
pub mod RunQueue
pub mod Sleep
pub mod Switch
pub mod Lookup
pub mod Invariant
pub mod Rotate
pub mod Queues
pub mod Wake
pub mod Stop
pub mod Turn
pub mod End
pub mod Await
pub mod Post
pub mod Grow
pub mod History
pub mod Tests
