-- ===== src/Tasks.antt =====
-- src/graphed_executors/common/tasks_engine.py: a repartition or a join as a graph of tasks. A
-- future is the value of its task, none where the task raises.
pub mod Graph
pub mod Repartition
pub mod Join
