-- ===== src/Tasks.antt =====
-- Processes (core/tasks): their switching.
pub mod TaskManager
