-- ===== src/Tasks.antt =====
-- The background tasks: task/worker.py and task/engine.py.
pub mod Worker
pub mod Execute
pub mod Engine
mod Tests
