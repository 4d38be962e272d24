-- ===== src/Plan.antt =====
-- Plans and their tasks: plan/models.py and plan/manager.py.
pub mod Models
pub mod Resolve
pub mod Manager
mod Tests
