-- ===== src/CronService.antt =====
-- CronService of runtime/cron_service.py: Specs has the job specs of config.py, Jobs the merge of
-- the cron files, Schedule the clock arithmetic, State the service and what it calls, Materialize
-- the start of a run, Finalize its end, Deliver the delivery as a turn, Triggers the event-driven
-- jobs, Tick the periodic pass. The other children are proofs.
pub mod Specs
pub mod Schedule
pub mod Paths
pub mod Jobs
pub mod State
pub mod Materialize
pub mod Deliver
pub mod Finalize
pub mod Triggers
pub mod Tick
pub mod Inside
pub mod Sound
pub mod Merge
pub mod Caps
pub mod Streak
pub mod Steps
mod Fair
pub mod Cooldown
pub mod Budget
pub mod Spacing
pub mod Runs
pub mod Once
pub mod Race
pub mod Overlap
mod Fixtures
mod Tests
