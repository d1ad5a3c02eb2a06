-- ===== src/Tasks.antt =====
-- aiolab/tasks.py: groups of tasks that end together, races, and the registry of background tasks.
pub mod Group
pub mod Failures
pub mod RunAll
pub mod Race
pub mod Winner
pub mod Registry
pub mod Owner
pub mod Scope
pub mod Numbering
pub mod Closing
mod Tests
