-- ===== src/Runner.antt =====
-- agent/core/runner.py: the reads and doors of the runner that do not suspend.
pub mod DoomLoop
pub mod Posting
pub mod Queued
pub mod Rewinding
pub mod Scheduling
pub mod Scheduled
pub mod Slots
pub mod Outcomes
