-- ===== src/Scheduler.antt =====
-- internal/scheduler.
pub mod Slots
pub mod Holds
pub mod Articles
pub mod Backlog
pub mod Alerts
pub mod Extract
pub mod Refresh
pub mod Preview
pub mod Dispatch
mod Tests
