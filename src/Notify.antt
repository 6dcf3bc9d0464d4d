-- ===== src/Notify.antt =====
-- internal/notify/notify.go: health notifications.
pub mod Batch
pub mod Compose
pub mod Deliver
mod Tests
