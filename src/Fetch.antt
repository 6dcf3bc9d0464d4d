-- ===== src/Fetch.antt =====
-- internal/fetch: the parts of it that decide something by themselves.
pub mod Headers
mod Tests
