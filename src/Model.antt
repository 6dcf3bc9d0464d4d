-- ===== src/Model.antt =====
-- internal/model: the records that the other packages share.
pub mod Text
pub mod Filters
pub mod Item
pub mod Feed
pub mod Quiet
mod Tests
