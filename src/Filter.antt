-- ===== src/Filter.antt =====
-- internal/filter: bounded literal keyword rules on extracted items.
pub mod Text
pub mod Compile
pub mod Match
pub mod Meaning
pub mod Combine
pub mod Correct
pub mod Limits
mod Tests
