-- ===== src/Json.antt =====
-- The JSON parser and printer of middleware/src/nonworking_json.cpp.
pub mod Outcome
pub mod Value
pub mod Access
pub mod Copies
pub mod Scan
pub mod Number
pub mod Parser
pub mod Print
pub mod Located
mod Tests
