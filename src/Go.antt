-- ===== src/Go.antt =====
-- The parts of Go's standard library that the sources call.
pub mod Strings
pub mod Space
pub mod Utf8
pub mod Search
