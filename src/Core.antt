-- ===== src/Core.antt =====
-- internal/core: the application's own state.
pub mod Bouncer
pub mod Network
pub mod Names
pub mod Autojoin
pub mod ChatHistory
