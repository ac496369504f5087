-- ===== src/EngineLink.antt =====
-- internal/enginelink: the application's side of the engine link.
pub mod Tags
pub mod Session
mod Examples
