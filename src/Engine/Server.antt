-- ===== src/Engine/Server.antt =====
-- internal/engine/server.go: the engine's registry of sessions and links, and its handlers.
pub mod State
pub mod Handlers
pub mod Budget
pub mod Reap
pub mod Indexed
mod Examples
