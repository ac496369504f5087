-- ===== src/Engine.antt =====
-- internal/engine: the sidecar process that holds IRC sockets across restarts of the application.
pub mod IrcLine
pub mod Buffer
pub mod Session
pub mod Server
